-- ===== src/Prelude/Text.antt =====
-- UTF-8 text as its bytes. The separators the program looks for are single bytes below 128, which
-- occur in no longer sequence, so that a search over bytes is the search over characters.
use Prim.Native.Nat.{ℕ, ◌+◌}
use Prim.Native.Char.{code}
use Prim.Native.String.{String}
use mathlib.Core.Bool.{Bool, true, false, ◌&&◌}
use mathlib.Core.Option.{Option, none, some}
use mathlib.Core.List.{List, [], ◌∷◌}
use onesync.Prelude.Tests.{if◌then◌else◌, leb}
use onesync.Prelude.Equality.{◌==◌, nat_eq}
use onesync.Prelude.Lists.{any}

abbrev pub Text : Type 0
Text = List ℕ

-- The bytes of an ASCII literal.
abbrev pub codes : String → Text
codes String.[] = []
codes (String.◌∷◌ c s) = code c ∷ codes s

-- `str::contains` for one byte.
abbrev pub has : ℕ → Text → Bool
has b = any (λ c. c == b)

abbrev pub extend_head : ℕ → List Text → List Text
extend_head c [] = (c ∷ []) ∷ []
extend_head c (part ∷ parts) = (c ∷ part) ∷ parts

-- `str::split`: a text without the separator is one part.
abbrev pub split : ℕ → Text → List Text
split sep [] = [] ∷ []
split sep (c ∷ s) = let parts = split sep s in if c == sep then [] ∷ parts else extend_head c parts

-- `str::rfind`, as the text before the last separator and the text behind it.
abbrev pub split_last : ℕ → Text → Option (Text × Text)
split_last sep [] = none
split_last sep (c ∷ s) = elim (split_last sep s) [
  | some (before, behind) ↦ some (c ∷ before, behind)
  | none ↦ if c == sep then some ([], s) else none
]

-- `str::split_once`.
abbrev pub split_first : ℕ → Text → Option (Text × Text)
split_first sep [] = none
split_first sep (c ∷ s) = if c == sep then some ([], s) else elim (split_first sep s) [
  | some (before, behind) ↦ some (c ∷ before, behind)
  | none ↦ none
]

-- `str::trim_start_matches` for one byte.
abbrev pub trim_start : ℕ → Text → Text
trim_start b [] = []
trim_start b (c ∷ s) = if c == b then trim_start b s else c ∷ s

-- `str::strip_prefix`.
abbrev pub strip_prefix : Text → Text → Option Text
strip_prefix [] s = some s
strip_prefix (p ∷ ps) [] = none
strip_prefix (p ∷ ps) (c ∷ s) = if c == p then strip_prefix ps s else none

abbrev pub starts_with_byte : ℕ → Text → Bool
starts_with_byte b [] = false
starts_with_byte b (c ∷ s) = c == b

abbrev pub is_empty : Text → Bool
is_empty [] = true
is_empty (c ∷ s) = false

abbrev lowercase_byte : ℕ → ℕ
lowercase_byte c = if leb 65 c && leb c 90 then c + 32 else c

-- `str::to_ascii_lowercase`.
abbrev pub to_ascii_lowercase : Text → Text
to_ascii_lowercase [] = []
to_ascii_lowercase (c ∷ s) = lowercase_byte c ∷ to_ascii_lowercase s
