-- ===== src/Protocol/Path.antt =====
-- crates/onesync-protocol/src/path.rs: validated paths. A path's only way in is its parser. The
-- normalisation `nfc` is that of the crate unicode_normalization, a parameter here.

pub mod Valid
use onesync.Prelude.{◌≡◌, ◌↔◌, arith, ℕ, Bool, true, false, ◌||◌, Option, none, some, List, [], ◌∷◌}
use onesync.Prelude.Tests.{if◌then◌else◌, ltb}
use onesync.Prelude.Equality.{Eq, ◌==◌, nat_eq, list_eq, list_beq_iff}
use onesync.Prelude.Lists.{length, any}
use onesync.Prelude.Text.{Text, split, has, is_empty, starts_with_byte}

pub record RelPath : Type 0 where
  pub as_str : Text

pub record AbsPath : Type 0 where
  pub as_str : Text

pub data PathParseError : Type 0 where
  empty embedded_nul parent_component leading_slash not_absolute : PathParseError
  too_long : ℕ → ℕ → PathParseError

pub data Parsed (A : Type 0) : Type 0 where
  valid : A → Parsed A
  invalid : PathParseError → Parsed A

abbrev pub max_path_bytes : ℕ
max_path_bytes = 1024

abbrev pub slash : ℕ
slash = b'/'

abbrev pub dot_dot : Text
dot_dot = b'.' ∷ b'.' ∷ []

abbrev pub is_parent : Text → Bool
is_parent part = part == dot_dot

-- The loop over the components comes last; `none` is the unit result `Ok(())`.
unfoldable pub validate_common : Text → Option PathParseError
validate_common s =
    if is_empty s
    then some empty
    else if ltb max_path_bytes (length s)
    then some (too_long (length s) max_path_bytes)
    else if has 0 s
    then some embedded_nul
    else if any is_parent (split slash s)
    then some parent_component
    else none

-- `RelPath::from_str`.
unfoldable pub parse_rel : (Text → Text) → Text → Parsed RelPath
unfolding validate_common
parse_rel nfc s =
    if starts_with_byte slash s then invalid leading_slash else elim (validate_common (nfc s)) [
      | some e ↦ invalid e
      | none ↦ valid (record { as_str = nfc s })
    ]

-- `AbsPath::from_str`.
unfoldable pub parse_abs : Text → Parsed AbsPath
unfolding validate_common
parse_abs s =
    if starts_with_byte slash s
    then elim (validate_common s) [ some e ↦ invalid e | none ↦ valid (record { as_str = s }) ]
    else invalid not_absolute

-- `.parse().ok()`.
abbrev pub ok : {A : Type 0} → Parsed A → Option A
ok (valid a) = some a
ok (invalid e) = none

-- The derived equality of `RelPath`.
abbrev pub rel_beq : RelPath → RelPath → Bool
rel_beq p q = p.as_str == q.as_str

pub rel_beq_iff : (p q : RelPath) → (rel_beq p q ≡ true) ↔ (p ≡ q)
rel_beq_iff p q = ground (arith, list_beq_iff p.as_str q.as_str)

instance abbrev pub rel_eq : Eq RelPath
rel_eq = record { test = rel_beq; test_iff = rel_beq_iff }
