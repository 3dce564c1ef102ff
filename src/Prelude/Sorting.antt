-- ===== src/Prelude/Sorting.antt =====
-- A stable sort, and the order of texts by their bytes.
use Prim.Native.Nat.{ℕ, zero, suc}
use mathlib.Core.Bool.{Bool, true, false}
use mathlib.Core.List.{List, [], ◌∷◌}
use onesync.Prelude.Tests.{if◌then◌else◌, ltb}
use onesync.Prelude.Equality.{◌==◌, nat_eq}
use onesync.Prelude.Text.{Text}

-- The order of `str`: bytes compared from the left, a prefix first.
abbrev pub text_leb : Text → Text → Bool
text_leb [] t = true
text_leb (c ∷ s) [] = false
text_leb (c ∷ s) (d ∷ t) = if c == d then text_leb s t else ltb c d

module _ {ℓ} {A : Type ℓ} where
  -- An element goes in front of the first that is not smaller.
  abbrev pub insert_by : (A → A → Bool) → A → List A → List A
  insert_by le x [] = x ∷ []
  insert_by le x (y ∷ ys) = if le x y then x ∷ (y ∷ ys) else y ∷ insert_by le x ys

  -- `sort_by_key`.
  abbrev pub sort_by : (A → A → Bool) → List A → List A
  sort_by le [] = []
  sort_by le (x ∷ xs) = insert_by le x (sort_by le xs)

  -- `Vec::truncate`.
  abbrev pub take : ℕ → List A → List A
  take zero xs = []
  take (suc n) [] = []
  take (suc n) (x ∷ xs) = x ∷ take n xs
