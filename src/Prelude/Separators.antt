-- ===== src/Prelude/Separators.antt =====
-- The laws of the searches for a separator.
use Prim.Native.Nat.{ℕ}
use mathlib.Core.Path.{◌≡◌, refl}
use mathlib.Core.Logic.{inl, inr}
use mathlib.Core.Bool.{false, ◌||◌}
use mathlib.Core.Option.{none, some}
use mathlib.Core.List.{[], ◌∷◌, ◌++◌}
use native.Mathlib.Omega.{arith}
use onesync.Prelude.Tests.{Option-cases}
use onesync.Prelude.Equality.{nat_eq}
use onesync.Prelude.Text.{Text, has, split_last}

pub has-append : (b : ℕ) (s t : Text) → has b (s ++ t) ≡ (has b s || has b t)
has-append b [] t = refl
has-append b (c ∷ s) t = ground (arith, has-append b s t)

pub has_of_append :
    (b : ℕ) (s t : Text) → has b (s ++ t) ≡ false → (has b s ≡ false) × (has b t ≡ false)
has_of_append b [] t h = (refl, h)
has_of_append b (c ∷ s) t h = ground (arith, has_of_append b s t)

-- With no separator in the rest the search finds the one in front of it.
pub split_last_absent : (sep : ℕ) (s : Text) → has sep s ≡ false → split_last sep s ≡ none
split_last_absent sep [] h = refl
split_last_absent sep (c ∷ s) h = ground (arith, split_last_absent sep s)

pub split_last-none : (sep : ℕ) (s : Text) → split_last sep s ≡ none → has sep s ≡ false
split_last-none sep [] h = refl
split_last-none sep (c ∷ s) h = elim (Option-cases (split_last sep s)) [
  | inl e ↦ ground (arith, split_last-none sep s e)
  | inr (x, e) ↦ ground (arith, e)
]

pub split_last-append :
    (sep : ℕ) (before behind : Text)
    → has sep behind ≡ false
    → split_last sep (before ++ (sep ∷ behind)) ≡ some (before, behind)
split_last-append sep [] behind h = ground (arith, split_last_absent sep behind h)
split_last-append sep (c ∷ before) behind h = ground (arith, split_last-append sep before behind h)

-- What the search returns puts the text together again, and the rest has no separator.
pub split_last_sound :
    (sep : ℕ) (s before behind : Text)
    → split_last sep s ≡ some (before, behind)
    → (s ≡ before ++ (sep ∷ behind)) × (has sep behind ≡ false)
split_last_sound sep [] before behind h = cc
split_last_sound sep (c ∷ s) before behind h = elim (Option-cases (split_last sep s)) [
  | inl e ↦ ground (arith, split_last-none sep s e)
  | inr ((b, a), e) ↦ ground (arith, split_last_sound sep s b a e)
]
