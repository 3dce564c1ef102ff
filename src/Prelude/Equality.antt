-- ===== src/Prelude/Equality.antt =====
-- Decidable equality as an interface, with the instances the program compares by `==`.
use Prim.Native.Nat.{ℕ}
use Prim.Native.String.{String}
use mathlib.Core.Path.{◌≡◌, refl}
use mathlib.Core.Logic.{◌↔◌}
use mathlib.Core.Bool.{Bool, true, false, ◌&&◌}
use mathlib.Core.Option.{Option, none, some}
use mathlib.Core.List.{List, [], ◌∷◌}
use native.Mathlib.Omega.{arith}
use text.Mathlib.Text.{◌==◌ as string_beq}
use text.Mathlib.TextEquality.{eq_iff}
use onesync.Prelude.Tests.{nat_beq, nat_beq_iff}

pub record Eq {ℓ} (A : Type ℓ) : Type ℓ where
  pub test : A → A → Bool
  pub test_iff : (x y : A) → (test x y ≡ true) ↔ (x ≡ y)

infix 50 ◌==◌
abbrev pub ◌==◌ {ℓ} : {A : Type ℓ} ⦃e : Eq A⦄ → A → A → Bool
◌==◌ ⦃e⦄ = e.test

instance abbrev pub string_eq : Eq String
string_eq = record { test = string_beq; test_iff = eq_iff }

instance abbrev pub nat_eq : Eq ℕ
nat_eq = record { test = nat_beq; test_iff = nat_beq_iff }

module _ {ℓ} {A : Type ℓ} ⦃e : Eq A⦄ where
  abbrev pub list_beq : List A → List A → Bool
  list_beq [] [] = true
  list_beq [] (y ∷ ys) = false
  list_beq (x ∷ xs) [] = false
  list_beq (x ∷ xs) (y ∷ ys) = e.test x y && list_beq xs ys

  pub list_beq_iff : (xs ys : List A) → (list_beq xs ys ≡ true) ↔ (xs ≡ ys)
  list_beq_iff [] [] = ground arith
  list_beq_iff [] (y ∷ ys) = ground arith
  list_beq_iff (x ∷ xs) [] = ground arith
  list_beq_iff (x ∷ xs) (y ∷ ys) = ground (arith, e.test_iff x y, list_beq_iff xs ys)

  abbrev pub option_beq : Option A → Option A → Bool
  option_beq none none = true
  option_beq none (some y) = false
  option_beq (some x) none = false
  option_beq (some x) (some y) = e.test x y

  pub option_beq_iff : (x y : Option A) → (option_beq x y ≡ true) ↔ (x ≡ y)
  option_beq_iff none none = ground arith
  option_beq_iff none (some y) = ground arith
  option_beq_iff (some x) none = ground arith
  option_beq_iff (some x) (some y) = ground (arith, e.test_iff x y)

  instance abbrev pub list_eq : Eq (List A)
  list_eq = record { test = list_beq; test_iff = list_beq_iff }

  instance abbrev pub option_eq : Eq (Option A)
  option_eq = record { test = option_beq; test_iff = option_beq_iff }

  pub eq_of_beq : {x y : A} → (x == y) ≡ true → x ≡ y
  eq_of_beq {x} {y} h = (e.test_iff x y).0 h

  pub beq_refl : (x : A) → (x == x) ≡ true
  beq_refl x = (e.test_iff x x).1 refl

module _ {ℓ κ} {A : Type ℓ} {B : Type κ} ⦃e : Eq A⦄ ⦃f : Eq B⦄ where
  abbrev pub both_beq : A × B → A × B → Bool
  both_beq x y = e.test x.0 y.0 && f.test x.1 y.1

  pub both_beq_iff : (x y : A × B) → (both_beq x y ≡ true) ↔ (x ≡ y)
  both_beq_iff (a, b) (c, d) = ground (arith, e.test_iff a c, f.test_iff b d)

  instance abbrev pub both_eq : Eq (A × B)
  both_eq = record { test = both_beq; test_iff = both_beq_iff }
