-- ===== src/Prelude/Outcome.antt =====
-- Fallible code over a state: an action returns a value or an error, and the state in both cases.
use mathlib.Core.Path.{◌≡◌, refl}
use mathlib.Core.Logic.{◌⊎◌, inl, inr}
use mathlib.Core.Bool.{Bool, true}

pub data Outcome {ℓ κ μ} (E : Type ℓ) (S : Type κ) (A : Type μ) : Type (ℓ ⊔ κ ⊔ μ) where
  ok : A → S → Outcome E S A
  err : E → S → Outcome E S A

abbrev pub Action {ℓ κ μ} : Type ℓ → Type κ → Type μ → Type (ℓ ⊔ κ ⊔ μ)
Action E S A = S → Outcome E S A

module _ {ℓ κ} {E : Type ℓ} {S : Type κ} where
  abbrev pub return {μ} : {A : Type μ} → A → Action E S A
  return a s = ok a s

  abbrev pub fail {μ} : {A : Type μ} → E → Action E S A
  fail e s = err e s

  abbrev pub and_then {μ ν} :
      {A : Type μ} {B : Type ν} → Outcome E S A → (A → Action E S B) → Outcome E S B
  and_then (ok a s) f = f a s
  and_then (err e s) f = err e s

  infixl 5 ◌>>=◌ ◌>>◌
  abbrev pub ◌>>=◌ {μ ν} :
      {A : Type μ} {B : Type ν} → Action E S A → (A → Action E S B) → Action E S B
  ◌>>=◌ m f s = and_then (m s) f

  abbrev pub ◌>>◌ {μ} : {B : Type μ} → Action E S (Unit {0}) → Action E S B → Action E S B
  m >> k = m >>= λ _. k

  -- `match m.await { Ok(a) => …, Err(e) => … }`: the error becomes a value.
  abbrev pub caught {μ ν} : {F : Type ν} {A : Type μ} → Outcome E S A → Outcome F S (E ⊎ A)
  caught (ok a s) = ok (inr a) s
  caught (err e s) = ok (inl e) s

  abbrev pub attempt {μ ν} : {F : Type ν} {A : Type μ} → Action E S A → Action F S (E ⊎ A)
  attempt m s = caught (m s)

  pub Outcome-cases {μ} :
      {A : Type μ} (o : Outcome E S A)
      → ((a : A) × (s : S) × (o ≡ ok a s)) ⊎ ((e : E) × (s : S) × (o ≡ err e s))
  Outcome-cases (ok a s) = inl (a, s, refl)
  Outcome-cases (err e s) = inr (e, s, refl)

  -- What a value satisfies wherever there is one; an error satisfies it too.
  abbrev pub Returns {μ ν} : {A : Type μ} → (A → Type ν) → Outcome E S A → Type ν
  Returns Q (ok a s) = Q a
  Returns Q (err e s) = Unit

  pub Returns-and_then {μ ν ρ σ} :
      {A : Type μ} {B : Type ν} (R : A → Type ρ) (Q : B → Type σ) (o : Outcome E S A)
      (f : A → Action E S B)
      → Returns R o
      → ((a : A) (s : S) → R a → Returns Q (f a s))
      → Returns Q (and_then o f)
  Returns-and_then R Q (ok a s) f r h = h a s r
  Returns-and_then R Q (err e s) f r h = tt

  -- The same as a test, for values that a test describes.
  abbrev pub returns {μ} : {A : Type μ} → (A → Bool) → Outcome E S A → Bool
  returns q (ok a s) = q a
  returns q (err e s) = true
