-- ===== src/Prelude/Map.antt =====
-- A `HashMap` as an association list, in the order in which its keys were first inserted.
use mathlib.Core.Path.{◌≡◌, refl, ◌∙◌}
use mathlib.Core.Logic.{inl, inr}
use mathlib.Core.Bool.{Bool, false, ◌||◌}
use mathlib.Core.Option.{Option, none, some}
use mathlib.Core.List.{List, [], ◌∷◌}
use native.Mathlib.Omega.{arith}
use onesync.Prelude.Tests.{if◌then◌else◌, Bool-cases}
use onesync.Prelude.Equality.{Eq, ◌==◌, eq_of_beq}

abbrev pub Map {ℓ κ} : Type ℓ → Type κ → Type (ℓ ⊔ κ)
Map K V = List (K × V)

module _ {ℓ κ} {K : Type ℓ} {V : Type κ} where
  abbrev pub values : Map K V → List V
  values [] = []
  values ((k, v) ∷ m) = v ∷ values m

  -- `HashMap::retain`.
  abbrev pub retain : (K → V → Bool) → Map K V → Map K V
  retain p [] = []
  retain p ((k, v) ∷ m) = if p k v then (k, v) ∷ retain p m else retain p m

module _ {κ} {V : Type κ} where
  -- An optional value that passes a test.
  abbrev pub passing : (V → Bool) → Option V → Option V
  passing p none = none
  passing p (some v) = if p v then some v else none

  abbrev pub apply_to : (V → V) → Option V → Option V
  apply_to f none = none
  apply_to f (some v) = some (f v)

module _ {ℓ κ} {K : Type ℓ} {V : Type κ} ⦃e : Eq K⦄ where
  abbrev pub get : K → Map K V → Option V
  get j [] = none
  get j ((k, v) ∷ m) = if k == j then some v else get j m

  abbrev pub insert : K → V → Map K V → Map K V
  insert j w [] = (j, w) ∷ []
  insert j w ((k, v) ∷ m) = if k == j then (k, w) ∷ m else (k, v) ∷ insert j w m

  abbrev pub remove : K → Map K V → Map K V
  remove j [] = []
  remove j ((k, v) ∷ m) = if k == j then remove j m else (k, v) ∷ remove j m

  -- An update through `get_mut`.
  abbrev pub adjust : K → (V → V) → Map K V → Map K V
  adjust j f [] = []
  adjust j f ((k, v) ∷ m) = if k == j then (k, f v) ∷ m else (k, v) ∷ adjust j f m

  abbrev pub has_key : K → Map K V → Bool
  has_key j [] = false
  has_key j ((k, v) ∷ m) = k == j || has_key j m

  -- No key occurs twice.
  abbrev pub Distinct : Map K V → Type 0
  Distinct [] = Unit
  Distinct ((k, v) ∷ m) = (has_key k m ≡ false) × Distinct m

  pub get-insert :
      (j k : K) (w : V) (m : Map K V) → get j (insert k w m) ≡ (if k == j then some w else get j m)
  get-insert j k w [] = ground arith
  get-insert j k w ((l, v) ∷ m) =
      ground (arith, get-insert j k w m, e.test_iff l k, e.test_iff l j, e.test_iff k j)

  pub get-remove : (j k : K) (m : Map K V) → get j (remove k m) ≡ (if k == j then none else get j m)
  get-remove j k [] = ground arith
  get-remove j k ((l, v) ∷ m) =
      ground (arith, get-remove j k m, e.test_iff l k, e.test_iff l j, e.test_iff k j)

  pub get-adjust :
      (j k : K) (f : V → V) (m : Map K V)
      → get j (adjust k f m) ≡ (if k == j then apply_to f (get j m) else get j m)
  get-adjust j k f [] = ground arith
  get-adjust j k f ((l, v) ∷ m) =
      ground (arith, get-adjust j k f m, e.test_iff l k, e.test_iff l j, e.test_iff k j)

  has_key-get : (j : K) (m : Map K V) → has_key j m ≡ false → get j m ≡ none
  has_key-get j [] h = refl
  has_key-get j ((k, v) ∷ m) h = ground (arith, has_key-get j m)

  has_key-retain :
      (j : K) (p : K → V → Bool) (m : Map K V)
      → has_key j m ≡ false
      → has_key j (retain p m) ≡ false
  has_key-retain j p [] h = refl
  has_key-retain j p ((k, v) ∷ m) h = ground (arith, has_key-retain j p m)

  pub get-retain :
      (j : K) (p : K → V → Bool) (m : Map K V)
      → Distinct m
      → get j (retain p m) ≡ passing (p j) (get j m)
  get-retain j p [] d = refl
  get-retain j p ((k, v) ∷ m) d = elim (Bool-cases (k == j)) [
    | inl same ↦ ground (
      arith,
      has_key-get j (retain p m),
      has_key-retain k p m d.0,
      d.0,
      has_key-get j m,
      e.test_iff k j,
      eq_of_beq {x = k} {y = j} same,
    )
    | inr other ↦ ground (arith, get-retain j p m d.1)
  ]

  has_key-insert :
      (j k : K) (w : V) (m : Map K V) → has_key j (insert k w m) ≡ (k == j || has_key j m)
  has_key-insert j k w [] = refl
  has_key-insert j k w ((l, v) ∷ m) =
      ground (arith, has_key-insert j k w m, e.test_iff l k, e.test_iff l j, e.test_iff k j)

  has_key-adjust : (j k : K) (f : V → V) (m : Map K V) → has_key j (adjust k f m) ≡ has_key j m
  has_key-adjust j k f [] = refl
  has_key-adjust j k f ((l, v) ∷ m) = ground (arith, has_key-adjust j k f m)

  has_key-remove : (j k : K) (m : Map K V) → has_key j m ≡ false → has_key j (remove k m) ≡ false
  has_key-remove j k [] h = refl
  has_key-remove j k ((l, v) ∷ m) h = ground (arith, has_key-remove j k m)

  pub insert-Distinct : (k : K) (w : V) (m : Map K V) → Distinct m → Distinct (insert k w m)
  insert-Distinct k w [] d = (refl, tt)
  insert-Distinct k w ((l, v) ∷ m) d = elim (Bool-cases (l == k)) [
    | inl same ↦ rw same d
    | inr other ↦ rw other (
      ground (arith, has_key-insert l k w m, e.test_iff l k, e.test_iff k l, d.0),
      insert-Distinct k w m d.1,
    )
  ]

  pub adjust-Distinct : (k : K) (f : V → V) (m : Map K V) → Distinct m → Distinct (adjust k f m)
  adjust-Distinct k f [] d = tt
  adjust-Distinct k f ((l, v) ∷ m) d = elim (Bool-cases (l == k)) [
    | inl same ↦ rw same d
    | inr other ↦ rw other (has_key-adjust l k f m ∙ d.0, adjust-Distinct k f m d.1)
  ]

  pub remove-Distinct : (k : K) (m : Map K V) → Distinct m → Distinct (remove k m)
  remove-Distinct k [] d = tt
  remove-Distinct k ((l, v) ∷ m) d = elim (Bool-cases (l == k)) [
    | inl same ↦ rw same (remove-Distinct k m d.1)
    | inr other ↦ rw other (has_key-remove l k m d.0, remove-Distinct k m d.1)
  ]

  pub retain-Distinct : (p : K → V → Bool) (m : Map K V) → Distinct m → Distinct (retain p m)
  retain-Distinct p [] d = tt
  retain-Distinct p ((l, v) ∷ m) d = elim (Bool-cases (p l v)) [
    | inl kept ↦ rw kept (has_key-retain l p m d.0, retain-Distinct p m d.1)
    | inr dropped ↦ rw dropped (retain-Distinct p m d.1)
  ]
