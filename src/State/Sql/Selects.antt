-- ===== src/State/Sql/Selects.antt =====
-- A selection over rows that encode values, against the same selection over the values.
use onesync.Prelude.{◌≡◌, refl, Bool, List, [], ◌∷◌, ◌++◌, inl, inr}
use onesync.Prelude.Tests.{Bool-cases}
use onesync.Prelude.Lists.{keep, find, any}
use onesync.Prelude.Sorting.{sort_by, insert_by}
use onesync.State.Sql.{Decoded, good, transposed, collect}
use onesync.State.Sql.Tables.{update_where}

module _ {V R : Type 0} (Rel : V → R → Type 0) where
  -- The rows stand for the values, in their order.
  abbrev pub Rows : List V → List R → Type 0
  Rows [] [] = Unit
  Rows [] (r ∷ rs) = ⊥
  Rows (v ∷ vs) [] = ⊥
  Rows (v ∷ vs) (r ∷ rs) = Rel v r × Rows vs rs

  pub Rows-append :
      (vs : List V) (rs : List R) (v : V) (r : R)
      → Rows vs rs
      → Rel v r
      → Rows (vs ++ (v ∷ [])) (rs ++ (r ∷ []))
  Rows-append [] [] v r h k = (k, tt)
  Rows-append [] (s ∷ rs) v r h k = absurd h
  Rows-append (w ∷ vs) [] v r h k = absurd h
  Rows-append (w ∷ vs) (s ∷ rs) v r h k = (h.0, Rows-append vs rs v r h.1 k)

  module _ (p : V → Bool) (q : R → Bool) (same : (v : V) (r : R) → Rel v r → q r ≡ p v) where
    pub Rows-keep : (vs : List V) (rs : List R) → Rows vs rs → Rows (keep p vs) (keep q rs)
    Rows-keep [] [] h = tt
    Rows-keep [] (r ∷ rs) h = absurd h
    Rows-keep (v ∷ vs) [] h = absurd h
    Rows-keep (v ∷ vs) (r ∷ rs) h = rw (same v r h.0) (elim (Bool-cases (p v)) [
      | inl kept ↦ rw kept (h.0, Rows-keep vs rs h.1)
      | inr dropped ↦ rw dropped (Rows-keep vs rs h.1)
    ])

    pub any-Rows : (vs : List V) (rs : List R) → Rows vs rs → any q rs ≡ any p vs
    any-Rows [] [] h = refl
    any-Rows [] (r ∷ rs) h = absurd h
    any-Rows (v ∷ vs) [] h = absurd h
    any-Rows (v ∷ vs) (r ∷ rs) h = rw (same v r h.0, any-Rows vs rs h.1) refl

    pub Rows-update_where :
        (f : V → V) (g : R → R)
        → ((v : V) (r : R) → Rel v r → Rel (f v) (g r))
        → (vs : List V) (rs : List R) → Rows vs rs
        → Rows (update_where p f vs) (update_where q g rs)
    Rows-update_where f g step [] [] h = tt
    Rows-update_where f g step [] (r ∷ rs) h = absurd h
    Rows-update_where f g step (v ∷ vs) [] h = absurd h
    Rows-update_where f g step (v ∷ vs) (r ∷ rs) h = rw (same v r h.0) (elim (Bool-cases (p v)) [
      | inl hit ↦ rw hit (step v r h.0, Rows-update_where f g step vs rs h.1)
      | inr miss ↦ rw miss (h.0, Rows-update_where f g step vs rs h.1)
    ])

  module _ (decode : R → Decoded V) (back : (v : V) (r : R) → Rel v r → decode r ≡ good v) where
    pub collect-Rows : (vs : List V) (rs : List R) → Rows vs rs → collect decode rs ≡ good vs
    collect-Rows [] [] h = refl
    collect-Rows [] (r ∷ rs) h = absurd h
    collect-Rows (v ∷ vs) [] h = absurd h
    collect-Rows (v ∷ vs) (r ∷ rs) h = rw (back v r h.0, collect-Rows vs rs h.1) refl

    pub find-Rows :
        (p : V → Bool) (q : R → Bool)
        → ((v : V) (r : R) → Rel v r → q r ≡ p v)
        → (vs : List V) (rs : List R) → Rows vs rs
        → transposed decode (find q rs) ≡ good (find p vs)
    find-Rows p q same [] [] h = refl
    find-Rows p q same [] (r ∷ rs) h = absurd h
    find-Rows p q same (v ∷ vs) [] h = absurd h
    find-Rows p q same (v ∷ vs) (r ∷ rs) h = rw (same v r h.0) (elim (Bool-cases (p v)) [
      | inl hit ↦ rw (hit, back v r h.0) refl
      | inr miss ↦ rw miss (find-Rows p q same vs rs h.1)
    ])

  module _ (le : V → V → Bool) (before : R → R → Bool)
      (same : (v w : V) (r s : R) → Rel v r → Rel w s → before r s ≡ le v w) where
    Rows-insert_by :
        (v : V) (r : R) (vs : List V) (rs : List R)
        → Rel v r
        → Rows vs rs
        → Rows (insert_by le v vs) (insert_by before r rs)
    Rows-insert_by v r [] [] k h = (k, tt)
    Rows-insert_by v r [] (s ∷ rs) k h = absurd h
    Rows-insert_by v r (w ∷ vs) [] k h = absurd h
    Rows-insert_by v r (w ∷ vs) (s ∷ rs) k h = rw (same v w r s k h.0) (elim (Bool-cases (le v w)) [
      | inl first ↦ rw first (k, h)
      | inr later ↦ rw later (h.0, Rows-insert_by v r vs rs k h.1)
    ])

    pub Rows-sort_by :
        (vs : List V) (rs : List R) → Rows vs rs → Rows (sort_by le vs) (sort_by before rs)
    Rows-sort_by [] [] h = tt
    Rows-sort_by [] (r ∷ rs) h = absurd h
    Rows-sort_by (v ∷ vs) [] h = absurd h
    Rows-sort_by (v ∷ vs) (r ∷ rs) h = Rows-insert_by v r _ _ h.0 (Rows-sort_by vs rs h.1)
