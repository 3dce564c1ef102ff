-- ===== src/Engine/Cycle/Buckets/Canonical.antt =====
-- Which path of a bucket stands for the others.
use onesync.Prelude.{◌≡◌, refl, inl, inr, Bool, true, false, List, [], ◌∷◌, arith, sym, ◌∙◌}
use onesync.Prelude.Tests.{Bool-cases}
use onesync.Prelude.Equality.{◌==◌, nat_eq, list_eq, list_beq_iff}
use onesync.Prelude.Lists.{All, All-append}
use onesync.Prelude.Text.{Text}
use onesync.Protocol.Path.{RelPath, rel_beq}
use onesync.Engine.CaseCollision.{case_fold_key}
use onesync.Prelude.Sorting.{text_leb}
use onesync.Engine.Cycle.Buckets.Survivors.{IsIn}
use onesync.Engine.Cycle.Buckets.{
  Buckets, Dropped, insert_sorted, sort, push_bucket, insert_dropped, drop_all, drop_sorted,
  drop_bucket, drop_buckets, fill_buckets, collisions_among,
}

text_leb_trans : (a b c : Text) → text_leb a b ≡ true → text_leb b c ≡ true → text_leb a c ≡ true
text_leb_trans [] b c h k = refl
text_leb_trans (x ∷ a) [] c h k = absurd (ground arith)
text_leb_trans (x ∷ a) (y ∷ b) [] h k = k
text_leb_trans (x ∷ a) (y ∷ b) (z ∷ c) h k = ground (arith, h, k, text_leb_trans a b c)

text_leb_total : (a b : Text) → text_leb a b ≡ false → text_leb b a ≡ true
text_leb_total [] b h = absurd (ground arith)
text_leb_total (x ∷ a) [] h = refl
text_leb_total (x ∷ a) (y ∷ b) h = ground (arith, h, text_leb_total a b)

abbrev path_leb : RelPath → RelPath → Bool
path_leb p q = text_leb p.as_str q.as_str

abbrev Below : RelPath → List RelPath → Type 0
Below p = All (λ q. path_leb p q ≡ true)

abbrev Sorted : List RelPath → Type 0
Sorted [] = Unit
Sorted (p ∷ ps) = Below p ps × Sorted ps

Below-trans : (p q : RelPath) (ps : List RelPath) → path_leb p q ≡ true → Below q ps → Below p ps
Below-trans p q [] h b = tt
Below-trans p q (x ∷ xs) h b =
    (text_leb_trans p.as_str q.as_str x.as_str h b.0, Below-trans p q xs h b.1)

All-insert_sorted :
    (Q : RelPath → Type 0) (p : RelPath) (ps : List RelPath)
    → Q p
    → All Q ps
    → All Q (insert_sorted p ps)
All-insert_sorted Q p [] h a = (h, tt)
All-insert_sorted Q p (x ∷ xs) h a = elim (Bool-cases (path_leb p x)) [
  | inl c ↦ rw c (h, a)
  | inr c ↦ rw c (a.0, All-insert_sorted Q p xs h a.1)
]

insert_sorted-Sorted : (p : RelPath) (ps : List RelPath) → Sorted ps → Sorted (insert_sorted p ps)
insert_sorted-Sorted p [] s = (tt, tt)
insert_sorted-Sorted p (x ∷ xs) s = elim (Bool-cases (path_leb p x)) [
  | inl c ↦ rw c ((c, Below-trans p x xs c s.0), s)
  | inr c ↦ rw c (
    All-insert_sorted (λ q. path_leb x q ≡ true) p xs (text_leb_total p.as_str x.as_str c) s.0,
    insert_sorted-Sorted p xs s.1,
  )
]

sort-Sorted : (ps : List RelPath) → Sorted (sort ps)
sort-Sorted [] = tt
sort-Sorted (p ∷ ps) = insert_sorted-Sorted p (sort ps) (sort-Sorted ps)

All-sort : (Q : RelPath → Type 0) (ps : List RelPath) → All Q ps → All Q (sort ps)
All-sort Q [] a = tt
All-sort Q (p ∷ ps) a = All-insert_sorted Q p (sort ps) a.0 (All-sort Q ps a.1)

-- An entry of the map is right for the page: its canonical path and the dropped one are in the page,
-- fold to the same text, and the canonical one is not the larger in the order of bytes.
abbrev pub Stands : (Text → Text) → (Text → Text) → List RelPath → RelPath → RelPath → Type 0
Stands nfc lower page p c =
    IsIn p page
    × IsIn c page
    × (lower (nfc c.as_str) ≡ lower (nfc p.as_str))
    × (text_leb c.as_str p.as_str ≡ true)

module _ (nfc lower : Text → Text) (page : List RelPath) where
  abbrev Entries : Dropped → Type 0
  Entries = All (λ (e : RelPath × RelPath). Stands nfc lower page e.0 e.1)

  -- A path of the page with the key.
  abbrev Belongs : Text → RelPath → Type 0
  Belongs key p = IsIn p page × (lower (nfc p.as_str) ≡ key)

  insert-Entries :
      (p c : RelPath) (m : Dropped)
      → Stands nfc lower page p c
      → Entries m
      → Entries (insert_dropped p c m)
  unfolding insert_dropped
  insert-Entries p c [] h a = (h, tt)
  insert-Entries p c ((q, old) ∷ m) h a = elim (Bool-cases (rel_beq q p)) [
    | inl e ↦ rw e (h, a.1)
    | inr e ↦ rw e (a.0, insert-Entries p c m h a.1)
  ]

  drop_all-Entries :
      (key : Text) (c : RelPath) (ps : List RelPath) (m : Dropped)
      → Belongs key c
      → Below c ps
      → All (Belongs key) ps
      → Entries m
      → Entries (drop_all ps c m)
  unfolding drop_all
  drop_all-Entries key c [] m bc below a e = e
  drop_all-Entries key c (p ∷ ps) m bc below a e =
      drop_all-Entries key c ps _ bc below.1 a.1
        (insert-Entries p c m (a.0.0, bc.0, bc.1 ∙ sym a.0.1, below.0) e)

  drop_sorted-Entries :
      (key : Text) (ps : List RelPath) (m : Dropped)
      → Sorted ps
      → All (Belongs key) ps
      → Entries m
      → Entries (drop_sorted ps m)
  drop_sorted-Entries key [] m s a e = e
  drop_sorted-Entries key (c ∷ ps) m s a e = drop_all-Entries key c ps m a.0 s.0 a.1 e

  drop_bucket-Entries :
      (key : Text) (ps : List RelPath) (m : Dropped)
      → All (Belongs key) ps
      → Entries m
      → Entries (drop_bucket ps m)
  drop_bucket-Entries key [] m a e = e
  drop_bucket-Entries key (p ∷ []) m a e = e
  drop_bucket-Entries key (p ∷ (q ∷ ps)) m a e =
      drop_sorted-Entries key (sort (p ∷ (q ∷ ps))) m (sort-Sorted (p ∷ (q ∷ ps)))
        (All-sort (Belongs key) (p ∷ (q ∷ ps)) a) e

  abbrev Filed : Buckets → Type 0
  Filed = All (λ (b : Text × List RelPath). All (Belongs b.0) b.1)

  drop_buckets-Entries :
      (bs : Buckets) (m : Dropped) → Filed bs → Entries m → Entries (drop_buckets bs m)
  drop_buckets-Entries [] m f e = e
  drop_buckets-Entries ((k, ps) ∷ bs) m f e =
      drop_buckets-Entries bs _ f.1 (drop_bucket-Entries k ps m f.0 e)

  push_bucket-Filed :
      (key : Text) (p : RelPath) (bs : Buckets)
      → Belongs key p
      → Filed bs
      → Filed (push_bucket key p bs)
  unfolding push_bucket
  push_bucket-Filed key p [] b f = ((b, tt), tt)
  push_bucket-Filed key p ((k, ps) ∷ bs) b f = elim (Bool-cases (k == key)) [
    | inl e ↦
        let same = (list_beq_iff k key).0 e in
        rw e (All-append (Belongs k) ps (p ∷ []) f.0 ((b.0, b.1 ∙ sym same), tt), f.1)
    | inr e ↦ rw e (f.0, push_bucket-Filed key p bs b f.1)
  ]

  fill_buckets-Filed :
      (ps : List RelPath) (bs : Buckets)
      → All (λ p. IsIn p page) ps
      → Filed bs
      → Filed (fill_buckets nfc lower ps bs)
  unfolding case_fold_key
  fill_buckets-Filed [] bs a f = f
  fill_buckets-Filed (p ∷ ps) bs a f =
      fill_buckets-Filed ps _ a.1 (push_bucket-Filed _ p bs (a.0, refl) f)

All-weaken :
    (Q R : RelPath → Type 0) (ps : List RelPath) → ((p : RelPath) → Q p → R p) → All Q ps → All R ps
All-weaken Q R [] h a = tt
All-weaken Q R (p ∷ ps) h a = (h p a.0, All-weaken Q R ps h a.1)

IsIn-self : (ps : List RelPath) → All (λ p. IsIn p ps) ps
IsIn-self [] = tt
IsIn-self (p ∷ ps) =
    (inl refl, All-weaken (λ q. IsIn q ps) (λ q. IsIn q (p ∷ ps)) ps (λ q h. inr h) (IsIn-self ps))

-- Every path that the page drops is dropped for a canonical path of the same page, which folds to the
-- same text and is not larger in the order of bytes.
pub collisions_among-Stands :
    (nfc to_lowercase : Text → Text) (ps : List RelPath)
    → All
        (λ (e : RelPath × RelPath). Stands nfc to_lowercase ps e.0 e.1)
        (collisions_among nfc to_lowercase ps)
unfolding collisions_among
collisions_among-Stands nfc to_lowercase ps =
    drop_buckets-Entries nfc to_lowercase ps (fill_buckets nfc to_lowercase ps []) []
      (fill_buckets-Filed nfc to_lowercase ps ps [] (IsIn-self ps) tt) tt
