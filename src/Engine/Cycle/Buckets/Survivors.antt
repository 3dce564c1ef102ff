-- ===== src/Engine/Cycle/Buckets/Survivors.antt =====
-- Which paths of a page survive.
use onesync.Prelude.{
  ◌≡◌, refl, ◌↔◌, ◌⊎◌, inl, inr, Bool, true, false, ◌||◌, List, [], ◌∷◌, ◌++◌, arith, ap, ◌∙◌,
}
use onesync.Prelude.Tests.{if◌then◌else◌, Bool-cases}
use onesync.Prelude.Equality.{◌==◌, nat_eq, list_eq, list_beq_iff}
use onesync.Prelude.Text.{Text}
use onesync.Protocol.Path.{RelPath, rel_beq}
use onesync.Engine.CaseCollision.{case_fold_key}
use onesync.Engine.Cycle.Buckets.{
  Buckets, Dropped, insert_sorted, sort, push_bucket, insert_dropped, is_dropped, drop_all,
  drop_sorted, drop_bucket, drop_buckets, fill_buckets, collisions_among,
}

abbrev pub IsIn : RelPath → List RelPath → Type 0
IsIn p [] = ⊥
IsIn p (q ∷ qs) = (q ≡ p) ⊎ IsIn p qs

rel_beq_iff : (p q : RelPath) → (rel_beq p q ≡ true) ↔ (p ≡ q)
rel_beq_iff p q = ground (arith, list_beq_iff p.as_str q.as_str)

-- What `insert` into the map changes.
is_dropped-insert :
    (p q c : RelPath) (m : Dropped)
    → is_dropped p (insert_dropped q c m) ≡ (rel_beq q p || is_dropped p m)
unfolding is_dropped insert_dropped
is_dropped-insert p q c [] = refl
is_dropped-insert p q c ((k, old) ∷ m) =
    ground (arith, is_dropped-insert p q c m, rel_beq_iff k q, rel_beq_iff q p, rel_beq_iff k p)

-- `IsIn` as a test.
abbrev member : RelPath → List RelPath → Bool
member p [] = false
member p (q ∷ qs) = rel_beq q p || member p qs

is_dropped-drop_all :
    (p c : RelPath) (ps : List RelPath) (m : Dropped)
    → is_dropped p (drop_all ps c m) ≡ (member p ps || is_dropped p m)
unfolding drop_all
is_dropped-drop_all p c [] m = refl
is_dropped-drop_all p c (q ∷ qs) m =
    ground (arith, is_dropped-drop_all p c qs (insert_dropped q c m), is_dropped-insert p q c m)

member-insert_sorted :
    (p q : RelPath) (ps : List RelPath)
    → member p (insert_sorted q ps) ≡ (rel_beq q p || member p ps)
member-insert_sorted p q [] = refl
member-insert_sorted p q (x ∷ xs) = ground (arith, member-insert_sorted p q xs)

member-sort : (p : RelPath) (ps : List RelPath) → member p (sort ps) ≡ member p ps
member-sort p [] = refl
member-sort p (q ∷ qs) = ground (arith, member-insert_sorted p q (sort qs), member-sort p qs)

-- Of one bucket at most one path is left.
sorted_survivor :
    (p q : RelPath) (ps : List RelPath) (m : Dropped)
    → member p ps ≡ true
    → member q ps ≡ true
    → is_dropped p (drop_sorted ps m) ≡ false
    → is_dropped q (drop_sorted ps m) ≡ false
    → p ≡ q
sorted_survivor p q [] m ip iq dp dq = absurd (ground arith)
sorted_survivor p q (c ∷ ps) m ip iq dp dq = ground (
  arith,
  is_dropped-drop_all p c ps m,
  is_dropped-drop_all q c ps m,
  rel_beq_iff c p,
  rel_beq_iff c q,
)

bucket_survivor :
    (p q : RelPath) (ps : List RelPath) (m : Dropped)
    → member p ps ≡ true
    → member q ps ≡ true
    → is_dropped p (drop_bucket ps m) ≡ false
    → is_dropped q (drop_bucket ps m) ≡ false
    → p ≡ q
bucket_survivor p q [] m ip iq dp dq = absurd (ground arith)
bucket_survivor p q (x ∷ []) m ip iq dp dq = ground (arith, rel_beq_iff x p, rel_beq_iff x q)
bucket_survivor p q (x ∷ (y ∷ ps)) m ip iq dp dq =
    sorted_survivor p q (sort (x ∷ (y ∷ ps))) m (member-sort p (x ∷ (y ∷ ps)) ∙ ip)
      (member-sort q (x ∷ (y ∷ ps)) ∙ iq) dp dq

-- A later bucket takes no path back.
dropped_by_sorted :
    (p : RelPath) (ps : List RelPath) (m : Dropped)
    → is_dropped p (drop_sorted ps m) ≡ false
    → is_dropped p m ≡ false
dropped_by_sorted p [] m h = h
dropped_by_sorted p (c ∷ ps) m h = ground (arith, is_dropped-drop_all p c ps m)

dropped_before :
    (p : RelPath) (ps : List RelPath) (m : Dropped)
    → is_dropped p (drop_bucket ps m) ≡ false
    → is_dropped p m ≡ false
dropped_before p [] m h = h
dropped_before p (x ∷ []) m h = h
dropped_before p (x ∷ (y ∷ ps)) m h = dropped_by_sorted p (sort (x ∷ (y ∷ ps))) m h

dropped_before_all :
    (p : RelPath) (bs : Buckets) (m : Dropped)
    → is_dropped p (drop_buckets bs m) ≡ false
    → is_dropped p m ≡ false
dropped_before_all p [] m h = h
dropped_before_all p ((k, ps) ∷ bs) m h =
    dropped_before p ps m (dropped_before_all p bs (drop_bucket ps m) h)

abbrev bucket_of : Text → Buckets → List RelPath
bucket_of key [] = []
bucket_of key ((k, ps) ∷ bs) = if k == key then ps else bucket_of key bs

buckets_survivor :
    (p q : RelPath) (key : Text) (bs : Buckets) (m : Dropped)
    → member p (bucket_of key bs) ≡ true
    → member q (bucket_of key bs) ≡ true
    → is_dropped p (drop_buckets bs m) ≡ false
    → is_dropped q (drop_buckets bs m) ≡ false
    → p ≡ q
buckets_survivor p q key [] m ip iq dp dq = absurd (ground arith)
buckets_survivor p q key ((k, ps) ∷ bs) m ip iq dp dq = ground (
  arith,
  buckets_survivor p q key bs (drop_bucket ps m),
  bucket_survivor p q ps m,
  dropped_before_all p bs (drop_bucket ps m) dp,
  dropped_before_all q bs (drop_bucket ps m) dq,
)

member-append :
    (p : RelPath) (xs ys : List RelPath) → member p (xs ++ ys) ≡ (member p xs || member p ys)
member-append p [] ys = refl
member-append p (x ∷ xs) ys = ground (arith, member-append p xs ys)

bucket_of-push :
    (key k : Text) (p : RelPath) (bs : Buckets)
    → bucket_of key (push_bucket k p bs)
      ≡ (if k == key then bucket_of key bs ++ (p ∷ []) else bucket_of key bs)
unfolding push_bucket
bucket_of-push key k p [] = ground arith
bucket_of-push key k p ((j, ps) ∷ bs) =
    ground
      (arith, bucket_of-push key k p bs, list_beq_iff j k, list_beq_iff j key, list_beq_iff k key)

member_iff : (p : RelPath) (ps : List RelPath) → (member p ps ≡ true) ↔ IsIn p ps
member_iff p [] = ground arith
member_iff p (q ∷ qs) = ground (arith, rel_beq_iff q p, member_iff p qs)

module _ (nfc to_lowercase : Text → Text) where
  abbrev key_of : RelPath → Text
  key_of p = case_fold_key nfc to_lowercase p.as_str

  -- Every path of the page is in the bucket of its key.
  bucket_of-fill :
      (p : RelPath) (ps : List RelPath) (bs : Buckets)
      → member p (bucket_of (key_of p) (fill_buckets nfc to_lowercase ps bs))
        ≡ (member p (bucket_of (key_of p) bs) || member p ps)
  bucket_of-fill p [] bs = ground arith
  bucket_of-fill p (q ∷ qs) bs =
      let pushed = push_bucket (key_of q) q bs in
      elim (Bool-cases (rel_beq q p)) [
        | inl same ↦
            let e = ap key_of ((rel_beq_iff q p).0 same) in
            ground (
              arith,
              same,
              list_beq_iff (key_of q) (key_of p),
              e,
              bucket_of-fill p qs pushed,
              bucket_of-push (key_of p) (key_of q) q bs,
              member-append p (bucket_of (key_of p) bs) (q ∷ []),
            )
        | inr other ↦ ground (
          arith,
          other,
          bucket_of-fill p qs pushed,
          bucket_of-push (key_of p) (key_of q) q bs,
          member-append p (bucket_of (key_of p) bs) (q ∷ []),
        )
      ]

  -- Of the paths of a page, two that fold to the same text and are both not dropped are the same
  -- path.
  pub survivors_differ :
      (ps : List RelPath) (p q : RelPath)
      → IsIn p ps
      → IsIn q ps
      → to_lowercase (nfc p.as_str) ≡ to_lowercase (nfc q.as_str)
      → is_dropped p (collisions_among nfc to_lowercase ps) ≡ false
      → is_dropped q (collisions_among nfc to_lowercase ps) ≡ false
      → p ≡ q
  unfolding collisions_among case_fold_key
  survivors_differ ps p q ip iq fold dp dq =
      let bs = fill_buckets nfc to_lowercase ps [] in
      let mp : member p (bucket_of (key_of p) bs) ≡ true =
        ground (arith, bucket_of-fill p ps [], member_iff p ps, ip) in
      let mq : member q (bucket_of (key_of q) bs) ≡ true =
        ground (arith, bucket_of-fill q ps [], member_iff q ps, iq) in
      buckets_survivor p q (key_of p) bs [] mp (rw fold mq) dp dq
