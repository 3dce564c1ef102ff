-- ===== src/Engine/Cycle/Buckets.antt =====
-- `detect_remote_case_collisions` of cycle.rs: which paths of one delta page are dropped because
-- another path of the page differs from them in case only. A `HashMap` is a list in the order of
-- insertion.
pub mod Survivors
pub mod Canonical
use onesync.Prelude.{ℕ, Bool, true, false, ◌||◌, Option, none, some, List, [], ◌∷◌, ◌++◌}
use onesync.Prelude.Tests.{if◌then◌else◌, ltb}
use onesync.Prelude.Equality.{Eq, ◌==◌, nat_eq, list_eq}
use onesync.Prelude.Text.{Text}
use onesync.Prelude.Sorting.{text_leb}
use onesync.Protocol.Path.{RelPath, rel_beq}
use onesync.Protocol.Remote.{RemoteItem}
use onesync.Engine.CaseCollision.{case_fold_key}
use onesync.Engine.Cycle.Sides.{build_rel_path_from_item}

-- `sort_by` is stable: an element goes in front of the first that is not smaller.
abbrev pub insert_sorted : RelPath → List RelPath → List RelPath
insert_sorted p [] = p ∷ []
insert_sorted p (q ∷ qs) =
    if text_leb p.as_str q.as_str then p ∷ (q ∷ qs) else q ∷ insert_sorted p qs

abbrev pub sort : List RelPath → List RelPath
sort [] = []
sort (p ∷ ps) = insert_sorted p (sort ps)

abbrev pub Buckets : Type 0
Buckets = List (Text × List RelPath)

-- `buckets.entry(key).or_default().push(p)`.
unfoldable pub push_bucket : Text → RelPath → Buckets → Buckets
push_bucket key p [] = (key, p ∷ []) ∷ []
push_bucket key p ((k, ps) ∷ rest) =
    if k == key then (k, ps ++ (p ∷ [])) ∷ rest else (k, ps) ∷ push_bucket key p rest

-- The map from dropped to canonical paths, and `insert` into it.
abbrev pub Dropped : Type 0
Dropped = List (RelPath × RelPath)

unfoldable pub insert_dropped : RelPath → RelPath → Dropped → Dropped
insert_dropped p canonical [] = (p, canonical) ∷ []
insert_dropped p canonical ((q, c) ∷ rest) =
    if rel_beq q p then (p, canonical) ∷ rest else (q, c) ∷ insert_dropped p canonical rest

-- `contains_key`.
unfoldable pub is_dropped : RelPath → Dropped → Bool
is_dropped p [] = false
is_dropped p ((q, c) ∷ rest) = rel_beq q p || is_dropped p rest

unfoldable pub drop_all : List RelPath → RelPath → Dropped → Dropped
unfolding insert_dropped
drop_all [] canonical dropped = dropped
drop_all (p ∷ ps) canonical dropped = drop_all ps canonical (insert_dropped p canonical dropped)

-- One bucket: nothing for a single path; otherwise all but the smallest are dropped.
abbrev pub drop_sorted : List RelPath → Dropped → Dropped
drop_sorted [] dropped = dropped
drop_sorted (canonical ∷ others) dropped = drop_all others canonical dropped

abbrev pub drop_bucket : List RelPath → Dropped → Dropped
drop_bucket [] dropped = dropped
drop_bucket (p ∷ []) dropped = dropped
drop_bucket (p ∷ (q ∷ ps)) dropped = drop_sorted (sort (p ∷ (q ∷ ps))) dropped

abbrev pub drop_buckets : Buckets → Dropped → Dropped
drop_buckets [] dropped = dropped
drop_buckets ((k, ps) ∷ rest) dropped = drop_buckets rest (drop_bucket ps dropped)

module _ (nfc to_lowercase : Text → Text) where
  -- The paths of the items, those that do not parse left out.
  abbrev pub paths_of : List RemoteItem → List RelPath
  paths_of [] = []
  paths_of (item ∷ items) = elim (build_rel_path_from_item nfc item) [
    | some p ↦ p ∷ paths_of items
    | none ↦ paths_of items
  ]

  abbrev pub fill_buckets : List RelPath → Buckets → Buckets
  fill_buckets [] buckets = buckets
  fill_buckets (p ∷ ps) buckets =
      fill_buckets ps (push_bucket (case_fold_key nfc to_lowercase p.as_str) p buckets)

  unfoldable pub collisions_among : List RelPath → Dropped
  unfolding push_bucket drop_all case_fold_key
  collisions_among ps = drop_buckets (fill_buckets ps []) []

  unfoldable pub detect_remote_case_collisions : List RemoteItem → Dropped
  unfolding collisions_among build_rel_path_from_item
  detect_remote_case_collisions items = collisions_among (paths_of items)
