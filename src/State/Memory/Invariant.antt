-- ===== src/State/Memory/Invariant.antt =====
-- What every operation of the store preserves: no key has two rows, and a pair's row stands under
-- its own identifier.
use onesync.Prelude.{◌≡◌, refl, inl, inr, List, [], ◌∷◌, arith}
use onesync.Prelude.Tests.{Bool-cases}
use onesync.Prelude.Equality.{◌==◌, nat_eq, both_eq}
use onesync.Prelude.Map.{Map, Distinct, insert, remove, remove-Distinct}
use onesync.Protocol.Path.{rel_eq}
use onesync.Protocol.Entities.{RowId, Pair}
use onesync.State.Memory.{InMemoryStore, remove_all}

abbrev pub Keyed : Map RowId Pair → Type 0
Keyed [] = Unit
Keyed ((k, p) ∷ m) = (p.id ≡ k) × Keyed m

pub record WellFormed (s : InMemoryStore) : Type 0 where
  pub accounts : Distinct s.accounts
  pub pairs : Distinct s.pairs
  pub file_entries : Distinct s.file_entries
  pub file_ops : Distinct s.file_ops
  pub conflicts : Distinct s.conflicts
  pub sync_runs : Distinct s.sync_runs
  pub keyed : Keyed s.pairs

pub insert-Keyed : (p : Pair) (m : Map RowId Pair) → Keyed m → Keyed (insert p.id p m)
insert-Keyed p [] h = (refl, tt)
insert-Keyed p ((k, q) ∷ m) h = elim (Bool-cases (k == p.id)) [
  | inl same ↦ rw same (ground arith, h.1)
  | inr other ↦ rw other (h.0, insert-Keyed p m h.1)
]

pub remove-Keyed : (id : RowId) (m : Map RowId Pair) → Keyed m → Keyed (remove id m)
remove-Keyed id [] h = tt
remove-Keyed id ((k, q) ∷ m) h = elim (Bool-cases (k == id)) [
  | inl same ↦ rw same (remove-Keyed id m h.1)
  | inr other ↦ rw other (h.0, remove-Keyed id m h.1)
]

pub remove_all-Keyed : (ids : List RowId) (m : Map RowId Pair) → Keyed m → Keyed (remove_all ids m)
remove_all-Keyed [] m h = h
remove_all-Keyed (id ∷ ids) m h = remove_all-Keyed ids (remove id m) (remove-Keyed id m h)

pub remove_all-Distinct {κ} :
    {V : Type κ} (ids : List RowId) (m : Map RowId V) → Distinct m → Distinct (remove_all ids m)
remove_all-Distinct [] m h = h
remove_all-Distinct (id ∷ ids) m h = remove_all-Distinct ids (remove id m) (remove-Distinct id m h)
