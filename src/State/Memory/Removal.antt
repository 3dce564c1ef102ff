-- ===== src/State/Memory/Removal.antt =====
-- The cascade of `account_remove`, as lookups see it.
use onesync.Prelude.{◌≡◌, refl, Bool, false, not, inl, inr, none, List, [], ◌∷◌, arith}
use onesync.Prelude.Tests.{if◌then◌else◌, is_some, Bool-cases, Option-cases}
use onesync.Prelude.Equality.{◌==◌, nat_eq, eq_of_beq}
use onesync.Prelude.Map.{Map, Distinct, get, values, remove, passing, has_key, get-remove}
use onesync.Protocol.Entities.{RowId, Pair}
use onesync.State.Memory.{remove_all, contains, pair_ids_of}
use onesync.State.Memory.Invariant.{Keyed}

abbrev pub owned_by : RowId → Pair → Bool
owned_by account p = p.account_id == account

pub get-remove_all {κ} :
    {V : Type κ} (j : RowId) (ids : List RowId) (m : Map RowId V)
    → get j (remove_all ids m) ≡ (if contains j ids then none else get j m)
get-remove_all j [] m = refl
get-remove_all j (id ∷ ids) m =
    ground (arith, get-remove_all j ids (remove id m), get-remove j id m)

-- A pair that no row names is not among the account's.
contains-absent :
    (account j : RowId) (m : Map RowId Pair)
    → Keyed m
    → has_key j m ≡ false
    → contains j (pair_ids_of account (values m)) ≡ false
contains-absent account j [] k h = refl
contains-absent account j ((id, p) ∷ m) k h = ground (arith, contains-absent account j m k.1, k.0)

-- The identifiers collected are those whose row belongs to the account.
pub contains-pair_ids_of :
    (account j : RowId) (m : Map RowId Pair)
    → Distinct m
    → Keyed m
    → contains j (pair_ids_of account (values m)) ≡ is_some (passing (owned_by account) (get j m))
contains-pair_ids_of account j [] d k = refl
contains-pair_ids_of account j ((id, p) ∷ m) d k = elim (Bool-cases (id == j)) [
  | inl same ↦
      ground (arith, contains-absent account j m k.1, k.0, d.0, eq_of_beq {x = id} {y = j} same)
  | inr other ↦ ground (arith, contains-pair_ids_of account j m d.1 k.1, k.0)
]

pub get-remove_owned :
    (account j : RowId) (m : Map RowId Pair)
    → Distinct m
    → Keyed m
    → get j (remove_all (pair_ids_of account (values m)) m)
      ≡ passing (λ p. not (owned_by account p)) (get j m)
get-remove_owned account j m d k = elim (Option-cases (get j m)) [
  | inl e ↦ ground (
    arith,
    get-remove_all j (pair_ids_of account (values m)) m,
    contains-pair_ids_of account j m d k,
    e,
  )
  | inr (p, e) ↦ ground (
    arith,
    get-remove_all j (pair_ids_of account (values m)) m,
    contains-pair_ids_of account j m d k,
    e,
  )
]
