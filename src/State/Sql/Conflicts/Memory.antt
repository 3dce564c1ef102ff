-- ===== src/State/Sql/Conflicts/Memory.antt =====
-- The conflicts table against the conflicts of `InMemoryStore`, which stands in for it in the tests
-- of the engine.
use onesync.Prelude.{
  ◌≡◌, refl, sym, ap, ◌∙◌, ◌⊎◌, inl, inr, Bool, true, false, ◌&&◌, not, Option, none, some, List,
  [], ◌∷◌, ◌++◌, arith,
}
use onesync.Prelude.Tests.{leb, Bool-cases, Option-cases, is_some}
use onesync.Prelude.Equality.{◌==◌, nat_eq, list_eq}
use onesync.Prelude.Lists.{any, find}
use mathlib.Core.Path.{subst}
use onesync.Prelude.Map as Map
use onesync.Prelude.Sorting.{text_leb}
use onesync.Prelude.Text.{Text, codes}
use onesync.Prelude.Outcome.{Outcome, ok, err, Action}
use onesync.Protocol.Enums.{ConflictResolution}
use onesync.Protocol.FileSide.{Timestamp}
use onesync.Protocol.Entities.{RowId, Conflict}
use onesync.Engine.Ports.{StateError}
use onesync.State.Memory.{InMemoryStore, conflict_insert, conflict_resolve, resolved}
use onesync.State.Memory.Reads.{conflict_get, conflicts_unresolved}
use onesync.State.Sql.{Columns, id_text}
use onesync.State.Sql.Tables.{Database, ConflictRow, has_pair, update_where, mapped}
use onesync.State.Sql.Conflicts.{
  conflict_row_of, conflict_resolution_to_str, has_conflict, resolved_row, is_open, inserted,
  insert, resolve, get, unresolved, row_to_conflict,
}
use onesync.State.Sql.Conflicts.RoundTrip.{
  IsStorable, Stands, row_to_conflict-Stands, conflict_row_of-Stands,
}
use onesync.State.Sql.Faithful.{IsFaithful, id_text_beq}
use onesync.State.Sql.Selects.{
  Rows, Rows-append, Rows-keep, any-Rows, Rows-update_where, collect-Rows, find-Rows, Rows-sort_by,
}

pub data ConflictCall : Type 0 where
  insert_call : Conflict → ConflictCall
  resolve_call : RowId → ConflictResolution → Timestamp → Option Text → ConflictCall
  get_call unresolved_call : RowId → ConflictCall

pub data ConflictAnswer : Type 0 where
  done : ConflictAnswer
  found : Option Conflict → ConflictAnswer
  listed : List Conflict → ConflictAnswer

abbrev answered :
    {S A : Type 0}
    → (A → ConflictAnswer)
    → Outcome StateError S A
    → Outcome StateError S ConflictAnswer
answered f (ok a s) = ok (f a) s
answered f (err e s) = err e s

abbrev as_done : Unit {0} → ConflictAnswer
as_done u = done

-- A call of the store in memory.
abbrev pub in_memory : ConflictCall → Action StateError InMemoryStore ConflictAnswer
in_memory (insert_call c) s = answered as_done (conflict_insert c s)
in_memory (resolve_call id resolution at note) s =
    answered as_done (conflict_resolve id resolution at note s)
in_memory (get_call id) s = answered found (conflict_get id s)
in_memory (unresolved_call pair) s = answered listed (conflicts_unresolved pair s)

-- The same call of the tables.
abbrev pub in_tables : Columns → ConflictCall → Action StateError Database ConflictAnswer
in_tables C (insert_call c) db = answered as_done (insert C c db)
in_tables C (resolve_call id resolution at note) db =
    answered as_done (resolve C id resolution at note db)
in_tables C (get_call id) db = answered found (get C id db)
in_tables C (unresolved_call pair) db = answered listed (unresolved C pair db)

abbrev has_id : RowId → List Conflict → Bool
has_id id = any (λ (c : Conflict). c.id == id)

-- Every conflict stands under its own identifier, and no identifier has two.
abbrev pub Keyed : Map.Map RowId Conflict → Type 0
Keyed [] = Unit
Keyed ((k, c) ∷ m) = (c.id ≡ k) × Keyed m

insert-fresh :
    (c : Conflict) (m : Map.Map RowId Conflict)
    → Keyed m
    → has_id c.id (Map.values m) ≡ false
    → (Map.values (Map.insert c.id c m) ≡ Map.values m ++ (c ∷ []))
      × (Keyed (Map.insert c.id c m))
      × (Map.has_key c.id m ≡ false)
insert-fresh c [] k h = (refl, (refl, tt), refl)
insert-fresh c ((j, d) ∷ m) k h = ground (arith, insert-fresh c m k.1, k.0)

get-find :
    (id : RowId) (m : Map.Map RowId Conflict)
    → Keyed m
    → Map.get id m ≡ find (λ (c : Conflict). c.id == id) (Map.values m)
get-find id [] k = refl
get-find id ((j, d) ∷ m) k = ground (arith, get-find id m k.1, k.0)

untouched :
    (id : RowId) (f : Conflict → Conflict) (m : Map.Map RowId Conflict)
    → Keyed m
    → Map.has_key id m ≡ false
    → update_where (λ (c : Conflict). c.id == id) f (Map.values m) ≡ Map.values m
untouched id f [] k h = refl
untouched id f ((j, d) ∷ m) k h = ground (arith, untouched id f m k.1, k.0)

adjust-update_where :
    (id : RowId) (f : Conflict → Conflict) (m : Map.Map RowId Conflict)
    → Keyed m
    → Map.Distinct m
    → Map.values (Map.adjust id f m) ≡ update_where (λ (c : Conflict). c.id == id) f (Map.values m)
adjust-update_where id f [] k h = refl
adjust-update_where id f ((j, d) ∷ m) k h = elim (Bool-cases (j == id)) [
  | inl hit ↦ ground (arith, untouched id f m k.1, k.0, h.0)
  | inr miss ↦ ground (arith, adjust-update_where id f m k.1 h.1, k.0)
]

adjust-Keyed :
    (id : RowId) (f : Conflict → Conflict) (m : Map.Map RowId Conflict)
    → ((c : Conflict) → (f c).id ≡ c.id)
    → Keyed m
    → Keyed (Map.adjust id f m)
adjust-Keyed id f [] h k = tt
adjust-Keyed id f ((j, d) ∷ m) h k = elim (Bool-cases (j == id)) [
  | inl hit ↦ rw hit (h d ∙ k.0, k.1)
  | inr miss ↦ rw miss (k.0, adjust-Keyed id f m h k.1)
]

module _ (C : Columns) (Plain : Timestamp → Type 0) (F : IsFaithful C Plain) where
  -- The table's rows stand for the conflicts of the store, in their order.
  pub record Agrees (s : InMemoryStore) (db : Database) : Type 0 where
    pub conflicts : Rows (Stands C Plain F) (Map.values s.conflicts) db.conflicts
    pub keyed : Keyed s.conflicts
    pub distinct : Map.Distinct s.conflicts

  abbrev pub IsStorableCall : ConflictCall → Type 0
  IsStorableCall (insert_call c) = IsStorable C Plain F c
  IsStorableCall (resolve_call id resolution at text) = Plain at
  IsStorableCall (get_call id) = Unit
  IsStorableCall (unresolved_call pair) = Unit

  -- Why the tables refuse a call: a side does not encode, the identifier is taken, or the conflict's
  -- pair is missing.
  abbrev pub Refuses : ConflictCall → Database → Type 0
  Refuses (insert_call c) db =
      (conflict_row_of C c ≡ none)
      ⊎ (has_conflict C (id_text C (codes "cfl") c.id) db.conflicts ≡ true)
      ⊎ (has_pair (id_text C (codes "pair") c.pair_id) db ≡ false)
  Refuses (resolve_call id resolution at text) db = ⊥
  Refuses (get_call id) db = ⊥
  Refuses (unresolved_call pair) db = ⊥

  abbrev pub Alike :
      ConflictCall
      → Database
      → Outcome StateError Database ConflictAnswer
      → Outcome StateError InMemoryStore ConflictAnswer
      → Type 0
  Alike call db (ok a after) (ok b s) = (a ≡ b) × Agrees s after
  Alike call db (ok a after) (err e s) = ⊥
  Alike call db (err e after) m = (after ≡ db) × Refuses call db

  id_test :
      (id : RowId) (c : Conflict) (r : ConflictRow)
      → Stands C Plain F c r
      → (r.id == id_text C (codes "cfl") id) ≡ (c.id == id)
  id_test id c r h =
      ap (λ (t : ConflictRow). t.id == id_text C (codes "cfl") id) h.row
      ∙ id_text_beq C Plain F (codes "cfl") c.id id refl

  appended :
      (c : Conflict) (r : ConflictRow) (s : InMemoryStore) (db : Database)
      → Agrees s db
      → Stands C Plain F c r
      → has_id c.id (Map.values s.conflicts) ≡ false
      → Agrees
          (record s { conflicts = Map.insert c.id c s.conflicts })
          (record db { conflicts = db.conflicts ++ (r ∷ []) })
  appended c r s db a h fresh =
      let (put, keyed, free) = insert-fresh c s.conflicts a.keyed fresh in
      record {
        conflicts = rw put (Rows-append _ _ _ c r a.conflicts h);
        keyed = keyed;
        distinct = Map.insert-Distinct c.id c s.conflicts a.distinct;
      }

  inserted-Alike :
      (c : Conflict) (r : ConflictRow) (s : InMemoryStore) (db : Database)
      → Agrees s db
      → Stands C Plain F c r
      → conflict_row_of C c ≡ some r
      → Alike
          (insert_call c)
          db
          (answered as_done (inserted C (some r) db))
          (in_memory (insert_call c) s)
  inserted-Alike c r s db a h row =
      let same_id : r.id ≡ id_text C (codes "cfl") c.id = ap (λ (t : ConflictRow). t.id) h.row in
      let same_pair : r.pair_id ≡ id_text C (codes "pair") c.pair_id =
        ap (λ (t : ConflictRow). t.pair_id) h.row in
      elim (Bool-cases (has_conflict C r.id db.conflicts)) [
        | inl taken ↦
            rw taken
              (refl, inr (inl (subst (λ t. has_conflict C t db.conflicts ≡ true) same_id taken)))
        | inr fresh ↦ elim (Bool-cases (has_pair r.pair_id db)) [
          | inl known ↦
              rw (fresh, known)
                (
                  refl,
                  appended c r s db a h (
                      sym (
                        any-Rows (Stands C Plain F) (λ (d : Conflict). d.id == c.id)
                          (λ (t : ConflictRow). t.id == id_text C (codes "cfl") c.id) (id_test c.id)
                          (Map.values s.conflicts) db.conflicts a.conflicts)
                      ∙ subst (λ t. has_conflict C t db.conflicts ≡ false) same_id fresh),
                )
          | inr orphan ↦
              rw (fresh, orphan)
                (refl, inr (inr (subst (λ t. has_pair t db ≡ false) same_pair orphan)))
        ]
      ]

  insert-Alike :
      (c : Conflict) (s : InMemoryStore) (db : Database)
      → Agrees s db
      → IsStorable C Plain F c
      → Alike (insert_call c) db (in_tables C (insert_call c) db) (in_memory (insert_call c) s)
  unfolding insert
  insert-Alike c s db a h = elim (Option-cases (conflict_row_of C c)) [
    | inl unencoded ↦ rw unencoded (refl, inl unencoded)
    | inr (r, row) ↦
        rw row (inserted-Alike c r s db a (conflict_row_of-Stands C Plain F c r h row) row)
  ]

  resolved-Stands :
      (resolution : ConflictResolution) (at : Timestamp) (note : Option Text) (c : Conflict)
      (r : ConflictRow)
      → Plain at
      → Stands C Plain F c r
      → Stands C Plain F
          (resolved resolution at note c)
          (resolved_row C (conflict_resolution_to_str resolution) (C.to_rfc3339 at) note r)
  resolved-Stands resolution at none c r h k = record {
    storable = record {
      path = k.storable.path;
      loser_path = k.storable.loser_path;
      detected = k.storable.detected;
      resolved = h;
    };
    local = k.local;
    remote = k.remote;
    row = ap (resolved_row C (conflict_resolution_to_str resolution) (C.to_rfc3339 at) none) k.row;
  }
  resolved-Stands resolution at (some t) c r h k = record {
    storable = record {
      path = k.storable.path;
      loser_path = k.storable.loser_path;
      detected = k.storable.detected;
      resolved = h;
    };
    local = k.local;
    remote = k.remote;
    row =
        ap (resolved_row C (conflict_resolution_to_str resolution) (C.to_rfc3339 at) (some t))
          k.row;
  }

  resolve-Agrees :
      (id : RowId) (resolution : ConflictResolution) (at : Timestamp) (note : Option Text)
      (s : InMemoryStore) (db : Database)
      → Agrees s db
      → Plain at
      → Alike
          (resolve_call id resolution at note)
          db
          (in_tables C (resolve_call id resolution at note) db)
          (in_memory (resolve_call id resolution at note) s)
  unfolding resolve
  resolve-Agrees id resolution at note s db a h = (
    refl,
    record {
      conflicts =
          rw (adjust-update_where id (resolved resolution at note) s.conflicts a.keyed a.distinct) (
            Rows-update_where (Stands C Plain F) (λ (c : Conflict). c.id == id)
              (λ (r : ConflictRow). r.id == id_text C (codes "cfl") id) (id_test id)
              (resolved resolution at note)
              (resolved_row C (conflict_resolution_to_str resolution) (C.to_rfc3339 at) note)
              (λ c r k. resolved-Stands resolution at note c r h k) (Map.values s.conflicts)
              db.conflicts a.conflicts);
      keyed = adjust-Keyed id (resolved resolution at note) s.conflicts (λ c. refl) a.keyed;
      distinct = Map.adjust-Distinct id (resolved resolution at note) s.conflicts a.distinct;
    },
  )

  get-Alike :
      (id : RowId) (s : InMemoryStore) (db : Database)
      → Agrees s db
      → Alike (get_call id) db (in_tables C (get_call id) db) (in_memory (get_call id) s)
  unfolding get
  get-Alike id s db a =
      rw
        (find-Rows (Stands C Plain F) (row_to_conflict C) (row_to_conflict-Stands C Plain F)
          (λ (c : Conflict). c.id == id) (λ (r : ConflictRow). r.id == id_text C (codes "cfl") id)
          (id_test id) (Map.values s.conflicts) db.conflicts a.conflicts)
        (ap found (sym (get-find id s.conflicts a.keyed)), a)

  is_some-mapped : (t : Option Timestamp) → is_some (mapped C.to_rfc3339 t) ≡ is_some t
  is_some-mapped none = refl
  is_some-mapped (some t) = refl

  is_open-Stands :
      (pair : RowId) (c : Conflict) (r : ConflictRow)
      → Stands C Plain F c r
      → is_open C (id_text C (codes "pair") pair) r
        ≡ (c.pair_id == pair && not (is_some c.resolved_at))
  is_open-Stands pair c r h =
      ap (is_open C (id_text C (codes "pair") pair)) h.row
      ∙ rw (id_text_beq C Plain F (codes "pair") c.pair_id pair refl, is_some-mapped c.resolved_at)
          refl

  earlier-Stands :
      (c d : Conflict) (r t : ConflictRow)
      → Stands C Plain F c r
      → Stands C Plain F d t
      → text_leb r.detected_at t.detected_at ≡ leb c.detected_at d.detected_at
  earlier-Stands c d r t h k =
      ap (λ (x : ConflictRow). text_leb x.detected_at t.detected_at) h.row
      ∙ ap (λ (x : ConflictRow). text_leb (C.to_rfc3339 c.detected_at) x.detected_at) k.row
      ∙ F.later c.detected_at d.detected_at h.storable.detected k.storable.detected

  unresolved-Alike :
      (pair : RowId) (s : InMemoryStore) (db : Database)
      → Agrees s db
      → Alike
          (unresolved_call pair)
          db
          (in_tables C (unresolved_call pair) db)
          (in_memory (unresolved_call pair) s)
  unfolding unresolved
  unresolved-Alike pair s db a =
      let kept = Rows-keep (Stands C Plain F) _ _ (is_open-Stands pair) _ _ a.conflicts in
      let sorted = Rows-sort_by (Stands C Plain F) _ _ earlier-Stands _ _ kept in
      rw
        (collect-Rows (Stands C Plain F) (row_to_conflict C) (row_to_conflict-Stands C Plain F) _ _
          sorted)
        (refl, a)

  -- For a store and tables that agree on the conflicts, and a call whose instants and paths are
  -- storable: the tables answer what the store answers and agree with it afterwards, or they refuse an
  -- insertion, change nothing, and then a side does not encode, the identifier is taken or the pair is
  -- missing.
  pub in_tables-Alike :
      (call : ConflictCall) (s : InMemoryStore) (db : Database)
      → Agrees s db
      → IsStorableCall call
      → Alike call db (in_tables C call db) (in_memory call s)
  in_tables-Alike (insert_call c) s db a h = insert-Alike c s db a h
  in_tables-Alike (resolve_call id resolution at note) s db a h =
      resolve-Agrees id resolution at note s db a h
  in_tables-Alike (get_call id) s db a h = get-Alike id s db a
  in_tables-Alike (unresolved_call pair) s db a h = unresolved-Alike pair s db a
