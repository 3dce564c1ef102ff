-- ===== src/Engine/Cycle/Resolve/Parking.antt =====
-- A recorded conflict keeps its path from being decided again, as long as the store keeps its rows.
use onesync.Prelude.{◌≡◌, refl, Option, none, some, List, ◌∷◌, arith, sym}
use onesync.Prelude.Text.{Text}
use onesync.Prelude.Outcome.{Outcome, ok, err, and_then}
use onesync.Protocol.Enums.{ConflictSide}
use onesync.Protocol.FileSide.{FileSide, Timestamp}
use onesync.Protocol.Path.{RelPath, Parsed, valid, invalid}
use onesync.Protocol.Remote.{RemoteItem}
use onesync.Protocol.Entities.{RowId, FileEntry, FileOp, Conflict}
use onesync.Engine.Types.{Decision, no_op}
use onesync.Engine.Reconcile.{reconcile_kind}
use onesync.Engine.Conflict.{ConflictOutcome}
use onesync.Engine.Ports.{Ports, World, EngineError, StateError, state_result}
use onesync.Engine.Cycle.Context.{CycleCtx}
use onesync.Engine.Cycle.Resolve.{
  download_op, winner_ops, push_remote_winner_conflict_ops, or_invalid, announce, parked, park,
  record_conflict, materialise, both_sides, record_content_conflict,
}

-- What the engine relies on: a row that was written is read back.
abbrev pub ReadsBack : Ports → Type 0
ReadsBack P =
    (entry : FileEntry) (s s' : P.Store)
    → P.file_entry_upsert entry s ≡ ok tt s'
    → P.file_entry_get entry.pair_id entry.relative_path s' ≡ ok (some entry) s'

module _ (P : Ports) (ctx : CycleCtx) (run_id : RowId) where
  -- The store holds a row for the path that no live remote item makes the engine act on.
  abbrev pub IsParked : RelPath → P.Store → Type 0
  IsParked path s =
      (entry : FileEntry) × (P.file_entry_get ctx.pair_id path s ≡ ok (some entry) s)
      × ((item : RemoteItem) → reconcile_kind (some entry) (some item) ≡ no_op)

  abbrev pub LeavesParked : RelPath → Outcome EngineError (World P) (List FileOp) → Type 0
  LeavesParked path (ok ops w) = IsParked path w.0
  LeavesParked path (err x w) = Unit

  parked-no_op :
      (entry : FileEntry) (ts : Timestamp) (item : RemoteItem)
      → reconcile_kind (some (parked P ctx run_id entry ts)) (some item) ≡ no_op
  unfolding reconcile_kind
  parked-no_op entry ts item = refl

  download-LeavesParked :
      (path : RelPath) (c : Conflict) (ts : Timestamp) (rename : FileOp) (item_id : Option Text)
      (w : World P)
      → IsParked path w.0
      → LeavesParked path
          (and_then (download_op P ctx run_id c ts item_id w) (λ ops. λ v. ok (rename ∷ ops) v))
  download-LeavesParked path c ts rename none w h = h
  download-LeavesParked path c ts rename (some item_id) w h = h

  winner-LeavesParked :
      (path : RelPath) (c : Conflict) (side : ConflictSide) (w : World P)
      → IsParked path w.0
      → LeavesParked path (winner_ops P ctx run_id c side w)
  unfolding push_remote_winner_conflict_ops
  winner-LeavesParked path c ConflictSide.local w h = h
  winner-LeavesParked path c ConflictSide.remote w h =
      download-LeavesParked path c _ _ c.remote_side.remote_item_id _ h

  park_step :
      (d : Decision) (entry : FileEntry) (c : Conflict) (ts : Timestamp) (e : P.Env)
      (o : Outcome StateError P.Store (Unit {0}))
      → ((s' : P.Store) → o ≡ ok tt s' → IsParked d.relative_path s')
      → LeavesParked d.relative_path
          (and_then (state_result P o e) (λ _. announce P ctx run_id d c ts))
  park_step d entry c ts e (ok u s) h = winner-LeavesParked d.relative_path c c.winner _ (h s refl)
  park_step d entry c ts e (err x s) h = tt

  module _ (reads_back : ReadsBack P) (d : Decision) (entry : FileEntry)
      (own_pair : entry.pair_id ≡ ctx.pair_id)
      (own_path : entry.relative_path ≡ d.relative_path) where
    park-LeavesParked :
        (c : Conflict) (ts : Timestamp) (w : World P)
        → LeavesParked d.relative_path (park P ctx run_id d entry c ts w)
    park-LeavesParked c ts w =
        park_step d entry c ts w.1 (P.file_entry_upsert (parked P ctx run_id entry ts) w.0) (λ s' h.
          (
            parked P ctx run_id entry ts,
            rw (sym own_pair, sym own_path) (reads_back (parked P ctx run_id entry ts) w.0 s' h),
            parked-no_op entry ts,
          ))

    insert_step :
        (c : Conflict) (ts : Timestamp) (e : P.Env) (o : Outcome StateError P.Store (Unit {0}))
        → LeavesParked d.relative_path
            (and_then (state_result P o e) (λ _. park P ctx run_id d entry c ts))
    insert_step c ts e (ok u s) = park-LeavesParked c ts (s, e)
    insert_step c ts e (err x s) = tt

    record_step :
        (l r : FileSide) (ts : Timestamp) (outcome : Parsed ConflictOutcome) (w : World P)
        → LeavesParked d.relative_path (
            and_then
              (or_invalid P ctx run_id outcome w)
              (record_conflict P ctx run_id d entry l r ts))
    record_step l r ts (valid outcome) w = insert_step _ ts _ (P.conflict_insert _ w.0)
    record_step l r ts (invalid x) w = tt

    sides_step :
        (l r : FileSide) (ls rs : Option FileSide) (ts : Timestamp) (w : World P)
        → ls ≡ some l
        → rs ≡ some r
        → LeavesParked d.relative_path (both_sides P ctx run_id d entry ls rs ts w)
    unfolding materialise
    sides_step l r none rs ts w hl hr = absurd (ground arith)
    sides_step l r (some l') none ts w hl hr = absurd (ground arith)
    sides_step l r (some l') (some r') ts w hl hr = record_step l' r' ts _ w

    -- Recording a conflict for a path whose row belongs to the pair and has both sides, in a store
    -- that gives back the row written last: if it succeeds, the store then holds a row for the path
    -- for which every live remote item is decided as nothing to do.
    pub record_content_conflict-LeavesParked :
        (l r : FileSide)
        → entry.local ≡ some l
        → entry.remote ≡ some r
        → (w : World P) → P.file_entry_get ctx.pair_id d.relative_path w.0 ≡ ok (some entry) w.0
        → LeavesParked d.relative_path (record_content_conflict P ctx run_id d w)
    unfolding record_content_conflict
    record_content_conflict-LeavesParked l r has_local has_remote w h =
        rw h (sides_step l r entry.local entry.remote _ _ has_local has_remote)
