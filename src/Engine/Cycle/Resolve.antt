-- ===== src/Engine/Cycle/Resolve.antt =====
-- `phase_resolve_conflicts` and its helpers, and `build_remote_rename_ops`, of cycle.rs.
pub mod Kept
pub mod Parking
use onesync.Prelude.{ℕ, Bool, true, Option, none, some, List, [], ◌∷◌, ◌++◌}
use onesync.Prelude.Tests.{if◌then◌else◌}
use onesync.Prelude.Text.{Text, codes}
use onesync.Prelude.Outcome.{return, fail, ◌>>=◌, ◌>>◌}
use onesync.Protocol.Enums.{
  ConflictSide, FileOpKind, download, local_rename, remote_rename, pending_conflict, enqueued,
}
use onesync.Protocol.FileSide.{FileSide, Timestamp}
use onesync.Protocol.Path.{RelPath, valid, invalid, Parsed}
use onesync.Protocol.Entities.{RowId, FileEntry, FileOp, Conflict, JsonMap, string, bool, insert}
use onesync.Engine.Types.{Decision, is_conflict}
use onesync.Engine.Conflict.{ConflictOutcome, pick_winner_and_loser}
use onesync.Engine.Observability.{warning}
use onesync.Engine.Ports.{Ports, M, loser_path_invalid, state, tell}
use onesync.Engine.Cycle.Context.{CycleCtx, now, new_id, entry_of, upsert}
use onesync.Engine.Cycle.Collisions.{CollisionRename, payload_of}

-- An operation built outside the planner.
unfoldable pub new_op : RowId → RowId → RowId → RelPath → FileOpKind → JsonMap → Timestamp → FileOp
new_op id run_id pair_id path kind metadata ts = record {
  id = id;
  run_id = run_id;
  pair_id = pair_id;
  relative_path = path;
  kind = kind;
  status = enqueued;
  attempts = 0;
  last_error = none;
  metadata = metadata;
  enqueued_at = ts;
  started_at = none;
  finished_at = none;
}

abbrev pub side_text : ConflictSide → Text
side_text ConflictSide.local = codes "local"
side_text ConflictSide.remote = codes "remote"

module _ (P : Ports) (ctx : CycleCtx) (run_id : RowId) where
  abbrev pub download_op : Conflict → Timestamp → Option Text → M P (List FileOp)
  download_op c ts none = return []
  download_op c ts (some item_id) = do
    id ← new_id P
    return (
        new_op id run_id ctx.pair_id c.relative_path download
          (insert "remote_item_id" (string item_id) []) ts
        ∷ [])

  -- The loser's rename on the local side, then the download of the winner if its item is known.
  unfoldable pub push_remote_winner_conflict_ops : Conflict → M P (List FileOp)
  unfolding new_op
  push_remote_winner_conflict_ops c = do
    ts ← now P
    id ← new_id P
    let rename =
        new_op id run_id ctx.pair_id c.relative_path local_rename
          (insert "from_conflict" (bool true)
            (insert "new_path" (string c.loser_relative_path.as_str) []))
          ts
    downloads ← download_op c ts c.remote_side.remote_item_id
    return (rename ∷ downloads)

  abbrev pub winner_ops : Conflict → ConflictSide → M P (List FileOp)
  winner_ops c ConflictSide.local = return []
  winner_ops c ConflictSide.remote = push_remote_winner_conflict_ops c

  abbrev pub or_invalid : Parsed ConflictOutcome → M P ConflictOutcome
  or_invalid (valid outcome) = return outcome
  or_invalid (invalid e) = fail (loser_path_invalid e)

  -- The audit event, then the operations of the winner.
  abbrev pub announce : Decision → Conflict → Timestamp → M P (List FileOp)
  announce d conflict ts = do
    event_id ← new_id P
    tell P (
        warning event_id ts "conflict.detected" ctx.pair_id (
          payload_of (
            ("loser_path", conflict.loser_relative_path.as_str)
            ∷ (("winner", side_text conflict.winner) ∷ (("path", d.relative_path.as_str) ∷ [])))))
    winner_ops conflict conflict.winner

  -- The row that keeps the path from being decided again.
  abbrev pub parked : FileEntry → Timestamp → FileEntry
  parked entry ts = record entry { sync_state = pending_conflict; updated_at = ts }

  abbrev pub park : Decision → FileEntry → Conflict → Timestamp → M P (List FileOp)
  park d entry conflict ts = upsert P (parked entry ts) >>= λ _. announce d conflict ts

  abbrev pub record_conflict :
      Decision → FileEntry → FileSide → FileSide → Timestamp → ConflictOutcome → M P (List FileOp)
  record_conflict d entry local_side remote_side ts outcome = do
    id ← new_id P
    let conflict : Conflict = record {
      id = id;
      pair_id = ctx.pair_id;
      relative_path = d.relative_path;
      winner = outcome.winning_side;
      loser_relative_path = outcome.loser_path;
      local_side = local_side;
      remote_side = remote_side;
      detected_at = ts;
      resolved_at = none;
      resolution = none;
      note = none;
    }
    state P (P.conflict_insert conflict) >>= λ _. park d entry conflict ts

  -- The row has both sides: insert the conflict, park the row, audit, and build the operations.
  unfoldable pub materialise :
      Decision → FileEntry → FileSide → FileSide → Timestamp → M P (List FileOp)
  unfolding push_remote_winner_conflict_ops
  materialise d entry local_side remote_side ts =
      or_invalid (
        pick_winner_and_loser P.nfc P.format_time local_side.mtime remote_side.mtime d.relative_path
          ctx.host_name ts 0)
      >>= record_conflict d entry local_side remote_side ts

  abbrev pub both_sides :
      Decision → FileEntry → Option FileSide → Option FileSide → Timestamp → M P (List FileOp)
  both_sides d entry (some l) (some r) ts = materialise d entry l r ts
  both_sides d entry _ _ ts = return []

  abbrev pub conflict_of : Decision → Timestamp → Option FileEntry → M P (List FileOp)
  conflict_of d ts none = return []
  conflict_of d ts (some entry) = both_sides d entry entry.local entry.remote ts

  unfoldable pub record_content_conflict : Decision → M P (List FileOp)
  unfolding materialise
  record_content_conflict d = do
    ts ← now P
    entry ← entry_of P ctx d.relative_path
    conflict_of d ts entry

  -- The loop removes the conflicts in order and keeps the rest: what is left, and the operations.
  unfoldable pub phase_resolve_conflicts : List Decision → M P (List Decision × List FileOp)
  phase_resolve_conflicts [] = return ([], [])
  phase_resolve_conflicts (d ∷ ds) =
      if is_conflict d.kind
      then (do
        ops ← record_content_conflict d
        rest ← phase_resolve_conflicts ds
        return (rest.0, ops ++ rest.1))
      else (do rest ← phase_resolve_conflicts ds; return (d ∷ rest.0, rest.1))

  unfoldable pub build_remote_rename_ops : Timestamp → List CollisionRename → M P (List FileOp)
  unfolding new_op
  build_remote_rename_ops ts [] = return []
  build_remote_rename_ops ts (r ∷ rs) = do
    id ← new_id P
    ops ← build_remote_rename_ops ts rs
    return (
        new_op id run_id ctx.pair_id r.path remote_rename
          (insert "from_conflict" (bool true)
            (insert "new_name" (string r.new_leaf) (insert "remote_item_id" (string r.item_id) [])))
          ts
        ∷ ops)
