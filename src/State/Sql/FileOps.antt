-- ===== src/State/Sql/FileOps.antt =====
-- crates/onesync-state/src/queries/file_ops.rs.
pub mod RoundTrip
use onesync.Prelude.{ℕ, ◌^◌, Bool, true, false, ◌&&◌, ◌||◌, Option, none, some, List, [], ◌∷◌, ◌++◌}
use onesync.Prelude.Tests.{if◌then◌else◌, ltb}
use onesync.Prelude.Equality.{◌==◌, nat_eq, list_eq}
use onesync.Prelude.Lists.{any, keep}
use onesync.Prelude.Sorting.{sort_by, text_leb}
use onesync.Prelude.Text.{Text, codes}
use onesync.Prelude.Outcome.{Outcome, ok, err, Action}
use onesync.Protocol.Enums.{
  FileOpKind, upload, download, local_delete, remote_delete, local_mkdir, remote_mkdir,
  local_rename, remote_rename, FileOpStatus, enqueued, in_progress, backoff, failed,
}
use onesync.Protocol.FileSide.{Timestamp}
use onesync.Protocol.Entities.{RowId, FileOp, JsonMap, ErrorEnvelope}
use onesync.Engine.Ports.{StateError}
use onesync.State.Sql.{
  Columns, SqlCause, unique_failed, foreign_key_failed, encode_failed, Decoded, good, bad,
  invalid_column_type, ◌>>=◌, transposed, collect, id_text, read_id, read_rel, parse_timestamp,
  read_json,
}
use onesync.State.Sql.Tables.{
  Database, OpRow, mapped, coalesce, has_pair, has_run, update_where, sqlite, answer,
}

unfoldable pub op_kind_to_str : FileOpKind → Text
op_kind_to_str upload = codes "upload"
op_kind_to_str download = codes "download"
op_kind_to_str local_delete = codes "local_delete"
op_kind_to_str remote_delete = codes "remote_delete"
op_kind_to_str local_mkdir = codes "local_mkdir"
op_kind_to_str remote_mkdir = codes "remote_mkdir"
op_kind_to_str local_rename = codes "local_rename"
op_kind_to_str remote_rename = codes "remote_rename"

unfoldable pub op_kind_from_str : Text → Decoded FileOpKind
op_kind_from_str s =
    if s == codes "upload"
    then good upload
    else if s == codes "download"
    then good download
    else if s == codes "local_delete"
    then good local_delete
    else if s == codes "remote_delete"
    then good remote_delete
    else if s == codes "local_mkdir"
    then good local_mkdir
    else if s == codes "remote_mkdir"
    then good remote_mkdir
    else if s == codes "local_rename"
    then good local_rename
    else if s == codes "remote_rename"
    then good remote_rename
    else bad (invalid_column_type 4 s)

unfoldable pub op_status_to_str : FileOpStatus → Text
op_status_to_str enqueued = codes "enqueued"
op_status_to_str in_progress = codes "in_progress"
op_status_to_str backoff = codes "backoff"
op_status_to_str FileOpStatus.success = codes "success"
op_status_to_str failed = codes "failed"

unfoldable pub op_status_from_str : Text → Decoded FileOpStatus
op_status_from_str s =
    if s == codes "enqueued"
    then good enqueued
    else if s == codes "in_progress"
    then good in_progress
    else if s == codes "backoff"
    then good backoff
    else if s == codes "success"
    then good FileOpStatus.success
    else if s == codes "failed"
    then good failed
    else bad (invalid_column_type 5 s)

-- `u32::try_from(…).unwrap_or(0)`.
abbrev pub to_u32 : ℕ → ℕ
to_u32 n = if ltb n (2 ^ 32) then n else 0

-- The two timestamps that a change of status writes.
abbrev pub status_times : FileOpStatus → Text → Option Text × Option Text
status_times in_progress now = (some now, none)
status_times FileOpStatus.success now = (none, some now)
status_times failed now = (none, some now)
status_times enqueued now = (none, none)
status_times backoff now = (none, none)

abbrev pub or_empty : Option JsonMap → JsonMap
or_empty none = []
or_empty (some m) = m

module _ (C : Columns) where
  -- A value to encode, if there is one; the outer `none` is a failure.
  abbrev pub encode_last_error : Option ErrorEnvelope → Option (Option Text)
  encode_last_error none = some none
  encode_last_error (some e) = mapped some (C.error_to_json e)

  abbrev pub encode_metadata : JsonMap → Option (Option Text)
  encode_metadata [] = some none
  encode_metadata (kv ∷ m) = mapped some (C.map_to_json (kv ∷ m))

  abbrev pub op_row : FileOp → Option Text → Option Text → OpRow
  op_row op last_error metadata = record {
    id = id_text C (codes "op") op.id;
    run_id = id_text C (codes "run") op.run_id;
    pair_id = id_text C (codes "pair") op.pair_id;
    relative_path = op.relative_path.as_str;
    kind = op_kind_to_str op.kind;
    status = op_status_to_str op.status;
    attempts = op.attempts;
    last_error_json = last_error;
    metadata_json = metadata;
    enqueued_at = C.to_rfc3339 op.enqueued_at;
    started_at = mapped C.to_rfc3339 op.started_at;
    finished_at = mapped C.to_rfc3339 op.finished_at;
  }

  -- The values of the `INSERT`.
  unfoldable pub op_row_of : FileOp → Option OpRow
  op_row_of op = elim (encode_last_error op.last_error) [
    | none ↦ none
    | some last_error ↦ mapped (op_row op last_error) (encode_metadata op.metadata)
  ]

  abbrev has_op : Text → Database → Bool
  has_op id db = any (λ (r : OpRow). r.id == id) db.file_ops

  abbrev pub inserted : Option OpRow → Action StateError Database (Unit {0})
  inserted none db = err (sqlite C encode_failed) db
  inserted (some row) db =
      if has_op row.id db
      then err (sqlite C unique_failed) db
      else if has_run row.run_id db && has_pair row.pair_id db
      then ok tt (record db { file_ops = db.file_ops ++ (row ∷ []) })
      else err (sqlite C foreign_key_failed) db

  unfoldable pub insert : FileOp → Action StateError Database (Unit {0})
  insert op = inserted (op_row_of op)

  abbrev pub with_status : FileOpStatus → ℕ → Text → OpRow → OpRow
  with_status status attempts now row =
      let (started, finished) = status_times status now in
      record row {
        status = op_status_to_str status;
        attempts = attempts;
        started_at = coalesce row.started_at started;
        finished_at = finished;
      }

  unfoldable pub update_status :
      RowId → FileOpStatus → ℕ → Timestamp → Action StateError Database (Unit {0})
  update_status id status attempts now db = ok tt (record db {
    file_ops =
        update_where (λ (r : OpRow). r.id == id_text C (codes "op") id)
          (with_status status attempts (C.to_rfc3339 now)) db.file_ops;
  })

  unfoldable pub row_to_op : OpRow → Decoded FileOp
  row_to_op row = read_id C (codes "op") row.id >>= λ id.
      read_id C (codes "run") row.run_id >>= λ run_id.
      read_id C (codes "pair") row.pair_id >>= λ pair_id. read_rel C row.relative_path >>= λ path.
      op_kind_from_str row.kind >>= λ kind. op_status_from_str row.status >>= λ status.
      transposed (read_json C C.error_from_json) row.last_error_json >>= λ last_error.
      transposed (read_json C C.map_from_json) row.metadata_json >>= λ metadata.
      parse_timestamp C row.enqueued_at >>= λ enqueued_at.
      transposed (parse_timestamp C) row.started_at >>= λ started_at.
      transposed (parse_timestamp C) row.finished_at >>= λ finished_at. good (record {
        id = id;
        run_id = run_id;
        pair_id = pair_id;
        relative_path = path;
        kind = kind;
        status = status;
        attempts = to_u32 row.attempts;
        last_error = last_error;
        metadata = or_empty metadata;
        enqueued_at = enqueued_at;
        started_at = started_at;
        finished_at = finished_at;
      })

  abbrev in_flight_status : Text → Bool
  in_flight_status s = s == codes "enqueued" || (s == codes "in_progress" || s == codes "backoff")

  abbrev pub is_in_flight : Text → OpRow → Bool
  is_in_flight pair row = row.pair_id == pair && in_flight_status row.status

  -- Rows with the same text in `enqueued_at` keep the order of the table.
  unfoldable pub in_flight : RowId → Action StateError Database (List FileOp)
  in_flight pair db =
      answer C
        (collect row_to_op (
          sort_by (λ (a b : OpRow). text_leb a.enqueued_at b.enqueued_at)
            (keep (is_in_flight (id_text C (codes "pair") pair)) db.file_ops)))
        db
