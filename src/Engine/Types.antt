-- ===== src/Engine/Types.antt =====
-- crates/onesync-core/src/engine/types.rs
use onesync.Prelude.{ℕ, Bool, true, false, Option, none, some}
use onesync.Protocol.Enums.{FileOpKind, ConflictSide}
use onesync.Protocol.Path.{RelPath}
use onesync.Protocol.Entities.{RowId}
use onesync.Protocol.Remote.{DeltaCursor}

pub data DecisionKind : Type 0 where
  upload download local_delete remote_delete local_mkdir remote_mkdir : DecisionKind
  local_rename remote_rename : RelPath → DecisionKind
  conflict_detected : DecisionKind
  conflict : ConflictSide → RelPath → DecisionKind
  no_op : DecisionKind

pub record Decision : Type 0 where
  pub pair_id : RowId
  pub relative_path : RelPath
  pub kind : DecisionKind

-- `DecisionKind::to_file_op_kind`.
unfoldable pub to_file_op_kind : DecisionKind → Option FileOpKind
to_file_op_kind DecisionKind.upload = some FileOpKind.upload
to_file_op_kind DecisionKind.download = some FileOpKind.download
to_file_op_kind DecisionKind.local_delete = some FileOpKind.local_delete
to_file_op_kind DecisionKind.remote_delete = some FileOpKind.remote_delete
to_file_op_kind DecisionKind.local_mkdir = some FileOpKind.local_mkdir
to_file_op_kind DecisionKind.remote_mkdir = some FileOpKind.remote_mkdir
to_file_op_kind (DecisionKind.local_rename new_path) = some FileOpKind.local_rename
to_file_op_kind (DecisionKind.remote_rename new_path) = some FileOpKind.remote_rename
to_file_op_kind conflict_detected = none
to_file_op_kind (conflict winner loser_path) = none
to_file_op_kind no_op = none

-- `DecisionKind::is_conflict`.
unfoldable pub is_conflict : DecisionKind → Bool
is_conflict conflict_detected = true
is_conflict (conflict winner loser_path) = true
is_conflict _ = false

pub record CycleSummary : Type 0 where
  pub remote_items_seen : ℕ
  pub local_events_seen : ℕ
  pub ops_applied : ℕ
  pub conflicts_detected : ℕ
  pub delta_token : Option DeltaCursor
