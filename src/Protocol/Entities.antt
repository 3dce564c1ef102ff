-- ===== src/Protocol/Entities.antt =====
-- The rows of the state store: file_entry.rs, file_op.rs, conflict.rs, pair.rs, sync_run.rs,
-- audit.rs and errors.rs of crates/onesync-protocol/src. `serde_json::Map` is a list of key and
-- value, newest last, that `insert` keeps free of repeated keys.
use onesync.Prelude.{ℕ, String, Bool, Option, none, some, List, [], ◌∷◌}
use onesync.Prelude.Tests.{if◌then◌else◌}
use onesync.Prelude.Equality.{◌==◌, string_eq}
use onesync.Prelude.Text.{Text}
use onesync.Protocol.Enums.{
  FileKind, FileSyncState, FileOpKind, FileOpStatus, ConflictSide, ConflictResolution, PairStatus,
  RunTrigger, RunOutcome, AuditLevel,
}
use onesync.Protocol.FileSide.{FileSide, Timestamp, DriveItemId}
use onesync.Protocol.Path.{RelPath, AbsPath}
use onesync.Protocol.Remote.{DeltaCursor}

abbrev pub RowId : Type 0
RowId = ℕ

-- The JSON values that the engine writes.
pub data Json : Type 0 where
  null : Json
  bool : Bool → Json
  number : ℕ → Json
  string : Text → Json

abbrev pub JsonMap : Type 0
JsonMap = List (String × Json)

abbrev pub get : String → JsonMap → Option Json
get k [] = none
get k ((j, v) ∷ m) = if j == k then some v else get k m

abbrev pub insert : String → Json → JsonMap → JsonMap
insert k v [] = (k, v) ∷ []
insert k v ((j, w) ∷ m) = if j == k then (k, v) ∷ m else (j, w) ∷ insert k v m

-- `Value::as_str` and `Value::as_bool` behind `get`.
abbrev pub get_str : String → JsonMap → Option Text
get_str k m = elim (get k m) [ some (string t) ↦ some t | _ ↦ none ]

abbrev pub get_bool : String → JsonMap → Option Bool
get_bool k m = elim (get k m) [ some (bool b) ↦ some b | _ ↦ none ]

pub record ErrorEnvelope : Type 0 where
  pub kind : Text
  pub message : Text
  pub retryable : Bool
  pub request_id : Option Text
  pub context : JsonMap

pub record FileEntry : Type 0 where
  pub pair_id : RowId
  pub relative_path : RelPath
  pub kind : FileKind
  pub sync_state : FileSyncState
  pub local : Option FileSide
  pub remote : Option FileSide
  pub synced : Option FileSide
  pub pending_op_id : Option RowId
  pub updated_at : Timestamp

pub record FileOp : Type 0 where
  pub id : RowId
  pub run_id : RowId
  pub pair_id : RowId
  pub relative_path : RelPath
  pub kind : FileOpKind
  pub status : FileOpStatus
  pub attempts : ℕ
  pub last_error : Option ErrorEnvelope
  pub metadata : JsonMap
  pub enqueued_at : Timestamp
  pub started_at : Option Timestamp
  pub finished_at : Option Timestamp

pub record Conflict : Type 0 where
  pub id : RowId
  pub pair_id : RowId
  pub relative_path : RelPath
  pub winner : ConflictSide
  pub loser_relative_path : RelPath
  pub local_side : FileSide
  pub remote_side : FileSide
  pub detected_at : Timestamp
  pub resolved_at : Option Timestamp
  pub resolution : Option ConflictResolution
  pub note : Option Text

pub record Pair : Type 0 where
  pub id : RowId
  pub account_id : RowId
  pub local_path : AbsPath
  pub remote_item_id : DriveItemId
  pub remote_path : Text
  pub display_name : Text
  pub status : PairStatus
  pub paused : Bool
  pub delta_token : Option DeltaCursor
  pub errored_reason : Option Text
  pub created_at : Timestamp
  pub updated_at : Timestamp
  pub last_sync_at : Option Timestamp
  pub conflict_count : ℕ
  pub webhook_enabled : Bool

pub record SyncRun : Type 0 where
  pub id : RowId
  pub pair_id : RowId
  pub trigger : RunTrigger
  pub started_at : Timestamp
  pub finished_at : Option Timestamp
  pub local_ops : ℕ
  pub remote_ops : ℕ
  pub bytes_uploaded : ℕ
  pub bytes_downloaded : ℕ
  pub outcome : Option RunOutcome
  pub outcome_detail : Option (ℕ × ℕ)

pub record AuditEvent : Type 0 where
  pub id : RowId
  pub ts : Timestamp
  pub level : AuditLevel
  pub kind : String
  pub pair_id : Option RowId
  pub payload : JsonMap
