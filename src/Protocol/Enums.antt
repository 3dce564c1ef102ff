-- ===== src/Protocol/Enums.antt =====
-- crates/onesync-protocol/src/enums.rs, with the derived equality tests the engine uses.
use onesync.Prelude.{Bool, true, false, ◌≡◌, ◌↔◌, arith}
use onesync.Prelude.Equality.{Eq}

pub data FileKind : Type 0 where
  file directory : FileKind

pub data AccountKind : Type 0 where
  personal business : AccountKind

pub data LogLevel : Type 0 where
  info debug trace : LogLevel

pub data PairStatus : Type 0 where
  initializing active paused errored removed : PairStatus

pub data FileSyncState : Type 0 where
  clean dirty pending_upload pending_download pending_conflict in_flight : FileSyncState

pub data FileOpKind : Type 0 where
  upload download local_delete remote_delete local_mkdir remote_mkdir local_rename remote_rename :
      FileOpKind

pub data FileOpStatus : Type 0 where
  enqueued in_progress backoff success failed : FileOpStatus

pub data RunTrigger : Type 0 where
  scheduled local_event remote_webhook cli_force backoff_retry : RunTrigger

pub data RunOutcome : Type 0 where
  success partial_failure aborted : RunOutcome

pub data ConflictSide : Type 0 where
  local remote : ConflictSide

pub data ConflictResolution : Type 0 where
  auto manual : ConflictResolution

pub data AuditLevel : Type 0 where
  info warn error : AuditLevel

abbrev pub kind_beq : FileKind → FileKind → Bool
kind_beq file file = true
kind_beq file directory = false
kind_beq directory file = false
kind_beq directory directory = true

pub kind_beq_iff : (a b : FileKind) → (kind_beq a b ≡ true) ↔ (a ≡ b)
kind_beq_iff file file = ground arith
kind_beq_iff file directory = ground arith
kind_beq_iff directory file = ground arith
kind_beq_iff directory directory = ground arith

instance abbrev pub kind_eq : Eq FileKind
kind_eq = record { test = kind_beq; test_iff = kind_beq_iff }

abbrev pub is_success : FileOpStatus → Bool
is_success FileOpStatus.success = true
is_success _ = false

abbrev pub is_initializing : PairStatus → Bool
is_initializing PairStatus.initializing = true
is_initializing _ = false

abbrev pub is_removed : PairStatus → Bool
is_removed PairStatus.removed = true
is_removed _ = false

abbrev pub is_clean : FileSyncState → Bool
is_clean FileSyncState.clean = true
is_clean _ = false

abbrev pub level_beq : AuditLevel → AuditLevel → Bool
level_beq AuditLevel.info AuditLevel.info = true
level_beq AuditLevel.warn AuditLevel.warn = true
level_beq AuditLevel.error AuditLevel.error = true
level_beq _ _ = false
