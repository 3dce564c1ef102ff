-- ===== src/Engine/Ports.antt =====
-- crates/onesync-core/src/ports: what the engine asks of its surroundings. The state store has a
-- state of its own; the clock, the identifiers, the audit log, the disk, the drive and the random
-- jitter share another. An error value stands for the message the source formats from it.
use onesync.Prelude.{ℕ, ◌⊎◌, inl, inr, Option, List}
use onesync.Prelude.Text.{Text}
use onesync.Prelude.Outcome.{Outcome, ok, err, Action}
use onesync.Protocol.Enums.{FileOpStatus}
use onesync.Protocol.FileSide.{FileSide, Timestamp}
use onesync.Protocol.Path.{RelPath, AbsPath, PathParseError}
use onesync.Protocol.Remote.{RemoteItem, DeltaPage, DeltaCursor}
use onesync.Engine.Retry.{Fractions}
use onesync.Protocol.Entities.{RowId, FileEntry, FileOp, Conflict, Pair, SyncRun, AuditEvent}

pub data StateError : Type 0 where
  io schema not_found constraint : Text → StateError

pub data LocalFsError : Type 0 where
  not_found permission_denied not_mounted already_running cross_volume_rename invalid_path io :
      Text → LocalFsError
  disk_full quota_exceeded raced : LocalFsError

pub data GraphError : Type 0 where
  unauthorized re_auth_required forbidden not_found name_conflict resync_required : GraphError
  stale : Text → GraphError
  invalid_range : GraphError
  throttled : ℕ → GraphError
  transient network decode : Text → GraphError
  hash_mismatch too_large : GraphError

-- The causes from which the engine formats the text of `EngineError::Port`.
pub data EngineError : Type 0 where
  state_port : StateError → EngineError
  local_port : LocalFsError → EngineError
  remote_port : GraphError → EngineError
  loser_path_invalid : PathParseError → EngineError
  rename_target_invalid : Text → EngineError
  cannot_join : RelPath → EngineError
  shutdown : EngineError

-- A path of the scan; `none` is one that is not UTF-8.
pub record LocalScan : Type 0 where
  pub entries : List (Option Text × FileSide)
  pub symlinks_skipped : List (Option Text)

pub record Ports : Type 1 where
  pub Store : Type 0
  pub Env : Type 0
  pub Jitter : Type 0
  -- StateStore
  pub pair_get : RowId → Action StateError Store (Option Pair)
  pub pair_upsert : Pair → Action StateError Store (Unit {0})
  pub file_entry_get : RowId → RelPath → Action StateError Store (Option FileEntry)
  pub file_entry_get_ci : RowId → RelPath → Action StateError Store (Option FileEntry)
  pub file_entry_upsert : FileEntry → Action StateError Store (Unit {0})
  pub run_record : SyncRun → Action StateError Store (Unit {0})
  pub op_insert : FileOp → Action StateError Store (Unit {0})
  pub op_update_status : RowId → FileOpStatus → ℕ → Action StateError Store (Unit {0})
  pub conflict_insert : Conflict → Action StateError Store (Unit {0})
  -- Clock, IdGenerator, AuditSink; waiting and randomness
  pub now : Env → Timestamp × Env
  pub new_id : Env → RowId × Env
  pub emit : AuditEvent → Env → Env
  pub sleep_ms : ℕ → Env → Env
  pub random_jitter : ℕ → Env → Jitter × Env
  -- LocalFs
  pub scan : AbsPath → Action LocalFsError Env LocalScan
  pub read : AbsPath → Action LocalFsError Env (List ℕ)
  pub write_atomic : AbsPath → List ℕ → Action LocalFsError Env FileSide
  pub rename : AbsPath → AbsPath → Action LocalFsError Env (Unit {0})
  pub delete : AbsPath → Action LocalFsError Env (Unit {0})
  pub mkdir_p : AbsPath → Action LocalFsError Env (Unit {0})
  -- RemoteDrive
  pub delta : Text → Option DeltaCursor → Action GraphError Env DeltaPage
  pub download : Text → Action GraphError Env (List ℕ)
  pub upload_small : Text → Text → List ℕ → Action GraphError Env RemoteItem
  pub upload_session : Text → Text → ℕ → Action GraphError Env Text
  pub remote_rename : Text → Text → Action GraphError Env RemoteItem
  pub remote_delete : Text → Action GraphError Env (Unit {0})
  pub remote_mkdir : Text → Text → Action GraphError Env RemoteItem
  -- the texts that thiserror derives for the errors
  pub state_text : StateError → Text
  pub local_text : LocalFsError → Text
  pub graph_text : GraphError → Text
  pub engine_text : EngineError → Text
  -- unicode_normalization, `str::to_lowercase`, BLAKE3, chrono, and the product of a clamped jitter
  pub nfc : Text → Text
  pub to_lowercase : Text → Text
  pub short_hash : Text → Text
  pub format_time : Timestamp → Text
  pub fractions : Fractions Jitter
  pub unix_epoch : Timestamp

-- The engine's actions run over both states.
abbrev pub World : Ports → Type 0
World P = P.Store × P.Env

abbrev pub M : Ports → Type 0 → Type 0
M P A = Action EngineError (World P) A

module _ (P : Ports) where
  -- A call of the state store leaves the other state alone, and its error ends the cycle.
  abbrev pub state_result :
      {A : Type 0} → Outcome StateError P.Store A → P.Env → Outcome EngineError (World P) A
  state_result (ok a s) e = ok a (s, e)
  state_result (err x s) e = err (state_port x) (s, e)

  abbrev pub state : {A : Type 0} → Action StateError P.Store A → M P A
  state call w = state_result (call w.0) w.1

  abbrev pub env_result :
      {E A : Type 0}
      → (E → EngineError)
      → Outcome E P.Env A
      → P.Store
      → Outcome EngineError (World P) A
  env_result wrap (ok a e) s = ok a (s, e)
  env_result wrap (err x e) s = err (wrap x) (s, e)

  abbrev pub local_fs : {A : Type 0} → Action LocalFsError P.Env A → M P A
  local_fs call w = env_result local_port (call w.1) w.0

  abbrev pub drive : {A : Type 0} → Action GraphError P.Env A → M P A
  drive call w = env_result remote_port (call w.1) w.0

  abbrev pub env : {A : Type 0} → (P.Env → A × P.Env) → M P A
  env f w = let (a, e) = f w.1 in ok a (w.0, e)

  -- A call whose error the engine looks at instead of ending the cycle.
  abbrev pub state_caught :
      {A : Type 0}
      → Outcome StateError P.Store A
      → P.Env
      → Outcome EngineError (World P) (StateError ⊎ A)
  state_caught (ok a s) e = ok (inr a) (s, e)
  state_caught (err x s) e = ok (inl x) (s, e)

  abbrev pub state_attempt : {A : Type 0} → Action StateError P.Store A → M P (StateError ⊎ A)
  state_attempt call w = state_caught (call w.0) w.1

  abbrev pub env_caught :
      {E A : Type 0} → Outcome E P.Env A → P.Store → Outcome EngineError (World P) (E ⊎ A)
  env_caught (ok a e) s = ok (inr a) (s, e)
  env_caught (err x e) s = ok (inl x) (s, e)

  abbrev pub env_attempt : {E A : Type 0} → Action E P.Env A → M P (E ⊎ A)
  env_attempt call w = env_caught (call w.1) w.0

  abbrev pub tell : AuditEvent → M P (Unit {0})
  tell event w = ok tt (w.0, P.emit event w.1)
