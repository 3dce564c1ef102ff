-- ===== src/Daemon/Services.antt =====
-- What the handlers of crates/onesync-daemon/src/methods (`ConnCtx`) and the scheduler ask of their
-- surroundings, as actions on one world. Texts of errors are left out of `MethodError`, except for the
-- errors of the calls it comes from.
use onesync.Prelude.{ℕ, Option, none, some, List, Bool}
use onesync.Prelude.Text.{Text}
use onesync.Prelude.Outcome.{Outcome, ok, err, Action}
use onesync.Protocol.Enums.{ConflictResolution}
use onesync.Protocol.FileSide.{Timestamp}
use onesync.Protocol.Path.{AbsPath}
use onesync.Protocol.Account.{Account, InstanceConfig}
use onesync.Protocol.Entities.{RowId, Conflict, Pair, SyncRun, AuditEvent}
use onesync.Engine.Ports.{StateError, LocalFsError}

-- An item of the drive, as `items::item_by_path` finds it.
pub record FoundItem : Type 0 where
  pub id : Text
  pub name : Text

pub record TokenSet : Type 0 where
  pub access_token : Text
  pub refresh_token : Text

pub record Services : Type 1 where
  pub World : Type 0
  pub account_get : RowId → Action StateError World (Option Account)
  pub config_get : Action StateError World (Option InstanceConfig)
  pub pair_get : RowId → Action StateError World (Option Pair)
  pub pair_upsert : Pair → Action StateError World (Unit {0})
  pub runs_recent : RowId → ℕ → Action StateError World (List SyncRun)
  pub conflicts_unresolved : RowId → Action StateError World (List Conflict)
  pub conflict_get : RowId → Action StateError World (Option Conflict)
  pub conflict_resolve :
      RowId → ConflictResolution → Timestamp → Option Text → Action StateError World (Unit {0})
  pub audit_append : AuditEvent → Action StateError World (Unit {0})
  pub mkdir_p : AbsPath → Action LocalFsError World (Unit {0})
  pub load_refresh : RowId → Action Text World Text
  -- the reference under which the vault keeps the token
  pub store_refresh : RowId → Text → Action Text World Text
  pub refresh : Text → Text → Action Text World TokenSet
  pub item_by_path : Text → Text → Text → Action Text World (Option FoundItem)
  -- whether the scheduler still accepts triggers
  pub force_sync : RowId → World → Bool × World
  pub now : World → Timestamp × World
  pub new_id : World → RowId × World
  pub emit : AuditEvent → World → World

-- `app` is the distance below `APP_ERROR_BASE`.
pub data MethodError : Type 0 where
  invalid_params : Text → MethodError
  internal : Text → MethodError
  internal_error : StateError → MethodError
  not_accepting : MethodError
  app : ℕ → MethodError

module _ (S : Services) where
  abbrev pub Method : Type 0 → Type 0
  Method A = Action MethodError S.World A

  abbrev pub or_error :
      {E A : Type 0} → (E → MethodError) → Outcome E S.World A → Outcome MethodError S.World A
  or_error wrap (ok a w) = ok a w
  or_error wrap (err e w) = err (wrap e) w

  -- `map_err` to an internal error.
  abbrev pub stored : {A : Type 0} → Action StateError S.World A → Method A
  stored call w = or_error internal_error (call w)

  abbrev pub calling : {E A : Type 0} → ℕ → Action E S.World A → Method A
  calling code call w = or_error (λ e. app code) (call w)

  -- `let _ = …`: an error is dropped.
  abbrev pub dropped : {E A : Type 0} → Outcome E S.World A → Outcome MethodError S.World (Unit {0})
  dropped (ok a w) = ok tt w
  dropped (err e w) = ok tt w

  abbrev pub ignoring : {E A : Type 0} → Action E S.World A → Method (Unit {0})
  ignoring call w = dropped (call w)

  -- `ok_or_else`.
  abbrev pub required : {A : Type 0} → ℕ → Option A → Method A
  required code none w = err (app code) w
  required code (some a) w = ok a w

  abbrev pub reading : {A : Type 0} → (S.World → A × S.World) → Method A
  reading f w = let (a, v) = f w in ok a v

  abbrev pub emitting : AuditEvent → Method (Unit {0})
  emitting event w = ok tt (S.emit event w)
