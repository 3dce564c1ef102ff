-- ===== src/Engine/Cycle/Context.antt =====
-- `CycleCtx` of cycle.rs without its ports, and the calls that every phase makes.
use onesync.Prelude.{String, Option}
use onesync.Prelude.Text.{Text}
use onesync.Prelude.Outcome.{◌>>=◌}
use onesync.Protocol.Enums.{RunTrigger}
use onesync.Protocol.FileSide.{Timestamp}
use onesync.Protocol.Path.{RelPath, AbsPath}
use onesync.Protocol.Remote.{DeltaCursor}
use onesync.Protocol.Entities.{RowId, FileEntry, JsonMap}
use onesync.Engine.Ports.{Ports, M, state, env, tell}
use onesync.Engine.Observability.{warning}

pub record CycleCtx : Type 0 where
  pub pair_id : RowId
  pub local_root : AbsPath
  pub drive_id : Text
  pub cursor : Option DeltaCursor
  pub trigger : RunTrigger
  pub host_name : Text

module _ (P : Ports) where
  abbrev pub now : M P Timestamp
  now = env P P.now

  abbrev pub new_id : M P RowId
  new_id = env P P.new_id

  abbrev pub entry_of : CycleCtx → RelPath → M P (Option FileEntry)
  entry_of ctx path = state P (P.file_entry_get ctx.pair_id path)

  abbrev pub upsert : FileEntry → M P (Unit {0})
  upsert entry = state P (P.file_entry_upsert entry)

  -- An audit event at level `Warn`: a new identifier, the time, then the emission.
  unfoldable pub warn_about : CycleCtx → String → JsonMap → M P (Unit {0})
  unfolding warning
  warn_about ctx kind payload = do
    id ← new_id
    ts ← now
    tell P (warning id ts kind ctx.pair_id payload)
