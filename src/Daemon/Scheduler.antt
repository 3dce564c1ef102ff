-- ===== src/Daemon/Scheduler.antt =====
-- crates/onesync-daemon/src/scheduler.rs: one cycle of a pair, with its gates, and the round over the
-- pairs that are due. The engine's cycle is `run_cycle` over the ports of `P`, whose drive is the
-- adapter that the source builds for the pair's account; what the scheduler asks for besides is the
-- record `Extra`. Log lines are left out. `is_metered_network` is the constant `false` of the source.
pub mod Due
pub mod Overwrite
use onesync.Prelude.{
  ℕ, ◌⊎◌, inl, inr, Bool, true, false, ◌&&◌, ◌||◌, not, Option, none, some, List, [], ◌∷◌, ◌++◌,
  String,
}
use onesync.Prelude.Tests.{if◌then◌else◌, ltb, leb, is_some}
use onesync.Prelude.Equality.{string_eq}
use onesync.Prelude.Text.{Text, codes, is_empty}
use onesync.Prelude.Outcome.{Outcome, ok, err, and_then, Action, return, ◌>>=◌, ◌>>◌}
use onesync.Protocol.Enums.{errored, is_removed, is_initializing, RunTrigger, scheduled, warn}
use onesync.Protocol.FileSide.{Timestamp}
use onesync.Protocol.Path.{AbsPath}
use onesync.Protocol.Account.{Account, InstanceConfig, client_id_of}
use onesync.Protocol.Entities.{RowId, Pair, AuditEvent, Json, string, JsonMap, insert}
use onesync.Engine.Types.{CycleSummary}
use onesync.Engine.Ports.{Ports, World, M, EngineError, StateError, LocalFsError, LocalScan}
use onesync.Engine.Cycle.Context.{CycleCtx}
use onesync.Engine.Cycle.Run.{run_cycle}
use onesync.Daemon.PostCycle.{persist_post_cycle, promotes}

pub record Extra (P : Ports) : Type 0 where
  pub account_get : RowId → Action StateError P.Store (Option Account)
  pub config_get : Action StateError P.Store (Option InstanceConfig)
  pub pairs_active : Action StateError P.Store (List Pair)
  pub free_space_gib : AbsPath → Action Text P.Env ℕ
  pub notify_user : Text → Text → P.Env → P.Env
  pub display : Option Text → Text
  pub host_name : Text

-- The errors of `run_one_pair_inner`, which are only logged.
pub data CycleFailure : Type 0 where
  state_failed : StateError → CycleFailure
  pair_not_found account_not_found client_id_unset : CycleFailure
  engine_failed : EngineError → CycleFailure

abbrev pub is_metered_network : Bool
is_metered_network = false

abbrev pub metered_gate : Option InstanceConfig → Bool
metered_gate none = false
metered_gate (some cfg) = not cfg.allow_metered && is_metered_network

-- The space to ask for, if the check is on.
abbrev pub min_free : Option InstanceConfig → Option ℕ
min_free none = none
min_free (some cfg) = if ltb 0 cfg.min_free_gib then some cfg.min_free_gib else none

abbrev pub notify_enabled : Option InstanceConfig → Bool
notify_enabled none = false
notify_enabled (some cfg) = cfg.notify

abbrev pub errored_row : Timestamp → Text → Pair → Pair
errored_row now reason pair = record pair {
  status = errored;
  errored_reason = some reason;
  updated_at = now;
}

module _ (P : Ports) (X : Extra P) where
  abbrev pub D : Type 0 → Type 0
  D A = Action CycleFailure (World P) A

  abbrev pub store_outcome :
      {A : Type 0} → Outcome StateError P.Store A → P.Env → Outcome CycleFailure (World P) A
  store_outcome (ok a s) e = ok a (s, e)
  store_outcome (err x s) e = err (state_failed x) (s, e)

  abbrev pub in_store : {A : Type 0} → Action StateError P.Store A → D A
  in_store call w = store_outcome (call w.0) w.1

  abbrev pub required : {A : Type 0} → CycleFailure → Option A → D A
  required failure none w = err failure w
  required failure (some a) w = ok a w

  abbrev pub refuse_if : Bool → CycleFailure → D (Unit {0})
  refuse_if b failure w = if b then err failure w else ok tt w

  abbrev pub engine_outcome :
      {A : Type 0} → Outcome EngineError (World P) A → Outcome CycleFailure (World P) A
  engine_outcome (ok a w) = ok a w
  engine_outcome (err x w) = err (engine_failed x) w

  abbrev pub in_engine : {A : Type 0} → M P A → D A
  in_engine call w = engine_outcome (call w)

  -- An outcome that is only logged.
  abbrev pub logged : {E A : Type 0} → Outcome E P.Store A → P.Env → World P
  logged (ok a s) e = (s, e)
  logged (err x s) e = (s, e)

  unfoldable pub mark_pair_errored : Pair → Text → World P → World P
  mark_pair_errored pair reason w =
      let (now, e) = P.now w.1 in logged (P.pair_upsert (errored_row now reason pair) w.0) e

  abbrev pub symlink_event : RowId → Timestamp → RowId → Option Text → AuditEvent
  symlink_event id ts pair_id path = record {
    id = id;
    ts = ts;
    level = warn;
    kind = "local.symlink.skipped";
    pair_id = some pair_id;
    payload = insert "path" (string (X.display path)) [];
  }

  abbrev pub emit_skips : RowId → List (Option Text) → P.Env → P.Env
  emit_skips pair_id [] e = e
  emit_skips pair_id (path ∷ paths) e =
      let (id, e1) = P.new_id e in
      let (ts, e2) = P.now e1 in
      emit_skips pair_id paths (P.emit (symlink_event id ts pair_id path) e2)

  abbrev pub skips_of : RowId → Outcome LocalFsError P.Env LocalScan → P.Env
  skips_of pair_id (err x e) = e
  skips_of pair_id (ok found e) = emit_skips pair_id found.symlinks_skipped e

  -- A failed scan is only logged.
  unfoldable pub emit_symlink_skips : Pair → P.Env → P.Env
  emit_symlink_skips pair e = skips_of pair.id (P.scan pair.local_path e)

  abbrev pub cycle_ctx : Pair → Account → RunTrigger → CycleCtx
  cycle_ctx pair account trigger = record {
    pair_id = pair.id;
    local_root = pair.local_path;
    drive_id = account.drive_id;
    cursor = pair.delta_token;
    trigger = trigger;
    host_name = X.host_name;
  }

  abbrev pub notified : Bool → Pair → P.Env → P.Env
  notified false pair e = e
  notified true pair e =
      X.notify_user (codes "onesync") (codes "Initial sync complete for " ++ pair.display_name) e

  -- What follows a cycle: the row of the pair as it was read before, the notification, the symlinks.
  abbrev pub after_cycle : Option InstanceConfig → Pair → CycleSummary → D (Unit {0})
  after_cycle cfg pair summary = do
    in_engine (persist_post_cycle P pair summary)
    (λ w.
        let told = notified (promotes pair summary && notify_enabled cfg) pair w.1 in
        ok tt (w.0, emit_symlink_skips pair told))

  abbrev pub drive_cycle : Option InstanceConfig → Pair → Account → RunTrigger → D (Unit {0})
  drive_cycle cfg pair account trigger = do
    summary ← in_engine (run_cycle P (cycle_ctx pair account trigger))
    after_cycle cfg pair summary

  -- The probe's answer: a failed probe does not stop the cycle.
  abbrev pub on_space :
      Option InstanceConfig
      → Pair
      → Account
      → RunTrigger
      → ℕ
      → P.Store
      → Outcome Text P.Env ℕ
      → Outcome CycleFailure (World P) (Unit {0})
  on_space cfg pair account trigger wanted s (err x e) = drive_cycle cfg pair account trigger (s, e)
  on_space cfg pair account trigger wanted s (ok have e) =
      if ltb have wanted
      then ok tt (mark_pair_errored pair (codes "free disk below threshold") (s, e))
      else drive_cycle cfg pair account trigger (s, e)

  abbrev pub space_gate :
      Option InstanceConfig → Pair → Account → RunTrigger → Option ℕ → D (Unit {0})
  space_gate cfg pair account trigger none w = drive_cycle cfg pair account trigger w
  space_gate cfg pair account trigger (some wanted) w =
      on_space cfg pair account trigger wanted w.0 (X.free_space_gib pair.local_path w.1)

  abbrev pub gates : Option InstanceConfig → Pair → Account → RunTrigger → D (Unit {0})
  gates cfg pair account trigger w =
      if metered_gate cfg then ok tt w else space_gate cfg pair account trigger (min_free cfg) w

  unfoldable pub run_one_pair_inner : RowId → RunTrigger → D (Unit {0})
  run_one_pair_inner pair_id trigger = do
    found ← in_store (P.pair_get pair_id)
    pair ← required pair_not_found found
    owner ← in_store (X.account_get pair.account_id)
    account ← required account_not_found owner
    cfg ← in_store X.config_get
    refuse_if (is_empty (client_id_of cfg)) client_id_unset
    gates cfg pair account trigger

  abbrev pub world_of : Outcome CycleFailure (World P) (Unit {0}) → World P
  world_of (ok u w) = w
  world_of (err x w) = w

  -- An error is logged.
  unfoldable pub run_one_pair : RowId → RunTrigger → World P → World P
  run_one_pair pair_id trigger w = world_of (run_one_pair_inner pair_id trigger w)

  abbrev pub run_pairs : List Pair → World P → World P
  run_pairs [] w = w
  run_pairs (pair ∷ pairs) w =
      run_pairs pairs
        (if pair.paused || is_removed pair.status then w else run_one_pair pair.id scheduled w)

  abbrev pub on_active : Outcome StateError P.Store (List Pair) → P.Env → World P
  on_active (err x s) e = (s, e)
  on_active (ok pairs s) e = run_pairs pairs (s, e)

  -- `run_due_pairs`.
  unfoldable pub run_due_pairs : World P → World P
  run_due_pairs w = on_active (X.pairs_active w.0) w.1
