-- ===== src/Engine/Cycle/Run.antt =====
-- `run_cycle` of cycle.rs: the six phases in order.
use onesync.Prelude.{◌+◌, ◌%◌, ◌^◌, Option, none, some, ◌++◌, map}
use onesync.Prelude.Tests.{if◌then◌else◌, ltb}
use onesync.Prelude.Equality.{◌==◌, nat_eq, list_eq, option_eq}
use onesync.Prelude.Outcome.{return, ◌>>=◌, ◌>>◌}
use onesync.Protocol.FileSide.{Timestamp}
use onesync.Protocol.Remote.{DeltaCursor}
use onesync.Protocol.Entities.{RowId, Pair, SyncRun}
use onesync.Engine.Types.{Decision, CycleSummary}
use onesync.Engine.Planner.{plan}
use onesync.Engine.Observability.{cycle_started, cycle_finished}
use onesync.Engine.Ports.{Ports, M, state, env, tell}
use onesync.Engine.Cycle.Context.{CycleCtx, now, new_id}
use onesync.Engine.Cycle.Delta.{phase_delta_reconcile}
use onesync.Engine.Cycle.LocalScan.{phase_local_uploads, apply_initial_sync_collisions}
use onesync.Engine.Cycle.Resolve.{phase_resolve_conflicts, build_remote_rename_ops}
use onesync.Engine.Cycle.Execute.{ExecuteCounts, phase_execute, classify_outcome}

module _ (P : Ports) (ctx : CycleCtx) where
  abbrev store_cursor : Option DeltaCursor → Option Pair → M P (Unit {0})
  store_cursor delta_token none = return tt
  store_cursor delta_token (some pair) = if pair.delta_token == delta_token then return tt else (do
    ts ← now P
    state P (P.pair_upsert (record pair { delta_token = delta_token; updated_at = ts })))

  -- The pair's persisted cursor takes the value the page carried, if it differs.
  unfoldable pub advance_cursor : Option DeltaCursor → M P (Unit {0})
  advance_cursor delta_token = state P (P.pair_get ctx.pair_id) >>= store_cursor delta_token

  unfoldable pub run_row : RowId → Timestamp → Timestamp → ExecuteCounts → SyncRun
  unfolding classify_outcome
  run_row run_id started_at finished_at c = record {
    id = run_id;
    pair_id = ctx.pair_id;
    trigger = ctx.trigger;
    started_at = started_at;
    finished_at = some finished_at;
    local_ops = c.applied % 2 ^ 32;
    remote_ops = 0;
    bytes_uploaded = 0;
    bytes_downloaded = 0;
    outcome = some (classify_outcome c.applied c.failed);
    outcome_detail = if ltb 0 c.failed then some (c.failed, c.applied + c.failed) else none;
  }

  unfoldable pub run_cycle : M P CycleSummary
  unfolding run_row
  run_cycle = do
    started_at ← now P
    run_id ← new_id P
    event_id ← new_id P
    tell P (cycle_started event_id started_at ctx.pair_id)
    d ← phase_delta_reconcile P ctx
    advance_cursor d.delta_token
    l ←
        phase_local_uploads P ctx (map (λ (x : Decision). x.relative_path) d.decisions)
          d.remote_items_by_path
    promoted ←
        apply_initial_sync_collisions P ctx (d.decisions ++ l.decisions) l.initial_sync_collisions 0
    let conflicts_detected = d.conflicts_detected + l.collisions_recorded + promoted.1
    resolved ← phase_resolve_conflicts P ctx run_id promoted.0
    planned ← env P (plan P.new_id run_id started_at resolved.0)
    renames ← build_remote_rename_ops P ctx run_id started_at d.collision_renames
    counts ← phase_execute P ctx (planned ++ (resolved.1 ++ renames))
    finished_at ← now P
    state P (P.run_record (run_row run_id started_at finished_at counts))
    end_id ← new_id P
    tell P (cycle_finished end_id finished_at ctx.pair_id counts.applied conflicts_detected)
    return (record {
      remote_items_seen = d.remote_items_seen;
      local_events_seen = l.local_events_seen;
      ops_applied = counts.applied;
      conflicts_detected = conflicts_detected;
      delta_token = d.delta_token;
    })
