-- ===== src/Engine/Cycle/Execute.antt =====
-- `phase_execute`, `update_file_entry_post_op` and `classify_outcome` of cycle.rs. The retry loop
-- takes fuel, one unit a round; `Execute/Counts` shows that six rounds end it.
pub mod Counts
pub mod Settled
use onesync.Prelude.{
  ℕ, zero, suc, ◌+◌, ◌*◌, ◌⊎◌, inl, inr, Bool, true, false, Option, none, some, List, [], ◌∷◌, ◌++◌,
  String,
}
use onesync.Prelude.Tests.{if◌then◌else◌}
use onesync.Prelude.Equality.{◌==◌, nat_eq}
use onesync.Prelude.Text.{Text, codes}
use onesync.Prelude.Outcome.{return, ◌>>=◌, ◌>>◌, attempt}
use onesync.Protocol.Enums.{
  FileKind, directory, FileOpKind, FileOpStatus, is_success, FileSyncState, RunOutcome,
  partial_failure, upload, download, local_delete, remote_delete, local_mkdir, remote_mkdir,
  local_rename, remote_rename,
}
use onesync.Protocol.FileSide.{FileSide, Timestamp}
use onesync.Protocol.Entities.{FileEntry, FileOp, get_bool}
use onesync.Engine.Limits.{retry_max_attempts}
use onesync.Engine.Retry.{RetryDecision, immediate, exhausted, backoff, retry_decision}
use onesync.Engine.Executor.{ExecError, remote, is_retriable, execute, exec_text}
use onesync.Engine.Observability.{op_failed}
use onesync.Engine.Ports.{
  Ports, M, EngineError, StateError, GraphError, env, tell, state_attempt, env_attempt,
}
use onesync.Engine.Cycle.Context.{CycleCtx, now, new_id, upsert}
use onesync.Engine.Ports.{state}

abbrev is_true : Option Bool → Bool
is_true (some true) = true
is_true _ = false

-- `metadata["from_conflict"] == true`.
unfoldable pub from_conflict : FileOp → Bool
from_conflict op = is_true (get_bool "from_conflict" op.metadata)

abbrev pub made_directory : Timestamp → FileSide
made_directory ts = record {
  kind = directory;
  size_bytes = 0;
  content_hash = none;
  mtime = ts;
  etag = none;
  remote_item_id = none;
}

abbrev pub new_synced : FileOpKind → FileEntry → Timestamp → Option FileSide
new_synced upload entry ts = entry.local
new_synced download entry ts = entry.remote
new_synced local_mkdir entry ts = some (made_directory ts)
new_synced remote_mkdir entry ts = some (made_directory ts)
new_synced local_delete entry ts = none
new_synced remote_delete entry ts = none
new_synced local_rename entry ts = entry.synced
new_synced remote_rename entry ts = entry.synced

-- The row after a successful operation.
unfoldable pub settled : FileOpKind → FileEntry → Timestamp → FileEntry
settled kind entry ts = record entry {
  synced = new_synced kind entry ts;
  sync_state = FileSyncState.clean;
  pending_op_id = none;
  updated_at = ts;
}

unfoldable pub classify_outcome : ℕ → ℕ → RunOutcome
classify_outcome applied failed =
    if failed == 0
    then RunOutcome.success
    else if applied == 0
    then partial_failure
    else partial_failure

-- How one operation ended. The source has no third way: it stands for a loop still running.
pub data Verdict : Type 0 where
  applied failed unfinished : Verdict

pub record ExecuteCounts : Type 0 where
  pub applied : ℕ
  pub failed : ℕ

abbrev pub count : Verdict → ExecuteCounts → ExecuteCounts
count applied c = record c { applied = c.applied + 1 }
count failed c = record c { failed = c.failed + 1 }
count unfinished c = c

module _ (P : Ports) (ctx : CycleCtx) where
  abbrev settle : FileOp → Option FileEntry → M P (Unit {0})
  settle op none = return tt
  settle op (some entry) = do ts ← now P; upsert P (settled op.kind entry ts)

  unfoldable pub update_file_entry_post_op : FileOp → M P (Unit {0})
  unfolding settled from_conflict
  update_file_entry_post_op op =
      if from_conflict op
      then return tt
      else (do entry ← state P (P.file_entry_get op.pair_id op.relative_path); settle op entry)

  unfoldable pub audit_failure : FileOp → Text → M P (Unit {0})
  unfolding op_failed
  audit_failure op reason = do
    id ← new_id P
    ts ← now P
    tell P (op_failed id ts ctx.pair_id op.relative_path.as_str reason)

  unfoldable pub emit_op_state_failure : FileOp → String → StateError → M P (Unit {0})
  unfolding audit_failure
  emit_op_state_failure op context error =
      audit_failure op (codes context ++ (codes ": " ++ P.state_text error))

  -- `op_update_status`, with its failure audited and otherwise ignored.
  abbrev audited : FileOp → String → StateError ⊎ Unit {0} → M P (Unit {0})
  audited op context (inr done) = return tt
  audited op context (inl error) = emit_op_state_failure op context error

  abbrev update_status : FileOp → FileOpStatus → String → M P (Unit {0})
  update_status op status context =
      state_attempt P (P.op_update_status op.id status op.attempts) >>= audited op context

  abbrev post_op_result : FileOp → EngineError ⊎ Unit {0} → M P (Unit {0})
  post_op_result op (inr done) = return tt
  post_op_result op (inl error) = audit_failure op (codes "post-op update: " ++ P.engine_text error)

  -- The arm `Ok(status)`.
  unfoldable pub on_status : FileOp → FileOpStatus → M P Verdict
  unfolding update_file_entry_post_op emit_op_state_failure
  on_status op status = do
    update_status op status "op_update_status(success path)"
    if is_success status
        then (do
          result ← attempt (update_file_entry_post_op op)
          post_op_result op result
          return applied)
        else return failed

  -- The last arm: the error is not retriable.
  unfoldable pub on_error : FileOp → ExecError → M P Verdict
  unfolding emit_op_state_failure
  on_error op error = do
    update_status op FileOpStatus.failed "op_update_status(error path)"
    audit_failure op (exec_text P error)
    return failed

  unfoldable pub on_exhausted : FileOp → M P Verdict
  unfolding emit_op_state_failure
  on_exhausted op = do
    update_status op FileOpStatus.failed "op_update_status(Failed)"
    return failed

  -- A throttled call waits for as long as the server said.
  abbrev wait_if_throttled : ExecError → M P (Unit {0})
  wait_if_throttled (remote (GraphError.throttled retry_after_s)) =
      env P (λ e. (tt, P.sleep_ms (retry_after_s * 1000) e))
  wait_if_throttled _ = return tt

  -- What follows one call of `execute`; `again` is the next round of the loop.
  abbrev pub after_execute : FileOp → M P Verdict → ExecError ⊎ FileOpStatus → M P Verdict
  after_execute op again (inr status) = on_status op status
  after_execute op again (inl error) =
      if is_retriable error then (wait_if_throttled error >>= λ _. again) else on_error op error

  -- The round from the decision on.
  abbrev pub round : FileOp → ℕ → M P Verdict → RetryDecision → M P Verdict
  round op attempt_no again exhausted = on_exhausted op
  round op attempt_no again immediate =
      let op' : FileOp = record op { attempts = attempt_no + 1 } in
      env_attempt P (execute P op' ctx.local_root) >>= after_execute op' again
  round op attempt_no again (backoff delay_ms) =
      let op' : FileOp = record op { attempts = attempt_no + 1 } in
      (env P (λ e. (tt, P.sleep_ms delay_ms e)) >>= λ _.
      env_attempt P (execute P op' ctx.local_root) >>= after_execute op' again)

  -- `op.attempts` is that of the last round when the retries are exhausted.
  unfoldable pub attempts_loop : ℕ → FileOp → ℕ → M P Verdict
  unfolding retry_decision
  attempts_loop zero op attempt_no = return unfinished
  attempts_loop (suc fuel) op attempt_no = do
    jitter ← env P (P.random_jitter attempt_no)
    round op attempt_no
        (attempts_loop fuel (record op { attempts = attempt_no + 1 }) (attempt_no + 1))
        (retry_decision P.fractions attempt_no jitter)

  abbrev inserted : FileOp → StateError ⊎ Unit {0} → M P Verdict
  inserted op (inr done) = attempts_loop (retry_max_attempts + 1) op 0
  inserted op (inl error) = emit_op_state_failure op "op_insert" error >>= λ _. return failed

  unfoldable pub run_op : FileOp → M P Verdict
  unfolding emit_op_state_failure
  run_op op = state_attempt P (P.op_insert op) >>= inserted op

  unfoldable pub run_ops : List FileOp → ExecuteCounts → M P ExecuteCounts
  run_ops [] c = return c
  run_ops (op ∷ ops) c = run_op op >>= λ v. run_ops ops (count v c)

  unfoldable pub phase_execute : List FileOp → M P ExecuteCounts
  unfolding run_ops
  phase_execute ops = run_ops ops (record { applied = 0; failed = 0 })
