-- ===== src/Engine/Cycle/Execute/Counts.antt =====
-- The execute phase returns for every behaviour of the ports, and accounts for every operation.
use onesync.Prelude.{
  ℕ, zero, suc, ◌+◌, ◌<◌, ◌≤◌, ◌≡◌, refl, ◌⊎◌, inl, inr, Bool, true, false, List, [], ◌∷◌, arith,
}
use native.Mathlib.Decide.{dec_lt}
use onesync.Prelude.Lists.{length}
use onesync.Prelude.Outcome.{Outcome, ok, err, ◌>>=◌, and_then}
use onesync.Protocol.Enums.{FileOpStatus}
use onesync.Protocol.Entities.{FileOp}
use onesync.Engine.Retry.{RetryDecision, immediate, exhausted, backoff}
use onesync.Engine.Executor.{ExecError, execute, is_retriable, remote}
use onesync.Engine.Ports.{
  Ports, World, M, EngineError, StateError, GraphError, state_caught, env_caught, env_attempt,
}
use onesync.Engine.Cycle.Context.{CycleCtx}
use onesync.Engine.Cycle.Execute.{
  Verdict, applied, failed, unfinished, ExecuteCounts, count, audit_failure, emit_op_state_failure,
  on_status, on_error, on_exhausted, after_execute, round, attempts_loop, inserted, run_op, run_ops,
  phase_execute,
}

-- An operation that ended one way or the other, with no error left.
abbrev pub is_settled : {W : Type 0} → Outcome EngineError W Verdict → Bool
is_settled (ok applied w) = true
is_settled (ok failed w) = true
is_settled (ok unfinished w) = false
is_settled (err e w) = false

module _ (P : Ports) (ctx : CycleCtx) where
  caught_settled :
      {E A : Type 0} (o : Outcome E P.Env A) (s : P.Store) (f : E ⊎ A → M P Verdict)
      → ((r : E ⊎ A) (w : World P) → is_settled (f r w) ≡ true)
      → is_settled (and_then (env_caught P o s) f) ≡ true
  caught_settled (ok a e) s f h = h (inr a) (s, e)
  caught_settled (err x e) s f h = h (inl x) (s, e)

  on_status-is_settled :
      (op : FileOp) (status : FileOpStatus) (w : World P)
      → is_settled (on_status P ctx op status w) ≡ true
  unfolding on_status audit_failure
  on_status-is_settled op status w = ground arith

  on_error-is_settled :
      (op : FileOp) (error : ExecError) (w : World P)
      → is_settled (on_error P ctx op error w) ≡ true
  unfolding on_error audit_failure
  on_error-is_settled op error w = ground arith

  on_exhausted-is_settled :
      (op : FileOp) (w : World P) → is_settled (on_exhausted P ctx op w) ≡ true
  unfolding on_exhausted audit_failure
  on_exhausted-is_settled op w = ground arith

  after_execute-is_settled :
      (op : FileOp) (again : M P Verdict)
      → ((v : World P) → is_settled (again v) ≡ true)
      → (r : ExecError ⊎ FileOpStatus) (w : World P)
      → is_settled (after_execute P ctx op again r w) ≡ true
  unfolding is_retriable
  after_execute-is_settled op again h (inr status) w = on_status-is_settled op status w
  after_execute-is_settled op again h (inl (remote (GraphError.throttled retry_after_s))) w = h _
  after_execute-is_settled op again h (inl error) w =
      ground (arith, h w, on_error-is_settled op error w)

  executed-is_settled :
      (op : FileOp) (attempt_no : ℕ) (again : M P Verdict)
      → ((v : World P) → is_settled (again v) ≡ true)
      → (w : World P)
      → let op' : FileOp = record op { attempts = attempt_no + 1 } in
        is_settled
          ((env_attempt P (execute P op' ctx.local_root) >>= after_execute P ctx op' again) w)
        ≡ true
  executed-is_settled op attempt_no again h w =
      let op' : FileOp = record op { attempts = attempt_no + 1 } in
      caught_settled (execute P op' ctx.local_root w.1) w.0 _ (after_execute-is_settled op' again h)

  round-is_settled :
      (op : FileOp) (attempt_no : ℕ) (again : M P Verdict)
      → ((v : World P) → is_settled (again v) ≡ true)
      → (d : RetryDecision) (w : World P) → is_settled (round P ctx op attempt_no again d w) ≡ true
  round-is_settled op attempt_no again h exhausted w = on_exhausted-is_settled op w
  round-is_settled op attempt_no again h immediate w = executed-is_settled op attempt_no again h w
  round-is_settled op attempt_no again h (backoff delay_ms) w =
      executed-is_settled op attempt_no again h (w.0, P.sleep_ms delay_ms w.1)

  -- The loop ends within the rounds that are left of six.
  attempts_loop-is_settled :
      (fuel : ℕ) (op : FileOp) (attempt_no : ℕ) (w : World P)
      → attempt_no ≤ 5
      → 5 < fuel + attempt_no
      → is_settled (attempts_loop P ctx fuel op attempt_no w) ≡ true
  unfolding attempts_loop
  attempts_loop-is_settled zero op attempt_no w le h = absurd (omega arith)
  attempts_loop-is_settled (suc fuel) op attempt_no w le h = elim (dec_lt attempt_no 5) [
    | yes lt ↦
        round-is_settled op attempt_no _
          (λ v. attempts_loop-is_settled fuel _ (attempt_no + 1) v (omega arith) (omega arith)) _ _
    | no ge ↦ let e : attempt_no ≡ 5 = omega arith in rw e (on_exhausted-is_settled op _)
  ]

  inserted-is_settled :
      (op : FileOp) (o : Outcome StateError P.Store (Unit {0})) (e : P.Env)
      → is_settled (and_then (state_caught P o e) (inserted P ctx op)) ≡ true
  unfolding emit_op_state_failure
  inserted-is_settled op (ok a s) e =
      attempts_loop-is_settled 6 op 0 (s, e) (omega arith) (omega arith)
  inserted-is_settled op (err x s) e = refl

  run_op-is_settled : (op : FileOp) (w : World P) → is_settled (run_op P ctx op w) ≡ true
  unfolding run_op
  run_op-is_settled op w = inserted-is_settled op (P.op_insert op w.0) w.1

  -- The operations counted add up to `n`.
  abbrev pub Counted : ℕ → Outcome EngineError (World P) ExecuteCounts → Type 0
  Counted n (ok c w) = c.applied + c.failed ≡ n
  Counted n (err e w) = ⊥

  step-Counted :
      (ops : List FileOp) (c : ExecuteCounts) (o : Outcome EngineError (World P) Verdict)
      → is_settled o ≡ true
      → ((d : ExecuteCounts) (w : World P)
          → Counted (length ops + d.applied + d.failed) (run_ops P ctx ops d w))
      → Counted
          (suc (length ops) + c.applied + c.failed)
          (and_then o (λ v. run_ops P ctx ops (count v c)))
  step-Counted ops c (ok applied w) h ih =
      let e : suc (length ops) + c.applied + c.failed ≡ length ops + (c.applied + 1) + c.failed =
        omega arith in
      rw e (ih (count applied c) w)
  step-Counted ops c (ok failed w) h ih =
      let e : suc (length ops) + c.applied + c.failed ≡ length ops + c.applied + (c.failed + 1) =
        omega arith in
      rw e (ih (count failed c) w)
  step-Counted ops c (ok unfinished w) h ih = cc
  step-Counted ops c (err e w) h ih = cc

  run_ops-Counted :
      (ops : List FileOp) (c : ExecuteCounts) (w : World P)
      → Counted (length ops + c.applied + c.failed) (run_ops P ctx ops c w)
  unfolding run_ops
  run_ops-Counted [] c w = omega arith
  run_ops-Counted (op ∷ ops) c w =
      step-Counted ops c (run_op P ctx op w) (run_op-is_settled op w) (run_ops-Counted ops)

  -- Whatever the store, the disk and the drive answer, the execute phase returns without an error
  -- and its counts of applied and failed operations add up to the number of operations: the retry
  -- loop of each ends within six rounds, and no failure of one stops the rest.
  pub phase_execute-Counted :
      (ops : List FileOp) (w : World P) → Counted (length ops) (phase_execute P ctx ops w)
  unfolding phase_execute
  phase_execute-Counted ops w =
      let e : length ops ≡ length ops + 0 + 0 = omega arith in
      rw e (run_ops-Counted ops (record { applied = 0; failed = 0 }) w)
