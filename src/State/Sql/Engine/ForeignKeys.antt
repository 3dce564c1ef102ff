-- ===== src/State/Sql/Engine/ForeignKeys.antt =====
-- The execute phase on the tables, before the run that its operations belong to has a row.
use onesync.Prelude.{ℕ, ◌+◌, ◌≡◌, refl, sym, inl, inr, false, some, List, [], ◌∷◌, arith}
use mathlib.Core.Path.{subst}
use onesync.Prelude.Tests.{Bool-cases, Option-cases}
use onesync.Prelude.Equality.{◌==◌, nat_eq, list_eq}
use onesync.Prelude.Lists.{length, any, All, All-append}
use onesync.Prelude.Text.{Text, codes}
use onesync.Prelude.Outcome.{Outcome, ok, err, and_then}
use onesync.Protocol.Enums.{
  FileOpKind, upload, download, local_delete, remote_delete, local_mkdir, remote_mkdir,
  local_rename, remote_rename,
}
use onesync.Protocol.FileSide.{Timestamp}
use onesync.Protocol.Entities.{RowId, FileOp, AuditEvent}
use onesync.Engine.Types.{Decision, to_file_op_kind}
use onesync.Engine.Planner.{make_op, push, Queues, plan_loop, plan}
use onesync.Engine.Ports.{Ports, World, EngineError}
use onesync.Engine.Cycle.Context.{CycleCtx}
use onesync.Engine.Cycle.Execute.{
  Verdict, failed, ExecuteCounts, count, audit_failure, emit_op_state_failure, run_op, run_ops,
  phase_execute,
}
use onesync.State.Sql.{Columns, SqlCause, unique_failed, foreign_key_failed, encode_failed, id_text}
use onesync.State.Sql.Tables.{Database, OpRow, has_run, sqlite}
use onesync.State.Sql.FileOps.{op_row_of, insert}
use onesync.State.Sql.Engine.{over_tables}

module _ (C : Columns) where
  run_id_lem :
      (op : FileOp) (row : OpRow)
      → op_row_of C op ≡ some row
      → row.run_id ≡ id_text C (codes "run") op.run_id
  unfolding op_row_of
  run_id_lem op row h = ground (arith, h)

  -- An operation whose run has no row is refused, and the tables stay as they are.
  insert-orphan :
      (op : FileOp) (db : Database)
      → has_run (id_text C (codes "run") op.run_id) db ≡ false
      → (cause : SqlCause) × (insert C op db ≡ err (sqlite C cause) db)
  unfolding insert
  insert-orphan op db h = elim (Option-cases (op_row_of C op)) [
    | inl unencoded ↦ (encode_failed, rw unencoded refl)
    | inr (row, e) ↦ elim (Bool-cases (any (λ (r : OpRow). r.id == row.id) db.file_ops)) [
      | inl taken ↦ (unique_failed, rw (e, taken) refl)
      | inr fresh ↦ (foreign_key_failed, rw (e, fresh, run_id_lem op row e, h) refl)
    ]
  ]

module _ (C : Columns) (detail : ℕ × ℕ → Text) (instant : Timestamp) (P : Ports) (ctx : CycleCtx)
    (I : P.Env → Type 0) where
  -- A fact about the surroundings that the clock, the identifiers and the audit log keep.
  pub record IsKept : Type 0 where
    pub now : (e : P.Env) → I e → I (P.now e).1
    pub new_id : (e : P.Env) → I e → I (P.new_id e).1
    pub emit : (event : AuditEvent) (e : P.Env) → I e → I (P.emit event e)

  abbrev pub Q : Ports
  Q = over_tables C detail instant P

  abbrev OneFailed : Database × P.Store → Outcome EngineError (World Q) Verdict → Type 0
  OneFailed w (ok failed v) = (v.0 ≡ w) × I v.1
  OneFailed w _ = ⊥

  -- Nothing was applied, `n` operations failed, the store is as it was and the fact still holds.
  abbrev pub AllFailed :
      ℕ → Database × P.Store → Outcome EngineError (World Q) ExecuteCounts → Type 0
  AllFailed n w (ok c v) = (c.applied ≡ 0) × (c.failed ≡ n) × (v.0 ≡ w) × I v.1
  AllFailed n w (err e v) = ⊥

  abbrev pub IsOrphan : Database → FileOp → Type 0
  IsOrphan db op = has_run (id_text C (codes "run") op.run_id) db ≡ false

  run_op-OneFailed :
      IsKept
      → (op : FileOp) (db : Database) (s : P.Store) (e : P.Env) → IsOrphan db op
      → I e
      → OneFailed (db, s) (run_op Q ctx op ((db, s), e))
  unfolding run_op emit_op_state_failure audit_failure
  run_op-OneFailed k op db s e orphan i =
      let (cause, refused) = insert-orphan C op db orphan in
      rw refused (refl, k.emit _ _ (k.now _ (k.new_id _ i)))

  -- The verdict of one operation, and then the operations behind it.
  next-AllFailed :
      (ops : List FileOp) (m n : ℕ) (w : Database × P.Store)
      (o : Outcome EngineError (World Q) Verdict)
      → OneFailed w o
      → ((v : World Q)
          → v.0 ≡ w
          → I v.1
          → AllFailed m w (run_ops Q ctx ops (record { applied = 0; failed = n + 1 }) v))
      → AllFailed m w
          (and_then o (λ v. run_ops Q ctx ops (count v (record { applied = 0; failed = n }))))
  next-AllFailed ops m n w (ok failed v) h next = next v h.0 h.1
  next-AllFailed ops m n w (ok Verdict.applied v) h next = absurd h
  next-AllFailed ops m n w (ok Verdict.unfinished v) h next = absurd h
  next-AllFailed ops m n w (err e v) h next = absurd h

  run_ops-AllFailed :
      IsKept
      → (ops : List FileOp) (m n : ℕ) (db : Database) (s : P.Store) (e : P.Env)
      → All (IsOrphan db) ops
      → I e
      → length ops + n ≡ m
      → AllFailed m (db, s) (run_ops Q ctx ops (record { applied = 0; failed = n }) ((db, s), e))
  unfolding run_ops
  run_ops-AllFailed k [] m n db s e orphans i total = (refl, omega (arith, total), refl, i)
  run_ops-AllFailed k (op ∷ ops) m n db s e orphans i total =
      next-AllFailed ops m n (db, s) _ (run_op-OneFailed k op db s e orphans.0 i)
        (λ v same j.
          subst
            (λ t.
              AllFailed m (db, s)
                (run_ops Q ctx ops (record { applied = 0; failed = n + 1 }) (t, v.1)))
            (sym same)
            (run_ops-AllFailed k ops m (n + 1) db s v.1 orphans.1 j (omega (arith, total))))

  -- Operations whose runs have no row: the phase fails each of them, applies none and leaves the tables
  -- as they are, and what the clock, the identifiers and the audit log keep still holds afterwards, so
  -- that neither the disk nor the drive was called.
  pub phase_execute-AllFailed :
      IsKept
      → (ops : List FileOp) (db : Database) (s : P.Store) (e : P.Env) → All (IsOrphan db) ops
      → I e
      → AllFailed (length ops) (db, s) (phase_execute Q ctx ops ((db, s), e))
  unfolding phase_execute
  phase_execute-AllFailed k ops db s e orphans i =
      run_ops-AllFailed k ops (length ops) 0 db s e orphans i (omega arith)

-- Every operation of a plan belongs to the run it was planned for.
module _ {Ids : Type 0} (new_id : Ids → RowId × Ids) (run_id : RowId) (at : Timestamp)
    (I : Ids → Type 0) (kept : (ids : Ids) → I ids → I (new_id ids).1) where
  abbrev OfRun : FileOp → Type 0
  OfRun op = op.run_id ≡ run_id

  record QueuesOfRun (q : Queues) : Type 0 where
    mkdir_ops : All OfRun q.mkdir_ops
    delete_ops : All OfRun q.delete_ops
    other_ops : All OfRun q.other_ops

  push-QueuesOfRun :
      (kind : FileOpKind) (op : FileOp) (q : Queues)
      → OfRun op
      → QueuesOfRun q
      → QueuesOfRun (push kind op q)
  unfolding push
  push-QueuesOfRun local_mkdir op q h k = record {
    mkdir_ops = All-append OfRun q.mkdir_ops (op ∷ []) k.mkdir_ops (h, tt);
    delete_ops = k.delete_ops;
    other_ops = k.other_ops;
  }
  push-QueuesOfRun remote_mkdir op q h k = record {
    mkdir_ops = All-append OfRun q.mkdir_ops (op ∷ []) k.mkdir_ops (h, tt);
    delete_ops = k.delete_ops;
    other_ops = k.other_ops;
  }
  push-QueuesOfRun local_delete op q h k = record {
    delete_ops = All-append OfRun q.delete_ops (op ∷ []) k.delete_ops (h, tt);
    mkdir_ops = k.mkdir_ops;
    other_ops = k.other_ops;
  }
  push-QueuesOfRun remote_delete op q h k = record {
    delete_ops = All-append OfRun q.delete_ops (op ∷ []) k.delete_ops (h, tt);
    mkdir_ops = k.mkdir_ops;
    other_ops = k.other_ops;
  }
  push-QueuesOfRun upload op q h k = record {
    other_ops = All-append OfRun q.other_ops (op ∷ []) k.other_ops (h, tt);
    mkdir_ops = k.mkdir_ops;
    delete_ops = k.delete_ops;
  }
  push-QueuesOfRun download op q h k = record {
    other_ops = All-append OfRun q.other_ops (op ∷ []) k.other_ops (h, tt);
    mkdir_ops = k.mkdir_ops;
    delete_ops = k.delete_ops;
  }
  push-QueuesOfRun local_rename op q h k = record {
    other_ops = All-append OfRun q.other_ops (op ∷ []) k.other_ops (h, tt);
    mkdir_ops = k.mkdir_ops;
    delete_ops = k.delete_ops;
  }
  push-QueuesOfRun remote_rename op q h k = record {
    other_ops = All-append OfRun q.other_ops (op ∷ []) k.other_ops (h, tt);
    mkdir_ops = k.mkdir_ops;
    delete_ops = k.delete_ops;
  }

  plan_loop-OfRun :
      (ds : List Decision) (q : Queues) (ids : Ids)
      → QueuesOfRun q
      → I ids
      → QueuesOfRun (plan_loop new_id run_id at ds q ids).0
        × I (plan_loop new_id run_id at ds q ids).1
  unfolding plan_loop make_op
  plan_loop-OfRun [] q ids h i = (h, i)
  plan_loop-OfRun (d ∷ ds) q ids h i = elim (Option-cases (to_file_op_kind d.kind)) [
    | inl passive ↦ rw (passive, plan_loop) (plan_loop-OfRun ds q ids h i)
    | inr (kind, e) ↦
        rw (e, plan_loop) (plan_loop-OfRun ds _ _ (push-QueuesOfRun kind _ q refl h) (kept ids i))
  ]

  plan-OfRun :
      (ds : List Decision) (ids : Ids)
      → I ids
      → All OfRun (plan new_id run_id at ds ids).0 × I (plan new_id run_id at ds ids).1
  unfolding plan
  plan-OfRun ds ids i =
      let (q, j) =
        plan_loop-OfRun ds (record { mkdir_ops = []; delete_ops = []; other_ops = [] }) ids
          (record { mkdir_ops = tt; delete_ops = tt; other_ops = tt }) i in
      (All-append OfRun _ _ q.mkdir_ops (All-append OfRun _ _ q.other_ops q.delete_ops), j)

module _ (C : Columns) (detail : ℕ × ℕ → Text) (instant : Timestamp) (P : Ports) (ctx : CycleCtx)
    (I : P.Env → Type 0) where
  All-IsOrphan :
      (run_id : RowId) (db : Database) (ops : List FileOp)
      → has_run (id_text C (codes "run") run_id) db ≡ false
      → All (λ op. op.run_id ≡ run_id) ops
      → All (IsOrphan C detail instant P ctx I db) ops
  All-IsOrphan run_id db [] h k = tt
  All-IsOrphan run_id db (op ∷ ops) h k = (rw k.0 h, All-IsOrphan run_id db ops h k.1)

  -- On tables that have no row for the run, the execute phase fails every operation that was planned for
  -- it, applies none and changes no table; and what the clock, the identifiers and the audit log keep
  -- of the surroundings holds still, so that neither disk nor drive is called.
  pub phase_execute-plan :
      IsKept C detail instant P ctx I
      → (run_id : RowId) (at : Timestamp) (ds : List Decision) (db : Database) (s : P.Store)
        (e : P.Env)
      → has_run (id_text C (codes "run") run_id) db ≡ false
      → I e
      → let (ops, after) = plan P.new_id run_id at ds e in
        AllFailed C detail instant P ctx I
          (length ops)
          (db, s)
          (phase_execute (over_tables C detail instant P) ctx ops ((db, s), after))
  phase_execute-plan k run_id at ds db s e fresh i =
      let (own, j) = plan-OfRun P.new_id run_id at I k.new_id ds e i in
      phase_execute-AllFailed C detail instant P ctx I k _ db s _
        (All-IsOrphan run_id db _ fresh own) j
