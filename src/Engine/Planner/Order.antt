-- ===== src/Engine/Planner/Order.antt =====
-- The plan against a description without accumulators: three filters of the actionable decisions.
use onesync.Prelude.{
  ℕ, ◌≡◌, refl, sym, ◌∙◌, inl, inr, none, some, List, [], ◌∷◌, ◌++◌, map, arith, Bool,
}
use onesync.Prelude.Tests.{Option-cases}
use onesync.Prelude.Equality.{◌==◌, nat_eq}
use onesync.Prelude.Lists.{keep}
use mathlib.Core.List.{append-nil, append_assoc, map-append}
use onesync.Protocol.Enums.{
  FileOpKind, upload, download, local_delete, remote_delete, local_mkdir, remote_mkdir,
  local_rename, remote_rename, enqueued,
}
use onesync.Protocol.FileSide.{Timestamp}
use onesync.Protocol.Path.{RelPath}
use onesync.Protocol.Entities.{FileOp, RowId}
use onesync.Engine.Types.{Decision, to_file_op_kind}
use onesync.Engine.Planner.{make_op, Queues, push, plan_loop, plan}

-- Directories are made in phase 0 and deletions are in phase 2.
abbrev pub phase_of : FileOpKind → ℕ
phase_of local_mkdir = 0
phase_of remote_mkdir = 0
phase_of local_delete = 2
phase_of remote_delete = 2
phase_of upload = 1
phase_of download = 1
phase_of local_rename = 1
phase_of remote_rename = 1

abbrev pub in_phase : ℕ → FileOp → Bool
in_phase n op = phase_of op.kind == n

-- An operation up to its generated identifier.
abbrev pub unnamed : FileOp → FileOp
unnamed op = record op { id = 0 }

-- The operation for a decision, written out, with 0 for its identifier.
abbrev pub requested : RowId → Timestamp → RowId → RelPath → FileOpKind → FileOp
requested run_id now pair_id relative_path kind = record {
  id = 0;
  run_id = run_id;
  pair_id = pair_id;
  relative_path = relative_path;
  kind = kind;
  status = enqueued;
  attempts = 0;
  last_error = none;
  metadata = [];
  enqueued_at = now;
  started_at = none;
  finished_at = none;
}

module _ (run_id : RowId) (now : Timestamp) where
  -- The operation each actionable decision asks for, in the order of the decisions.
  abbrev pub wanted : List Decision → List FileOp
  wanted [] = []
  wanted (d ∷ ds) = elim (to_file_op_kind d.kind) [
    | none ↦ wanted ds
    | some kind ↦ requested run_id now d.pair_id d.relative_path kind ∷ wanted ds
  ]

  snoc :
      (xs : List FileOp) (op : FileOp)
      → map unnamed (xs ++ (op ∷ [])) ≡ map unnamed xs ++ (unnamed op ∷ [])
  snoc xs op = map-append unnamed xs (op ∷ [])

  record Holds (q : Queues) (mkdirs others deletes : List FileOp) : Type 0 where
    made : map unnamed q.mkdir_ops ≡ mkdirs
    changed : map unnamed q.other_ops ≡ others
    deleted : map unnamed q.delete_ops ≡ deletes

  push-Holds :
      (kind : FileOpKind) (id pair_id : RowId) (path : RelPath) (q : Queues) (a b c : List FileOp)
      → Holds q a b c
      → let op = requested run_id now pair_id path kind in
        Holds
          (push kind (make_op id run_id pair_id path kind now) q)
          (a ++ keep (in_phase 0) (op ∷ []))
          (b ++ keep (in_phase 1) (op ∷ []))
          (c ++ keep (in_phase 2) (op ∷ []))
  unfolding push make_op
  push-Holds kind id pair_id path q a b c h = ground (
    arith,
    snoc q.mkdir_ops (make_op id run_id pair_id path kind now),
    snoc q.other_ops (make_op id run_id pair_id path kind now),
    snoc q.delete_ops (make_op id run_id pair_id path kind now),
    append-nil a,
    append-nil b,
    append-nil c,
  )

  keep_step :
      (n : ℕ) (op : FileOp) (ops before : List FileOp)
      → before ++ keep (in_phase n) (op ∷ ops)
        ≡ (before ++ keep (in_phase n) (op ∷ [])) ++ keep (in_phase n) ops
  keep_step n op ops before =
      ground (arith, append_assoc before (op ∷ []) (keep (in_phase n) ops), append-nil before)

  plan_loop-Holds :
      {Ids : Type 0} (new_id : Ids → RowId × Ids) (ds : List Decision) (q : Queues) (ids : Ids)
      (a b c : List FileOp)
      → Holds q a b c
      → Holds
          (plan_loop new_id run_id now ds q ids).0
          (a ++ keep (in_phase 0) (wanted ds))
          (b ++ keep (in_phase 1) (wanted ds))
          (c ++ keep (in_phase 2) (wanted ds))
  unfolding plan_loop
  plan_loop-Holds new_id [] q ids a b c h = ground (arith, append-nil a, append-nil b, append-nil c)
  plan_loop-Holds new_id (d ∷ ds) q ids a b c h = elim (Option-cases (to_file_op_kind d.kind)) [
    | inl e ↦ rw (e, plan_loop, wanted) (plan_loop-Holds new_id ds q ids a b c h)
    | inr (kind, e) ↦
        let op : FileOp = requested run_id now d.pair_id d.relative_path kind in
        let id : RowId = (new_id ids).0 in
        let x =
          plan_loop-Holds new_id ds
            (push kind (make_op id run_id d.pair_id d.relative_path kind now) q) (new_id ids).1 _ _
            _ (push-Holds kind id d.pair_id d.relative_path q a b c h) in
        rw (e, plan_loop, wanted)
          (record {
            made = x.made ∙ sym (keep_step 0 op (wanted ds) a);
            changed = x.changed ∙ sym (keep_step 1 op (wanted ds) b);
            deleted = x.deleted ∙ sym (keep_step 2 op (wanted ds) c);
          })
  ]

  -- The plan, up to the identifiers of its operations, is the operations that the actionable
  -- decisions ask for, however many there are, each kept in input order within its group: first those that
  -- make directories, then transfers and renames, then deletions. Every operation is enqueued with no attempt made,
  -- no metadata, and the run and time of the plan.
  pub plan-phases :
      {Ids : Type 0} (new_id : Ids → RowId × Ids) (ds : List Decision) (ids : Ids)
      → map unnamed (plan new_id run_id now ds ids).0
        ≡ keep (in_phase 0) (wanted ds)
          ++ (keep (in_phase 1) (wanted ds) ++ keep (in_phase 2) (wanted ds))
  unfolding plan
  plan-phases new_id ds ids =
      let x =
        plan_loop-Holds new_id ds (record { mkdir_ops = []; delete_ops = []; other_ops = [] }) ids
          [] [] [] (record { made = refl; changed = refl; deleted = refl }) in
      rw (map-append, map-append, x.made, x.changed, x.deleted)
