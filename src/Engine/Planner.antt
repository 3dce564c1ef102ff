-- ===== src/Engine/Planner.antt =====
-- crates/onesync-core/src/engine/planner.rs. `new_id` is the port `IdGenerator` over its own state.
pub mod Order
use onesync.Prelude.{ℕ, Option, none, some, List, [], ◌∷◌, ◌++◌}
use onesync.Protocol.Enums.{
  FileOpKind, upload, download, local_delete, remote_delete, local_mkdir, remote_mkdir,
  local_rename, remote_rename, enqueued,
}
use onesync.Protocol.FileSide.{Timestamp}
use onesync.Protocol.Path.{RelPath}
use onesync.Protocol.Entities.{FileOp, RowId}
use onesync.Engine.Types.{Decision, to_file_op_kind}

unfoldable pub make_op : RowId → RowId → RowId → RelPath → FileOpKind → Timestamp → FileOp
make_op id run_id pair_id relative_path kind now = record {
  id = id;
  run_id = run_id;
  pair_id = pair_id;
  relative_path = relative_path;
  kind = kind;
  status = enqueued;
  attempts = 0;
  last_error = none;
  metadata = [];
  enqueued_at = now;
  started_at = none;
  finished_at = none;
}

-- The three vectors of the loop, each in the order of its pushes.
pub record Queues : Type 0 where
  pub mkdir_ops : List FileOp
  pub delete_ops : List FileOp
  pub other_ops : List FileOp

-- The `match kind` that chooses the vector.
unfoldable pub push : FileOpKind → FileOp → Queues → Queues
push local_mkdir op q = record q { mkdir_ops = q.mkdir_ops ++ (op ∷ []) }
push remote_mkdir op q = record q { mkdir_ops = q.mkdir_ops ++ (op ∷ []) }
push local_delete op q = record q { delete_ops = q.delete_ops ++ (op ∷ []) }
push remote_delete op q = record q { delete_ops = q.delete_ops ++ (op ∷ []) }
push upload op q = record q { other_ops = q.other_ops ++ (op ∷ []) }
push download op q = record q { other_ops = q.other_ops ++ (op ∷ []) }
push local_rename op q = record q { other_ops = q.other_ops ++ (op ∷ []) }
push remote_rename op q = record q { other_ops = q.other_ops ++ (op ∷ []) }

abbrev joined : Queues → List FileOp
joined q = q.mkdir_ops ++ (q.other_ops ++ q.delete_ops)

module _ {Ids : Type 0} (new_id : Ids → RowId × Ids) (run_id : RowId) (now : Timestamp) where
  unfoldable pub plan_loop : List Decision → Queues → Ids → Queues × Ids
  plan_loop [] q ids = (q, ids)
  plan_loop (d ∷ ds) q ids = elim (to_file_op_kind d.kind) [
    | none ↦ plan_loop ds q ids
    | some kind ↦
        let (id, ids') = new_id ids in
        plan_loop ds (push kind (make_op id run_id d.pair_id d.relative_path kind now) q) ids'
  ]

  -- Directories are made first, and deletions come last.
  unfoldable pub plan : List Decision → Ids → List FileOp × Ids
  unfolding plan_loop
  plan ds ids =
      let (q, ids') =
        plan_loop ds (record { mkdir_ops = []; delete_ops = []; other_ops = [] }) ids in
      (joined q, ids')
