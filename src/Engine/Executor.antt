-- ===== src/Engine/Executor.antt =====
-- crates/onesync-core/src/engine/executor.rs: one operation through the ports.
use onesync.Prelude.{ℕ, Bool, true, false, Option, none, some, List, [], ◌∷◌, ◌++◌, String}
use onesync.Prelude.Tests.{if◌then◌else◌, leb}
use onesync.Prelude.Lists.{length}
use onesync.Prelude.Text.{Text, codes, split_last}
use onesync.Prelude.Outcome.{Outcome, ok, err, Action, return, fail, ◌>>=◌}
use onesync.Protocol.Enums.{
  FileOpKind, FileOpStatus, upload, download, local_delete, remote_delete, local_mkdir,
  remote_mkdir, local_rename, remote_rename,
}
use onesync.Protocol.Path.{AbsPath, valid, invalid, slash, parse_abs}
use onesync.Protocol.Entities.{FileOp, get_str}
use onesync.Engine.Limits.{graph_small_upload_max_bytes}
use onesync.Engine.Ports.{Ports, LocalFsError, GraphError}

pub data ExecError : Type 0 where
  local : LocalFsError → ExecError
  remote : GraphError → ExecError
  not_implemented : FileOpKind → ExecError
  invalid_op : String → ExecError

unfoldable pub is_retriable : ExecError → Bool
is_retriable (local LocalFsError.raced) = true
is_retriable (local (LocalFsError.io detail)) = true
is_retriable (remote (GraphError.throttled retry_after_s)) = true
is_retriable (remote (GraphError.transient detail)) = true
is_retriable (remote (GraphError.network detail)) = true
is_retriable _ = false

-- `rel.rsplit('/').next()`.
abbrev pub leaf_name : Text → Text
leaf_name rel = elim (split_last slash rel) [ some (dir, leaf) ↦ leaf | none ↦ rel ]

abbrev pub or_empty : Option Text → Text
or_empty (some t) = t
or_empty none = []

module _ (P : Ports) where
  abbrev X : Type 0 → Type 0
  X A = Action ExecError P.Env A

  abbrev wrap {ℓ} :
      {E : Type ℓ} {A : Type 0} → (E → ExecError) → Outcome E P.Env A → Outcome ExecError P.Env A
  wrap f (ok a e) = ok a e
  wrap f (err x e) = err (f x) e

  abbrev on_disk : {A : Type 0} → Action LocalFsError P.Env A → X A
  on_disk call e = wrap local (call e)

  abbrev on_drive : {A : Type 0} → Action GraphError P.Env A → X A
  on_drive call e = wrap remote (call e)

  -- The text of an error; of `InvalidOp` only the key that is missing.
  unfoldable pub exec_text : ExecError → Text
  exec_text (local e) = codes "local fs: " ++ P.local_text e
  exec_text (remote e) = codes "remote: " ++ P.graph_text e
  exec_text (not_implemented kind) = codes "not implemented"
  exec_text (invalid_op key) = codes "invalid op: " ++ codes key

  unfoldable pub require_meta_str : FileOp → String → X Text
  require_meta_str op key = elim (get_str key op.metadata) [
    | some t ↦ return t
    | none ↦ fail (invalid_op key)
  ]

  unfoldable pub join_path : AbsPath → Text → X AbsPath
  join_path root rel = elim (parse_abs (root.as_str ++ (slash ∷ rel))) [
    | valid path ↦ return path
    | invalid e ↦ fail (local (LocalFsError.invalid_path rel))
  ]

  unfoldable pub execute_local_mkdir : FileOp → AbsPath → X FileOpStatus
  unfolding join_path
  execute_local_mkdir op root = do
    abs ← join_path root op.relative_path.as_str
    _ ← on_disk (P.mkdir_p abs)
    return FileOpStatus.success

  -- A file that is already gone counts as deleted.
  abbrev deleted_locally :
      Outcome LocalFsError P.Env (Unit {0}) → Outcome ExecError P.Env FileOpStatus
  deleted_locally (ok _ e) = ok FileOpStatus.success e
  deleted_locally (err (LocalFsError.not_found path) e) = ok FileOpStatus.success e
  deleted_locally (err x e) = err (local x) e

  unfoldable pub execute_local_delete : FileOp → AbsPath → X FileOpStatus
  unfolding join_path
  execute_local_delete op root = do
    abs ← join_path root op.relative_path.as_str
    λ e. deleted_locally (P.delete abs e)

  -- A missing identifier is the empty one.
  unfoldable pub execute_download : FileOp → AbsPath → X FileOpStatus
  unfolding join_path
  execute_download op root = do
    bytes ← on_drive (P.download (or_empty (get_str "remote_item_id" op.metadata)))
    abs ← join_path root op.relative_path.as_str
    _ ← on_disk (P.write_atomic abs bytes)
    return FileOpStatus.success

  -- A file above the limit opens an upload session, whose address is dropped.
  abbrev send : Text → Text → List ℕ → X FileOpStatus
  send parent_id name contents =
      if leb (length contents) graph_small_upload_max_bytes
      then (on_drive (P.upload_small parent_id name contents) >>= λ _. return FileOpStatus.success)
      else (on_drive (P.upload_session parent_id name (length contents)) >>= λ _.
          return FileOpStatus.success)

  unfoldable pub execute_upload : FileOp → AbsPath → X FileOpStatus
  unfolding join_path
  execute_upload op root = do
    abs ← join_path root op.relative_path.as_str
    contents ← on_disk (P.read abs)
    send (or_empty (get_str "parent_remote_id" op.metadata)) (leaf_name op.relative_path.as_str)
        contents

  unfoldable pub execute_remote_mkdir : FileOp → X FileOpStatus
  unfolding require_meta_str
  execute_remote_mkdir op = do
    parent ← require_meta_str op "parent_remote_id"
    _ ← on_drive (P.remote_mkdir parent (leaf_name op.relative_path.as_str))
    return FileOpStatus.success

  abbrev deleted_remotely :
      Outcome GraphError P.Env (Unit {0}) → Outcome ExecError P.Env FileOpStatus
  deleted_remotely (ok _ e) = ok FileOpStatus.success e
  deleted_remotely (err GraphError.not_found e) = ok FileOpStatus.success e
  deleted_remotely (err x e) = err (remote x) e

  unfoldable pub execute_remote_delete : FileOp → X FileOpStatus
  unfolding require_meta_str
  execute_remote_delete op = do
    item ← require_meta_str op "remote_item_id"
    λ e. deleted_remotely (P.remote_delete item e)

  unfoldable pub execute_local_rename : FileOp → AbsPath → X FileOpStatus
  unfolding require_meta_str join_path
  execute_local_rename op root = do
    new_path ← require_meta_str op "new_path"
    from ← join_path root op.relative_path.as_str
    to ← join_path root new_path
    _ ← on_disk (P.rename from to)
    return FileOpStatus.success

  -- The new leaf name, or the leaf of the new path.
  abbrev new_leaf : FileOp → X Text
  new_leaf op = elim (get_str "new_name" op.metadata) [
    | some name ↦ return name
    | none ↦ elim (get_str "new_path" op.metadata) [
      | some path ↦ return (leaf_name path)
      | none ↦ fail (invalid_op "new_name")
    ]
  ]

  unfoldable pub execute_remote_rename : FileOp → X FileOpStatus
  unfolding require_meta_str
  execute_remote_rename op = do
    item ← require_meta_str op "remote_item_id"
    name ← new_leaf op
    _ ← on_drive (P.remote_rename item name)
    return FileOpStatus.success

  abbrev dispatch : FileOpKind → FileOp → AbsPath → X FileOpStatus
  dispatch local_mkdir op root = execute_local_mkdir op root
  dispatch local_delete op root = execute_local_delete op root
  dispatch download op root = execute_download op root
  dispatch upload op root = execute_upload op root
  dispatch remote_mkdir op root = execute_remote_mkdir op
  dispatch remote_delete op root = execute_remote_delete op
  dispatch local_rename op root = execute_local_rename op root
  dispatch remote_rename op root = execute_remote_rename op

  unfoldable pub execute : FileOp → AbsPath → X FileOpStatus
  unfolding execute_local_mkdir execute_local_delete execute_download execute_upload
      execute_remote_mkdir execute_remote_delete execute_local_rename execute_remote_rename
  execute op root = dispatch op.kind op root
