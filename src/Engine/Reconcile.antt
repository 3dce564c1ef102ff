-- ===== src/Engine/Reconcile.antt =====
-- crates/onesync-core/src/engine/reconcile.rs: one path's row against the latest remote item.
pub mod Safety
use onesync.Prelude.{ℕ, Bool, true, false, not, ◌&&◌, Option, none, some}
use onesync.Prelude.Tests.{if◌then◌else◌}
use onesync.Prelude.Equality.{◌==◌, nat_eq, list_eq}
use onesync.Prelude.Text.{Text}
use onesync.Protocol.Enums.{
  FileKind, file, directory, kind_beq, FileSyncState, pending_conflict, in_flight,
}
use onesync.Protocol.FileSide.{FileSide, identifies_same_content_as}
use onesync.Protocol.Path.{RelPath}
use onesync.Protocol.Remote.{RemoteItem, is_folder}
use onesync.Protocol.Entities.{FileEntry, RowId}
use onesync.Engine.Types.{
  Decision, DecisionKind, upload, download, local_delete, local_mkdir, remote_mkdir,
  conflict_detected, no_op,
}

abbrev pub is_directory : FileKind → Bool
is_directory kind = kind_beq kind directory

abbrev pub bool_beq : Bool → Bool → Bool
bool_beq true b = b
bool_beq false b = not b

-- An etag on both sides that is the same text.
abbrev pub etags_agree : Option Text → Option Text → Bool
etags_agree (some a) (some b) = a == b
etags_agree _ _ = false

unfoldable pub is_action_blocking : FileSyncState → Bool
is_action_blocking in_flight = true
is_action_blocking pending_conflict = true
is_action_blocking _ = false

unfoldable pub local_equals_remote : FileSide → RemoteItem → Bool
local_equals_remote side item =
    if not (bool_beq (is_directory side.kind) (is_folder item))
    then false
    else if is_directory side.kind
    then true
    else if not (side.size_bytes == item.size)
    then false
    else if side.size_bytes == 0
    then true
    else etags_agree side.etag item.e_tag

-- The part of `remote_differs_from_synced` below the etag comparison.
abbrev pub differs_by_size : FileSide → RemoteItem → Bool
differs_by_size synced item =
    if not (synced.size_bytes == item.size) then true else not (synced.size_bytes == 0)

abbrev pub differs_by_etag : Option Text → Option Text → Bool → Bool
differs_by_etag (some a) (some b) rest = not (a == b)
differs_by_etag (some a) none rest = rest
differs_by_etag none e rest = rest

unfoldable pub remote_differs_from_synced : RemoteItem → Option FileSide → Bool
remote_differs_from_synced item none = true
remote_differs_from_synced item (some synced) =
    if not (bool_beq (is_directory synced.kind) (is_folder item))
    then true
    else differs_by_etag synced.etag item.e_tag (differs_by_size synced item)

unfoldable pub local_differs_from_synced : Option FileSide → Option FileSide → Bool
unfolding identifies_same_content_as
local_differs_from_synced none none = false
local_differs_from_synced none (some s) = true
local_differs_from_synced (some l) none = true
local_differs_from_synced (some l) (some s) = not (identifies_same_content_as l s)

abbrev pub converged : Option FileSide → RemoteItem → Bool
converged none item = false
converged (some side) item = local_equals_remote side item

-- The match on `(local_changed, remote_changed)`.
abbrev act : FileEntry → RemoteItem → Bool → Bool → DecisionKind
act entry item false false = no_op
act entry item false true = if is_folder item then local_mkdir else download
act entry item true false = if is_directory entry.kind then remote_mkdir else upload
act entry item true true = if converged entry.local item then no_op else conflict_detected

unfoldable pub reconcile_both : FileEntry → RemoteItem → DecisionKind
unfolding is_action_blocking
reconcile_both entry item =
    if is_action_blocking entry.sync_state
    then no_op
    else act entry item (local_differs_from_synced entry.local entry.synced)
        (remote_differs_from_synced item entry.synced)

unfoldable pub reconcile_kind : Option FileEntry → Option RemoteItem → DecisionKind
unfolding reconcile_both
reconcile_kind none none = no_op
reconcile_kind none (some item) = if is_folder item then local_mkdir else download
reconcile_kind (some entry) none = local_delete
reconcile_kind (some entry) (some item) = reconcile_both entry item

unfoldable pub reconcile_one : RowId → RelPath → Option FileEntry → Option RemoteItem → Decision
reconcile_one pair_id relative_path entry item = record {
  pair_id = pair_id;
  relative_path = relative_path;
  kind = reconcile_kind entry item;
}
