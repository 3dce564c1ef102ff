-- ===== src/Engine/Cycle/Execute/Settled.antt =====
-- A row settled after an operation, as the next decision sees it.
use onesync.Prelude.{◌≡◌, true, Option, none, some, arith}
use onesync.Prelude.Tests.{if◌then◌else◌}
use onesync.Prelude.Equality.{nat_eq, list_eq, option_eq, beq_refl}
use onesync.Protocol.Enums.{download}
use onesync.Protocol.FileSide.{FileSide, Timestamp, identifies_same_content_as}
use onesync.Protocol.Path.{RelPath}
use onesync.Protocol.Remote.{RemoteItem, is_folder}
use onesync.Protocol.Entities.{RowId, FileEntry}
use onesync.Engine.Types.{DecisionKind, conflict_detected, remote_mkdir}
use onesync.Engine.Reconcile.{
  reconcile_kind, remote_differs_from_synced, local_differs_from_synced, is_action_blocking,
}
use onesync.Engine.Cycle.Sides.{build_remote_observation, remote_side_from_item}
use onesync.Engine.Cycle.Execute.{settled}

identifies_refl : (a : FileSide) → identifies_same_content_as a a ≡ true
unfolding identifies_same_content_as
identifies_refl a = ground (arith, beq_refl a.content_hash)

-- The first observation of a live item at a path that has no row, then a successful download.
abbrev pub downloaded : RowId → RelPath → RemoteItem → Timestamp → Timestamp → Option FileEntry
downloaded pair_id path item seen done =
    elim (build_remote_observation pair_id path none (some item)
      (some (remote_side_from_item item seen)) seen) [
        | none ↦ none
        | some e ↦ some (settled download e done)
      ]

-- For a path that was first seen on the drive, and whose row is settled after its download, a live
-- item that comes next is decided as a conflict if it differs from the item downloaded, and as an
-- upload, or a directory made remotely, if it does not.
pub downloaded-reconcile :
    (pair_id : RowId) (path : RelPath) (item next : RemoteItem) (seen done : Timestamp)
    → reconcile_kind (downloaded pair_id path item seen done) (some next) ≡ (
        if remote_differs_from_synced next (some (remote_side_from_item item seen))
        then conflict_detected
        else (if is_folder item then remote_mkdir else DecisionKind.upload))
unfolding settled reconcile_kind local_differs_from_synced is_action_blocking
    build_remote_observation remote_side_from_item
downloaded-reconcile pair_id path item next seen done = ground arith
