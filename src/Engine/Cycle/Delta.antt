-- ===== src/Engine/Cycle/Delta.antt =====
-- `phase_delta_reconcile` of cycle.rs.
pub mod Counts
use onesync.Prelude.{ℕ, ◌+◌, Bool, true, false, not, ◌&&◌, Option, none, some, List, [], ◌∷◌, ◌++◌}
use onesync.Prelude.Tests.{if◌then◌else◌, is_some}
use onesync.Prelude.Lists.{length}
use onesync.Prelude.Outcome.{return, ◌>>=◌, ◌>>◌}
use onesync.Protocol.FileSide.{Timestamp, FileSide}
use onesync.Protocol.Path.{RelPath}
use onesync.Protocol.Remote.{RemoteItem, DeltaPage, DeltaCursor, is_deleted}
use onesync.Protocol.Entities.{FileEntry}
use onesync.Engine.Types.{Decision, is_conflict}
use onesync.Engine.Reconcile.{reconcile_one}
use onesync.Engine.Ports.{Ports, M, drive}
use onesync.Engine.Cycle.Context.{CycleCtx, now, entry_of, upsert}
use onesync.Engine.Cycle.Sides.{remote_side_from_item, build_remote_observation}
use onesync.Engine.Cycle.Buckets.{Dropped, is_dropped, detect_remote_case_collisions}
use onesync.Engine.Cycle.Collisions.{
  CollisionRename, ItemMap, insert_item, path_of, process_remote_case_collisions,
  skip_for_case_collision,
}

pub record DeltaReconcileOutcome : Type 0 where
  pub decisions : List Decision
  pub conflicts_detected : ℕ
  pub remote_items_seen : ℕ
  pub delta_token : Option DeltaCursor
  pub collision_renames : List CollisionRename
  pub remote_items_by_path : ItemMap

-- The variables that the loop over the items changes.
pub record Progress : Type 0 where
  pub decisions : List Decision
  pub conflicts_detected : ℕ
  pub collision_renames : List CollisionRename
  pub remote_items_by_path : ItemMap

abbrev pub live : RemoteItem → Option RemoteItem
live item = if is_deleted item then none else some item

abbrev remember : RelPath → Option RemoteItem → ItemMap → ItemMap
remember rel_path none m = m
remember rel_path (some item) m = insert_item rel_path item m

abbrev observed : Option RemoteItem → Timestamp → Option FileSide
observed none ts = none
observed (some item) ts = some (remote_side_from_item item ts)

abbrev pub count_conflict : Decision → ℕ → ℕ
count_conflict d n = if is_conflict d.kind then n + 1 else n

-- The variables before the loop, and what is returned after it.
abbrev pub start : List CollisionRename → Progress
start renames = record {
  decisions = [];
  conflicts_detected = 0;
  collision_renames = renames;
  remote_items_by_path = [];
}

abbrev pub outcome_of : DeltaPage → Progress → DeltaReconcileOutcome
outcome_of page p = record {
  decisions = p.decisions;
  conflicts_detected = p.conflicts_detected;
  remote_items_seen = length page.items;
  delta_token = page.delta_token;
  collision_renames = p.collision_renames;
  remote_items_by_path = p.remote_items_by_path;
}

module _ (P : Ports) (ctx : CycleCtx) where
  abbrev pub persist : Option FileEntry → M P (Unit {0})
  persist none = return tt
  persist (some entry) = upsert P entry

  -- The case-insensitive lookup is made only for a live item whose path has no row.
  abbrev pub skipped : RelPath → RemoteItem → Option FileEntry → M P (Bool × List CollisionRename)
  skipped rel_path item entry =
      if not (is_some entry) && not (is_some item.deleted)
      then skip_for_case_collision P ctx rel_path item
      else return (false, [])

  -- The rest of the loop body: persist the observation, then decide.
  unfoldable pub observe : RelPath → RemoteItem → Option FileEntry → Progress → M P Progress
  unfolding build_remote_observation remote_side_from_item reconcile_one
  observe rel_path item entry p = do
    ts ← now P
    let item? = live item
    persist (build_remote_observation ctx.pair_id rel_path entry item? (observed item? ts) ts)
    let decision = reconcile_one ctx.pair_id rel_path entry item?
    return (record {
      decisions = p.decisions ++ (decision ∷ []);
      conflicts_detected = count_conflict decision p.conflicts_detected;
      collision_renames = p.collision_renames;
      remote_items_by_path = remember rel_path item? p.remote_items_by_path;
    })

  abbrev pub unless_skipped :
      RelPath
      → RemoteItem
      → Option FileEntry
      → Progress
      → Bool × List CollisionRename
      → M P Progress
  unless_skipped rel_path item entry p (true, renames) =
      return (record p { collision_renames = p.collision_renames ++ renames })
  unless_skipped rel_path item entry p (false, renames) =
      observe rel_path item entry (record p { collision_renames = p.collision_renames ++ renames })

  abbrev pub look_up : RemoteItem → Progress → RelPath → M P Progress
  look_up item p rel_path = do
    entry ← entry_of P ctx rel_path
    skip ← skipped rel_path item entry
    unless_skipped rel_path item entry p skip

  abbrev pub at_path : Dropped → RemoteItem → Progress → Option RelPath → M P Progress
  at_path dropped item p none = return p
  at_path dropped item p (some rel_path) =
      if is_dropped rel_path dropped then return p else look_up item p rel_path

  unfoldable pub process_item : Dropped → RemoteItem → Progress → M P Progress
  process_item dropped item p = at_path dropped item p (path_of P item)

  unfoldable pub process_items : Dropped → List RemoteItem → Progress → M P Progress
  process_items dropped [] p = return p
  process_items dropped (item ∷ items) p =
      process_item dropped item p >>= process_items dropped items

  abbrev pub found : DeltaPage → M P DeltaReconcileOutcome
  found page = do
    let dropped = detect_remote_case_collisions P.nfc P.to_lowercase page.items
    renames ← process_remote_case_collisions P ctx page.items dropped
    p ← process_items dropped page.items (start renames)
    return (outcome_of page p)

  unfoldable pub phase_delta_reconcile : M P DeltaReconcileOutcome
  phase_delta_reconcile = drive P (P.delta ctx.drive_id ctx.cursor) >>= found
