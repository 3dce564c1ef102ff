-- ===== src/Engine/Cycle/Collisions.antt =====
-- The handling of names that differ in case only, in cycle.rs: losers of one delta page, a delta
-- item against a tracked row, and a local file against the live remote items.
use onesync.Prelude.{String, Bool, true, false, not, ◌&&◌, Option, none, some, List, [], ◌∷◌, ◌++◌}
use onesync.Prelude.Tests.{if◌then◌else◌}
use onesync.Prelude.Equality.{nat_eq, list_eq}
use onesync.Prelude.Lists.{find}
use onesync.Prelude.Text.{Text}
use onesync.Prelude.Outcome.{return, fail, ◌>>=◌, ◌>>◌}
use onesync.Protocol.Enums.{ConflictSide, pending_conflict}
use onesync.Protocol.FileSide.{FileSide, Timestamp}
use onesync.Protocol.Path.{RelPath, rel_beq, parse_rel, valid, invalid, ok}
use onesync.Protocol.Remote.{RemoteItem}
use onesync.Protocol.Entities.{FileEntry, JsonMap, string, insert}
use onesync.Engine.Ports.{
  Ports, M, EngineError, rename_target_invalid, cannot_join, state, local_fs, tell,
}
use onesync.Engine.Observability.{warning}
use onesync.Engine.CaseCollision.{case_collision_rename_target, case_folds_equal}
use onesync.Engine.Executor.{leaf_name}
use onesync.Engine.Cycle.Context.{CycleCtx, now, new_id, entry_of, upsert, warn_about}
use onesync.Engine.Cycle.Sides.{
  build_rel_path_from_item, remote_side_from_item, synthetic_remote_side, join_abs,
}
use onesync.Engine.Cycle.Buckets.{Dropped}

-- A remote rename to make: the current path, the item and the new leaf name.
pub record CollisionRename : Type 0 where
  pub path : RelPath
  pub item_id : Text
  pub new_leaf : Text

-- The live items of a delta page by path, the newest value of each.
abbrev pub ItemMap : Type 0
ItemMap = List (RelPath × RemoteItem)

abbrev pub lookup : RelPath → ItemMap → Option RemoteItem
lookup p [] = none
lookup p ((q, item) ∷ m) = if rel_beq q p then some item else lookup p m

abbrev pub insert_item : RelPath → RemoteItem → ItemMap → ItemMap
insert_item p item [] = (p, item) ∷ []
insert_item p item ((q, old) ∷ m) =
    if rel_beq q p then (p, item) ∷ m else (q, old) ∷ insert_item p item m

-- The texts of an audit payload.
abbrev pub payload_of : List (String × Text) → JsonMap
payload_of [] = []
payload_of ((k, t) ∷ rest) = insert k (string t) (payload_of rest)

module _ (P : Ports) where
  abbrev pub path_of : RemoteItem → Option RelPath
  path_of item = build_rel_path_from_item P.nfc item

  -- The leaf of the disambiguated name, where that name is a valid path.
  abbrev pub renamed_leaf : RelPath → Option Text
  renamed_leaf p = elim (parse_rel P.nfc (case_collision_rename_target P.short_hash p)) [
    | valid target ↦ some (leaf_name target.as_str)
    | invalid e ↦ none
  ]

  abbrev has_path : RelPath → Option RelPath → Bool
  has_path p none = false
  has_path p (some q) = rel_beq q p

  abbrev rename_of : RelPath → List RemoteItem → Option Text → List CollisionRename
  rename_of dropped items none = []
  rename_of dropped items (some new_leaf) = elim (find (λ i. has_path dropped (path_of i)) items) [
    | none ↦ []
    | some item ↦ record { path = dropped; item_id = item.id; new_leaf = new_leaf } ∷ []
  ]

  unfoldable pub process_remote_case_collisions :
      CycleCtx → List RemoteItem → Dropped → M P (List CollisionRename)
  process_remote_case_collisions ctx items [] = return []
  process_remote_case_collisions ctx items ((dropped, canonical) ∷ rest) = do
    warn_about P ctx "remote.case_collision.dropped"
        (payload_of (("canonical", canonical.as_str) ∷ (("dropped", dropped.as_str) ∷ [])))
    renames ← process_remote_case_collisions ctx items rest
    return (rename_of dropped items (renamed_leaf dropped) ++ renames)

  abbrev colliding_rename : RelPath → RemoteItem → Option Text → List CollisionRename
  colliding_rename rel_path item none = []
  colliding_rename rel_path item (some new_leaf) =
      record { path = rel_path; item_id = item.id; new_leaf = new_leaf } ∷ []

  abbrev report_collision :
      CycleCtx → RelPath → RemoteItem → FileEntry → M P (Bool × List CollisionRename)
  report_collision ctx rel_path item existing = do
    warn_about P ctx "file_entry.case_collision_detected" (
        payload_of (
          ("existing_path", existing.relative_path.as_str)
          ∷ (("delta_path", rel_path.as_str) ∷ [])))
    return (true, colliding_rename rel_path item (renamed_leaf rel_path))

  abbrev skip_if_other :
      CycleCtx → RelPath → RemoteItem → Option FileEntry → M P (Bool × List CollisionRename)
  skip_if_other ctx rel_path item none = return (false, [])
  skip_if_other ctx rel_path item (some existing) =
      if rel_beq existing.relative_path rel_path
      then return (false, [])
      else report_collision ctx rel_path item existing

  -- Whether the item is skipped, and the renames to append.
  unfoldable pub skip_for_case_collision :
      CycleCtx → RelPath → RemoteItem → M P (Bool × List CollisionRename)
  skip_for_case_collision ctx rel_path item = do
    existing ← state P (P.file_entry_get_ci ctx.pair_id rel_path)
    skip_if_other ctx rel_path item existing

  -- The first key that is another path and folds to the same text.
  unfoldable pub find_case_collision : RelPath → ItemMap → Option RelPath
  find_case_collision path [] = none
  find_case_collision path ((remote, item) ∷ m) =
      if not (rel_beq remote path) && case_folds_equal P.nfc P.to_lowercase remote path
      then some remote
      else find_case_collision path m

  abbrev or_fail : {A : Type 0} → Option A → EngineError → M P A
  or_fail none e = fail e
  or_fail (some a) e = return a

  abbrev clear_local : CycleCtx → Timestamp → Option FileEntry → M P (Unit {0})
  clear_local ctx ts none = return tt
  clear_local ctx ts (some existing) =
      upsert P (record existing { local = none; sync_state = pending_conflict; updated_at = ts })

  abbrev recorded_side : Option RemoteItem → Timestamp → FileSide
  recorded_side none ts = synthetic_remote_side P.unix_epoch
  recorded_side (some item) ts = remote_side_from_item item ts

  -- Renames the local file, records the conflict, clears the local side of the old row, and audits.
  unfoldable pub handle_case_collision :
      CycleCtx → RelPath → FileSide → RelPath → ItemMap → M P (Unit {0})
  handle_case_collision ctx local_rel local_side remote_rel items = do
    ts ← now P
    let target = case_collision_rename_target P.short_hash local_rel
    loser_rel ← or_fail (ok (parse_rel P.nfc target)) (rename_target_invalid target)
    from_abs ← or_fail (join_abs ctx.local_root local_rel) (cannot_join local_rel)
    to_abs ← or_fail (join_abs ctx.local_root loser_rel) (cannot_join loser_rel)
    local_fs P (P.rename from_abs to_abs)
    id ← new_id P
    state P (
        P.conflict_insert (record {
          id = id;
          pair_id = ctx.pair_id;
          relative_path = remote_rel;
          winner = ConflictSide.remote;
          loser_relative_path = loser_rel;
          local_side = local_side;
          remote_side = recorded_side (lookup remote_rel items) ts;
          detected_at = ts;
          resolved_at = none;
          resolution = none;
          note = none;
        }))
    existing ← entry_of P ctx local_rel
    clear_local ctx ts existing
    event_id ← new_id P
    tell P (
        warning event_id ts "local.case_collision.renamed" ctx.pair_id (
          payload_of (
            ("remote_path", remote_rel.as_str)
            ∷ (("to", loser_rel.as_str) ∷ (("from", local_rel.as_str) ∷ [])))))
