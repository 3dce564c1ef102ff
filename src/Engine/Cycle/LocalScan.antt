-- ===== src/Engine/Cycle/LocalScan.antt =====
-- `phase_local_uploads` and `apply_initial_sync_collisions` of cycle.rs.
pub mod Promoted
pub mod Uploads
use onesync.Prelude.{ℕ, ◌+◌, Bool, true, false, not, ◌&&◌, Option, none, some, List, [], ◌∷◌, ◌++◌}
use onesync.Prelude.Tests.{if◌then◌else◌}
use onesync.Prelude.Lists.{any}
use onesync.Prelude.Text.{Text}
use onesync.Prelude.Outcome.{return, ◌>>=◌, ◌>>◌}
use onesync.Protocol.Enums.{FileKind, directory, kind_beq, pending_upload}
use onesync.Protocol.FileSide.{FileSide, Timestamp}
use onesync.Protocol.Path.{RelPath, rel_beq}
use onesync.Protocol.Remote.{RemoteItem, is_folder}
use onesync.Protocol.Entities.{FileEntry, RowId}
use onesync.Engine.Types.{Decision, DecisionKind, upload, remote_mkdir, conflict_detected, download}
use onesync.Engine.Reconcile.{is_action_blocking}
use onesync.Engine.Ports.{Ports, M, LocalScan, local_fs}
use onesync.Engine.Cycle.Context.{CycleCtx, now, entry_of, upsert}
use onesync.Engine.Cycle.Sides.{rel_from_abs, local_diverges_from_synced}
use onesync.Engine.Cycle.Collisions.{ItemMap, lookup, find_case_collision, handle_case_collision}

pub record LocalUploadOutcome : Type 0 where
  pub decisions : List Decision
  pub local_events_seen : ℕ
  pub collisions_recorded : ℕ
  pub initial_sync_collisions : List (RelPath × FileSide)

abbrev pub contains : RelPath → List RelPath → Bool
contains p = any (λ q. rel_beq q p)

unfoldable pub needs_upload : FileSide → Option FileEntry → Bool
unfolding local_diverges_from_synced is_action_blocking
needs_upload side none = true
needs_upload side (some e) =
    not (is_action_blocking e.sync_state) && local_diverges_from_synced side e.synced

abbrev and_then_of {ℓ} : {A : Type ℓ} → Option FileEntry → (FileEntry → Option A) → Option A
and_then_of none f = none
and_then_of (some e) f = f e

-- The row that is written before the upload.
unfoldable pub pending_entry : RowId → RelPath → FileSide → Option FileEntry → Timestamp → FileEntry
pending_entry pair_id rel_path side entry ts = record {
  pair_id = pair_id;
  relative_path = rel_path;
  kind = side.kind;
  sync_state = pending_upload;
  local = some side;
  remote = and_then_of entry (λ e. e.remote);
  synced = and_then_of entry (λ e. e.synced);
  pending_op_id = and_then_of entry (λ e. e.pending_op_id);
  updated_at = ts;
}

abbrev pub upload_kind : FileKind → DecisionKind
upload_kind kind = if kind_beq kind directory then remote_mkdir else upload

-- A path the remote phase decided: a live remote file there is an initial-sync collision.
abbrev pub shared : RelPath → FileSide → Option RemoteItem → LocalUploadOutcome → LocalUploadOutcome
shared rel_path side none o = o
shared rel_path side (some item) o =
    if is_folder item
    then o
    else record o { initial_sync_collisions = o.initial_sync_collisions ++ ((rel_path, side) ∷ []) }

module _ (P : Ports) (ctx : CycleCtx) (already_decided : List RelPath) (items : ItemMap) where
  abbrev pub uploaded : RelPath → FileSide → LocalUploadOutcome → LocalUploadOutcome
  uploaded rel_path side o = record o {
    decisions =
        o.decisions
        ++ (record { pair_id = ctx.pair_id; relative_path = rel_path; kind = upload_kind side.kind }
            ∷ []);
  }

  abbrev pub upload_if :
      Bool → RelPath → FileSide → Option FileEntry → LocalUploadOutcome → M P LocalUploadOutcome
  upload_if false rel_path side entry o = return o
  upload_if true rel_path side entry o = do
    ts ← now P
    upsert P (pending_entry ctx.pair_id rel_path side entry ts)
    return (uploaded rel_path side o)

  -- The upload of a path that needs one; `o` has the path counted.
  unfoldable pub upload_path : RelPath → FileSide → LocalUploadOutcome → M P LocalUploadOutcome
  unfolding needs_upload pending_entry
  upload_path rel_path side o =
      entry_of P ctx rel_path >>= λ entry. upload_if (needs_upload side entry) rel_path side entry o

  abbrev pub new_path :
      RelPath → FileSide → Option RelPath → LocalUploadOutcome → M P LocalUploadOutcome
  new_path rel_path side none o = upload_path rel_path side o
  new_path rel_path side (some remote_path) o = do
    handle_case_collision P ctx rel_path side remote_path items
    return (record o { collisions_recorded = o.collisions_recorded + 1 })

  unfoldable pub visit : RelPath → FileSide → LocalUploadOutcome → M P LocalUploadOutcome
  visit rel_path side o =
      if contains rel_path already_decided
      then return (shared rel_path side (lookup rel_path items) o)
      else new_path rel_path side (find_case_collision P rel_path items)
          (record o { local_events_seen = o.local_events_seen + 1 })

  abbrev pub visit_entry : Option RelPath → FileSide → LocalUploadOutcome → M P LocalUploadOutcome
  visit_entry none side o = return o
  visit_entry (some rel_path) side o = visit rel_path side o

  unfoldable pub visit_all :
      List (Option Text × FileSide) → LocalUploadOutcome → M P LocalUploadOutcome
  visit_all [] o = return o
  visit_all ((abs_path, side) ∷ entries) o =
      visit_entry (rel_from_abs P.nfc ctx.local_root abs_path) side o >>= visit_all entries

  unfoldable pub phase_local_uploads : M P LocalUploadOutcome
  phase_local_uploads = do
    found ← local_fs P (P.scan ctx.local_root)
    visit_all found.entries (record {
      decisions = [];
      local_events_seen = 0;
      collisions_recorded = 0;
      initial_sync_collisions = [];
    })

abbrev pub is_download : DecisionKind → Bool
is_download download = true
is_download _ = false

abbrev pub is_download_at : RelPath → Decision → Bool
is_download_at rel d = rel_beq d.relative_path rel && is_download d.kind

-- `iter_mut().find(…)`: the first download at the path becomes a conflict; the flag says whether.
unfoldable pub promote : RelPath → List Decision → List Decision × Bool
promote rel [] = ([], false)
promote rel (d ∷ ds) =
    let (ds', found) = promote rel ds in
    if is_download_at rel d
    then (record d { kind = conflict_detected } ∷ ds, true)
    else (d ∷ ds', found)

module _ (P : Ports) (ctx : CycleCtx) where
  abbrev pub attach : FileSide → Timestamp → Option FileEntry → M P (Unit {0})
  attach side ts none = return tt
  attach side ts (some entry) = upsert P (record entry { local = some side; updated_at = ts })

  unfoldable pub apply_initial_sync_collisions :
      List Decision → List (RelPath × FileSide) → ℕ → M P (List Decision × ℕ)
  unfolding promote
  apply_initial_sync_collisions ds [] upgraded = return (ds, upgraded)
  apply_initial_sync_collisions ds ((rel, side) ∷ rest) upgraded = do
    let (ds', found) = promote rel ds
    ts ← now P
    entry ← entry_of P ctx rel
    attach side ts entry
    apply_initial_sync_collisions ds' rest (if found then upgraded + 1 else upgraded)
