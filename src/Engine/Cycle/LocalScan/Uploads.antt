-- ===== src/Engine/Cycle/LocalScan/Uploads.antt =====
-- What the local scan decides, and how it counts.
use onesync.Prelude.{
  ◌+◌, ◌≤◌, ◌≡◌, refl, Bool, true, false, inl, inr, Option, none, some, List, [], ◌∷◌, arith,
}
use onesync.Prelude.Tests.{Bool-cases}
use onesync.Prelude.Lists.{length, length-append, All, All-append}
use onesync.Prelude.Text.{Text}
use onesync.Prelude.Outcome.{Outcome, ok, err, and_then, return, Returns}
use onesync.Protocol.Enums.{FileKind, file, directory}
use onesync.Protocol.FileSide.{FileSide}
use onesync.Protocol.Path.{RelPath}
use onesync.Protocol.Remote.{RemoteItem, is_folder}
use onesync.Protocol.Entities.{FileEntry}
use onesync.Engine.Types.{Decision, DecisionKind, upload, remote_mkdir}
use onesync.Engine.Ports.{
  Ports, World, EngineError, LocalScan, LocalFsError, env_result, local_port,
}
use onesync.Engine.Cycle.Context.{CycleCtx, entry_of}
use onesync.Engine.Cycle.Sides.{rel_from_abs}
use onesync.Engine.Cycle.Collisions.{ItemMap, lookup, find_case_collision}
use onesync.Engine.Cycle.LocalScan.{
  LocalUploadOutcome, contains, needs_upload, upload_kind, shared, uploaded, upload_if, upload_path,
  new_path, visit, visit_entry, visit_all, phase_local_uploads,
}

abbrev pub is_upload : DecisionKind → Bool
is_upload upload = true
is_upload remote_mkdir = true
is_upload _ = false

module _ (P : Ports) (ctx : CycleCtx) (already_decided : List RelPath) (items : ItemMap) where
  -- A decision that only sends, for a path that is not decided yet.
  abbrev pub Sends : Decision → Type 0
  Sends d = (is_upload d.kind ≡ true) × (contains d.relative_path already_decided ≡ false)

  -- Every decision sends, and each path counted gave at most one decision or one recorded collision.
  abbrev pub Sound : LocalUploadOutcome → Type 0
  Sound o =
      All Sends o.decisions × (length o.decisions + o.collisions_recorded ≤ o.local_events_seen)

  -- With one path counted that gave nothing yet.
  abbrev Pending : LocalUploadOutcome → Type 0
  Pending o =
      All Sends o.decisions × (length o.decisions + o.collisions_recorded + 1 ≤ o.local_events_seen)

  upload_kind-is_upload : (kind : FileKind) → is_upload (upload_kind kind) ≡ true
  upload_kind-is_upload file = refl
  upload_kind-is_upload directory = refl

  uploaded-Sound :
      (p : RelPath) (side : FileSide) (o : LocalUploadOutcome)
      → contains p already_decided ≡ false
      → Pending o
      → Sound (uploaded P ctx already_decided items p side o)
  uploaded-Sound p side o new h = (
    All-append Sends o.decisions _ h.0 ((upload_kind-is_upload side.kind, new), tt),
    omega (
      arith,
      h.1,
      length-append o.decisions
          (record { pair_id = ctx.pair_id; relative_path = p; kind = upload_kind side.kind } ∷ []),
    ),
  )

  settle_step :
      (o : LocalUploadOutcome) (r : Outcome EngineError (World P) (Unit {0}))
      → Sound o
      → Returns Sound (and_then r (λ _. return o))
  settle_step o (ok u w) h = h
  settle_step o (err x w) h = tt

  upload_if-Sound :
      (needed : Bool) (p : RelPath) (side : FileSide) (entry : Option FileEntry)
      (o : LocalUploadOutcome) (w : World P)
      → contains p already_decided ≡ false
      → Pending o
      → Returns Sound (upload_if P ctx already_decided items needed p side entry o w)
  upload_if-Sound false p side entry o w new h = (h.0, omega (arith, h.1))
  upload_if-Sound true p side entry o w new h = settle_step _ _ (uploaded-Sound p side o new h)

  entry_step :
      (p : RelPath) (side : FileSide) (o : LocalUploadOutcome)
      (r : Outcome EngineError (World P) (Option FileEntry))
      → contains p already_decided ≡ false
      → Pending o
      → Returns Sound (
          and_then r (λ entry.
            upload_if P ctx already_decided items (needs_upload side entry) p side entry o))
  entry_step p side o (ok entry w) new h =
      upload_if-Sound (needs_upload side entry) p side entry o w new h
  entry_step p side o (err x w) new h = tt

  new_path-Sound :
      (p : RelPath) (side : FileSide) (collision : Option RelPath) (o : LocalUploadOutcome)
      (w : World P)
      → contains p already_decided ≡ false
      → Pending o
      → Returns Sound (new_path P ctx already_decided items p side collision o w)
  unfolding upload_path
  new_path-Sound p side none o w new h = entry_step p side o (entry_of P ctx p w) new h
  new_path-Sound p side (some q) o w new h =
      settle_step (record o { collisions_recorded = o.collisions_recorded + 1 }) _
        (h.0, omega (arith, h.1))

  shared-Sound :
      (p : RelPath) (side : FileSide) (item : Option RemoteItem) (o : LocalUploadOutcome)
      → Sound o
      → Sound (shared p side item o)
  shared-Sound p side none o h = h
  shared-Sound p side (some item) o h = elim (Bool-cases (is_folder item)) [
    | inl c ↦ rw c h
    | inr c ↦ rw c h
  ]

  visit_entry-Sound :
      (path : Option RelPath) (side : FileSide) (o : LocalUploadOutcome) (w : World P)
      → Sound o
      → Returns Sound (visit_entry P ctx already_decided items path side o w)
  unfolding visit
  visit_entry-Sound none side o w h = h
  visit_entry-Sound (some p) side o w h = elim (Bool-cases (contains p already_decided)) [
    | inl c ↦ rw c (shared-Sound p side (lookup p items) o h)
    | inr c ↦ rw c (
        new_path-Sound p side (find_case_collision P p items)
          (record o { local_events_seen = o.local_events_seen + 1 }) w c (h.0, omega (arith, h.1)))
  ]

  visit_step :
      (entries : List (Option Text × FileSide))
      (r : Outcome EngineError (World P) LocalUploadOutcome)
      → Returns Sound r
      → ((o : LocalUploadOutcome) (w : World P)
          → Sound o
          → Returns Sound (visit_all P ctx already_decided items entries o w))
      → Returns Sound (and_then r (visit_all P ctx already_decided items entries))
  visit_step entries (ok o w) h ih = ih o w h
  visit_step entries (err x w) h ih = tt

  visit_all-Sound :
      (entries : List (Option Text × FileSide)) (o : LocalUploadOutcome) (w : World P)
      → Sound o
      → Returns Sound (visit_all P ctx already_decided items entries o w)
  unfolding visit_all
  visit_all-Sound [] o w h = h
  visit_all-Sound ((abs_path, side) ∷ entries) o w h =
      visit_step entries _
        (visit_entry-Sound (rel_from_abs P.nfc ctx.local_root abs_path) side o w h)
        (visit_all-Sound entries)

  scan_step :
      (r : Outcome LocalFsError P.Env LocalScan) (s : P.Store)
      → Returns Sound (
          and_then (env_result P local_port r s) (λ scan.
            visit_all P ctx already_decided items scan.entries (record {
              decisions = [];
              local_events_seen = 0;
              collisions_recorded = 0;
              initial_sync_collisions = [];
            })))
  scan_step (ok scan e) s = visit_all-Sound scan.entries _ (s, e) (tt, omega arith)
  scan_step (err x e) s = tt

  -- Whenever the local phase returns, it has decided only uploads and directories made remotely, none
  -- of them for a path that the delta phase has decided, and its decisions and the collisions it
  -- recorded together are at most the local paths it counted.
  pub phase_local_uploads-Sound :
      (w : World P) → Returns Sound (phase_local_uploads P ctx already_decided items w)
  unfolding phase_local_uploads
  phase_local_uploads-Sound w = scan_step (P.scan ctx.local_root w.1) w.0
