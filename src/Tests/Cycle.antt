-- ===== src/Tests/Cycle.antt =====
-- The theorems on decisions, plans and cycles at concrete inputs.
use onesync.Prelude.{ℕ, ◌≡◌, refl, inl, inr, true, false, none, some, List, [], ◌∷◌, ◌++◌, map}
use onesync.Prelude.Tests.{if◌then◌else◌}
use onesync.Prelude.Equality.{nat_eq}
use onesync.Prelude.Lists.{keep, All}
use onesync.Prelude.Text.{Text, codes}
use onesync.Prelude.Outcome.{Returns}
use onesync.Protocol.Enums.{FileOpKind, upload, download, enqueued}
use onesync.Protocol.Path.{RelPath}
use onesync.Protocol.Remote.{RemoteItem, is_folder}
use onesync.Protocol.Entities.{FileEntry, FileOp}
use onesync.Engine.Types.{Decision, DecisionKind, conflict_detected, no_op}
use onesync.Engine.Reconcile.{reconcile_kind, remote_differs_from_synced}
use onesync.Engine.Planner.{plan}
use onesync.Engine.Planner.Order.{unnamed, in_phase, wanted, plan-phases}
use onesync.Engine.Cycle.Sides.{remote_side_from_item}
use onesync.Engine.Cycle.Buckets.{is_dropped, collisions_among}
use onesync.Engine.Cycle.Buckets.Survivors.{survivors_differ}
use onesync.Engine.Cycle.Buckets.Canonical.{Stands, collisions_among-Stands}
use onesync.Engine.Cycle.Collisions.{ItemMap}
use onesync.Engine.Cycle.Delta.{phase_delta_reconcile}
use onesync.Engine.Cycle.Delta.Counts.{Answers, phase_delta_reconcile-Answers}
use onesync.Engine.Cycle.LocalScan.{apply_initial_sync_collisions, phase_local_uploads}
use onesync.Engine.Cycle.LocalScan.Promoted.{Raised, apply_initial_sync_collisions-Raised}
use onesync.Engine.Cycle.LocalScan.Uploads.{Sound, phase_local_uploads-Sound}
use onesync.Engine.Cycle.Resolve.{phase_resolve_conflicts}
use onesync.Engine.Cycle.Resolve.Kept.{Handled, phase_resolve_conflicts-Handled}
use onesync.Engine.Cycle.Execute.{phase_execute}
use onesync.Engine.Cycle.Execute.Counts.{Counted, phase_execute-Counted}
use onesync.Engine.Cycle.Execute.Settled.{downloaded, downloaded-reconcile}
use onesync.Tests.Fakes.{Outside, Rows, rel, item_named, side_of, row, lower, same, fakes, ctx}

-- Both sides of `a.txt` changed since the snapshot.
abbrev diverged : FileEntry
diverged = row (codes "a.txt") (some (side_of 4)) none (some (side_of 3))

abbrev new_item : RemoteItem
new_item = item_named (codes "a.txt") 9

-- A download that the drive fails each time, and an upload.
abbrev op_of : FileOpKind → FileOp
op_of kind = record {
  id = 9;
  run_id = 2;
  pair_id = 1;
  relative_path = rel (codes "a.txt");
  kind = kind;
  status = enqueued;
  attempts = 0;
  last_error = none;
  metadata = [];
  enqueued_at = 3;
  started_at = none;
  finished_at = none;
}

abbrev two_ops : List FileOp
two_ops = op_of download ∷ (op_of upload ∷ [])

abbrev rows : Rows
rows = diverged ∷ []

abbrev up : Outside
up = (10, false)

abbrev down : Outside
down = (10, true)

phase_execute-Counted_example : Counted fakes ctx 2 (phase_execute fakes ctx two_ops (rows, up))
phase_execute-Counted_example = phase_execute-Counted fakes ctx two_ops (rows, up)

abbrev decide : Text → DecisionKind → Decision
decide path kind = record { pair_id = 1; relative_path = rel path; kind = kind }

abbrev decisions : List Decision
decisions =
    decide (codes "a.txt") conflict_detected
    ∷ (decide (codes "b.txt") DecisionKind.download
        ∷ (decide (codes "d") DecisionKind.remote_mkdir ∷ (decide (codes "e") no_op ∷ [])))

phase_resolve_conflicts-Handled_example :
    Returns
      (Handled fakes ctx 2 decisions)
      (phase_resolve_conflicts fakes ctx 2 decisions (rows, up))
phase_resolve_conflicts-Handled_example =
    phase_resolve_conflicts-Handled fakes ctx 2 decisions (rows, up)

abbrev page_paths : List RelPath
page_paths = rel (codes "b.txt") ∷ (rel (codes "B.txt") ∷ [])

collisions_among-Stands_example :
    All
      (λ (e : RelPath × RelPath). Stands same lower page_paths e.0 e.1)
      (collisions_among same lower page_paths)
collisions_among-Stands_example = collisions_among-Stands same lower page_paths

survivors_differ_example : rel (codes "B.txt") ≡ rel (codes "B.txt")
unfolding collisions_among is_dropped
survivors_differ_example =
    survivors_differ same lower page_paths (rel (codes "B.txt")) (rel (codes "B.txt"))
      (inr (inl refl)) (inr (inl refl)) refl refl refl

phase_delta_reconcile-Answers_example :
    Answers fakes ctx rows
      (fakes.delta (codes "drive") none up)
      (phase_delta_reconcile fakes ctx (rows, up))
phase_delta_reconcile-Answers_example = phase_delta_reconcile-Answers fakes ctx (rows, up)

abbrev next_number : ℕ → ℕ × ℕ
next_number n = (n, n)

plan-phases_example :
    map unnamed (plan next_number 2 3 decisions 7).0
    ≡ keep (in_phase 0) (wanted 2 3 decisions)
      ++ (keep (in_phase 1) (wanted 2 3 decisions) ++ keep (in_phase 2) (wanted 2 3 decisions))
plan-phases_example = plan-phases 2 3 next_number decisions 7

apply_initial_sync_collisions-Raised_example : Returns (Raised decisions 0) (
    apply_initial_sync_collisions fakes ctx decisions
      ((rel (codes "b.txt"), side_of 4) ∷ [])
      0
      (rows, up))
apply_initial_sync_collisions-Raised_example =
    apply_initial_sync_collisions-Raised fakes ctx decisions ((rel (codes "b.txt"), side_of 4) ∷ [])
      0 (rows, up)

downloaded-reconcile_example :
    reconcile_kind
      (downloaded 1 (rel (codes "a.txt")) new_item 5 6)
      (some (item_named (codes "a.txt") 4))
    ≡ (if remote_differs_from_synced
          (item_named (codes "a.txt") 4)
          (some (remote_side_from_item new_item 5))
        then conflict_detected
        else (if is_folder new_item then DecisionKind.remote_mkdir else DecisionKind.upload))
downloaded-reconcile_example =
    downloaded-reconcile 1 (rel (codes "a.txt")) new_item (item_named (codes "a.txt") 4) 5 6

abbrev live_items : ItemMap
live_items = (rel (codes "b.txt"), item_named (codes "b.txt") 7) ∷ []

abbrev first_path : List RelPath
first_path = rel (codes "b.txt") ∷ []

phase_local_uploads-Sound_example :
    Returns
      (Sound fakes ctx first_path live_items)
      (phase_local_uploads fakes ctx first_path live_items (rows, up))
phase_local_uploads-Sound_example =
    phase_local_uploads-Sound fakes ctx first_path live_items (rows, up)
