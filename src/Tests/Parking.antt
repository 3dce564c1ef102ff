-- ===== src/Tests/Parking.antt =====
-- A conflict recorded in the store of rows kept in memory.
use onesync.Prelude.{◌≡◌, refl, ap, sym, some, none, [], ◌∷◌, false}
use onesync.Prelude.Equality.{beq_refl, list_eq, nat_eq}
use onesync.Prelude.Text.{codes}
use onesync.Prelude.Outcome.{Outcome, ok, err}
use onesync.Protocol.Entities.{FileEntry}
use onesync.Engine.Types.{Decision, conflict_detected}
use onesync.Engine.Ports.{StateError}
use onesync.Engine.Cycle.Resolve.{record_content_conflict}
use onesync.Engine.Cycle.Resolve.Parking.{
  ReadsBack, LeavesParked, record_content_conflict-LeavesParked,
}
use onesync.Tests.Fakes.{Rows, rel, side_of, row, fakes, ctx}

abbrev rows_of : Outcome StateError Rows (Unit {0}) → Rows
rows_of (ok u s) = s
rows_of (err x s) = s

fakes-ReadsBack : ReadsBack fakes
fakes-ReadsBack entry s s' h =
    let e : entry ∷ s ≡ s' = ap rows_of h in
    rw (sym e) (rw (beq_refl entry.relative_path.as_str) refl)

abbrev both : FileEntry
both = row (codes "a.txt") (some (side_of 4)) (some (side_of 5)) none

abbrev decision : Decision
decision = record { pair_id = 1; relative_path = rel (codes "a.txt"); kind = conflict_detected }

record_content_conflict-LeavesParked_example :
    LeavesParked fakes ctx 2
      (rel (codes "a.txt"))
      (record_content_conflict fakes ctx 2 decision (both ∷ [], (10, false)))
record_content_conflict-LeavesParked_example =
    record_content_conflict-LeavesParked fakes ctx 2 fakes-ReadsBack decision both refl refl
      (side_of 4) (side_of 5) refl refl (both ∷ [], (10, false)) refl
