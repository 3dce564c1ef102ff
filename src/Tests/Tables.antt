-- ===== src/Tests/Tables.antt =====
-- The tables with small printers: an identifier and an instant are the list of their number.
use onesync.Prelude.{ℕ, ◌≡◌, refl, ◌⊎◌, inl, inr, false, Option, none, some, List, [], ◌∷◌, arith}
use onesync.Prelude.Tests.{leb}
use onesync.Prelude.Equality.{nat_eq}
use onesync.Prelude.Sorting.{text_leb}
use onesync.Prelude.Lists.{length}
use onesync.Prelude.Text.{Text, codes}
use onesync.Prelude.Outcome.{ok}
use onesync.Protocol.Enums.{FileKind, file, directory, ConflictSide, upload, enqueued}
use onesync.Protocol.FileSide.{FileSide, Timestamp, ContentHash, DriveItemId, Etag}
use onesync.Protocol.Path.{valid, parse_rel}
use onesync.Protocol.Entities.{FileOp, Conflict}
use onesync.Engine.Types.{Decision, DecisionKind}
use onesync.Engine.Planner.{plan}
use onesync.Engine.Cycle.Execute.{phase_execute}
use onesync.State.Memory.{new}
use onesync.State.Sql.Conflicts.{conflict_row, conflict_row_of, insert}
use onesync.State.Sql.Conflicts.Memory.{
  insert_call, in_tables, in_memory, done, Alike, in_tables-Alike,
}
use onesync.State.Sql.{Columns, good, id_text}
use onesync.State.Sql.Tables.{Database, OpRow}
use onesync.State.Sql.Faithful.{IsFaithful}
use onesync.State.Sql.FileOps.{op_row, op_row_of, row_to_op}
use onesync.State.Sql.FileOps.RoundTrip.{row_to_op-op_row_of}
use onesync.State.Sql.Engine.{over_tables}
use onesync.State.Sql.Engine.ForeignKeys.{IsKept, AllFailed, phase_execute-plan}
use onesync.Protocol.Id.{id_to_string}
use onesync.Tests.Fakes.{Outside, fakes, ctx, rel, same, side_of}

abbrev number : Text → Option ℕ
number [] = none
number (n ∷ []) = some n
number (n ∷ (m ∷ s)) = none

abbrev or_nothing : Option ℕ → Text ⊎ ℕ
or_nothing none = inl []
or_nothing (some n) = inr n

abbrev if_plain : {A B C : Type 0} → FileKind → Option A → Option B → Option C → Text → Option Text
if_plain file none none none t = some t
if_plain _ _ _ _ t = none

-- Only the sides that a scan makes are printed.
abbrev scan_text : FileSide → Option Text
scan_text x = if_plain x.kind x.content_hash x.etag x.remote_item_id (x.size_bytes ∷ (x.mtime ∷ []))

abbrev read_side : Text → Option FileSide
read_side (size ∷ (mtime ∷ [])) = some (record {
  kind = file;
  size_bytes = size;
  content_hash = none;
  mtime = mtime;
  etag = none;
  remote_item_id = none;
})
read_side _ = none

abbrev empty_list : List Text → Option Text
empty_list [] = some (codes "[]")
empty_list (t ∷ ts) = none

abbrev pub columns : Columns
columns = record {
  ulid = λ id. id ∷ [];
  parse_ulid = λ t. or_nothing (number t);
  to_rfc3339 = λ t. t ∷ [];
  parse_rfc3339 = number;
  nfc = same;
  sqlite_text = λ cause. [];
  side_to_json = scan_text;
  side_from_json = read_side;
  error_to_json = λ e. none;
  error_from_json = λ t. none;
  map_to_json = λ m. none;
  map_from_json = λ t. none;
  scopes_to_json = empty_list;
  scopes_from_json = λ t. some [];
}

abbrev pub Any : Timestamp → Type 0
Any t = Unit

later_lem : (s t : Timestamp) → text_leb (s ∷ []) (t ∷ []) ≡ leb s t
later_lem s t = ground arith

read_plain :
    (k : FileKind) (c : Option ContentHash) (e : Option Etag) (r : Option DriveItemId) (n m : ℕ)
    (t : Text)
    → if_plain k c e r (n ∷ (m ∷ [])) ≡ some t
    → read_side t
      ≡ some (record {
        kind = k;
        size_bytes = n;
        content_hash = c;
        mtime = m;
        etag = e;
        remote_item_id = r;
      })
read_plain directory c e r n m t h = ground (arith, h)
read_plain file (some c) e r n m t h = ground (arith, h)
read_plain file none (some e) r n m t h = ground (arith, h)
read_plain file none none (some r) n m t h = ground (arith, h)
read_plain file none none none n m t h = ground (arith, h)

side_lem : (x : FileSide) (t : Text) → scan_text x ≡ some t → read_side t ≡ some x
side_lem x t h = read_plain x.kind x.content_hash x.etag x.remote_item_id x.size_bytes x.mtime t h

pub columns-IsFaithful : IsFaithful columns Any
columns-IsFaithful = record {
  ulid = λ id. refl;
  timestamp = λ t h. refl;
  later = λ s t h k. later_lem s t;
  side = side_lem;
  error = λ x t h. ground (arith, h);
  json_map = λ x t h. ground (arith, h);
}

-- Tables with nothing in them.
abbrev empty : Database
empty = record { pairs = []; sync_runs = []; file_ops = []; conflicts = [] }

abbrev details : ℕ × ℕ → Text
details counts = []

abbrev DriveIsUp : Outside → Type 0
DriveIsUp e = e.1 ≡ false

drive_IsKept : IsKept columns details 0 fakes ctx DriveIsUp
drive_IsKept = record { now = λ e i. i; new_id = λ e i. i; emit = λ event e i. i }

abbrev decisions : List Decision
decisions =
    record { pair_id = 1; relative_path = rel (codes "a.txt"); kind = DecisionKind.upload }
    ∷ (record { pair_id = 1; relative_path = rel (codes "b.txt"); kind = DecisionKind.download }
        ∷ [])

phase_execute-plan_example :
    let (ops, after) = plan fakes.new_id 4 5 decisions (10, false) in
    AllFailed columns details 0 fakes ctx DriveIsUp
      (length ops)
      (empty, [])
      (phase_execute (over_tables columns details 0 fakes) ctx ops ((empty, []), after))
phase_execute-plan_example =
    phase_execute-plan columns details 0 fakes ctx DriveIsUp drive_IsKept 4 5 decisions empty []
      (10, false) refl refl

abbrev an_op : FileOp
an_op = record {
  id = 3;
  run_id = 4;
  pair_id = 1;
  relative_path = rel (codes "a.txt");
  kind = upload;
  status = enqueued;
  attempts = 2;
  last_error = none;
  metadata = [];
  enqueued_at = 5;
  started_at = some 6;
  finished_at = none;
}

abbrev an_op_row : OpRow
an_op_row = op_row columns an_op none none

op_is_written : op_row_of columns an_op ≡ some an_op_row
unfolding op_row_of
op_is_written = refl

path_is_parsed : parse_rel same (codes "a.txt") ≡ valid (rel (codes "a.txt"))
unfolding parse_rel
path_is_parsed = refl

row_to_op-op_row_of_example : row_to_op columns an_op_row ≡ good an_op
row_to_op-op_row_of_example =
    row_to_op-op_row_of columns Any columns-IsFaithful an_op an_op_row
      (record {
        path = path_is_parsed;
        enqueued = tt;
        started = tt;
        finished = tt;
        attempts = omega arith;
      })
      op_is_written

abbrev disputed : Conflict
disputed = record {
  id = 6;
  pair_id = 1;
  relative_path = rel (codes "a.txt");
  winner = ConflictSide.local;
  loser_relative_path = rel (codes "a.txt");
  local_side = side_of 4;
  remote_side = side_of 5;
  detected_at = 7;
  resolved_at = none;
  resolution = none;
  note = none;
}

-- The store and the tables with the pair 1 and nothing else.
abbrev one_pair : Database
one_pair = record empty { pairs = id_text columns (codes "pair") 1 ∷ [] }

in_tables-Alike_example :
    Alike columns Any columns-IsFaithful
      (insert_call disputed)
      one_pair
      (in_tables columns (insert_call disputed) one_pair)
      (in_memory (insert_call disputed) new)
in_tables-Alike_example =
    in_tables-Alike columns Any columns-IsFaithful (insert_call disputed) new one_pair
      (record { conflicts = tt; keyed = tt; distinct = tt })
      (record { path = path_is_parsed; loser_path = path_is_parsed; detected = tt; resolved = tt })

-- The tables take it.
disputed_is_stored :
    in_tables columns (insert_call disputed) one_pair
    ≡ ok done (record one_pair {
      conflicts = conflict_row columns disputed (4 ∷ (5 ∷ [])) (5 ∷ (5 ∷ [])) ∷ [];
    })
unfolding insert conflict_row_of id_to_string
disputed_is_stored = refl
