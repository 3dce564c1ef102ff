-- ===== src/State/Memory/Port.antt =====
-- `impl StateStore for InMemoryStore`: the store behind the calls that the engine makes.
use onesync.Prelude.{◌≡◌, refl, sym, ap, ◌∙◌, Option, some, List}
use onesync.Prelude.Equality.{Eq, nat_eq, both_eq, beq_refl}
use onesync.Prelude.Map.{get, insert, get-insert}
use onesync.Prelude.Outcome.{Outcome, ok, err}
use onesync.Protocol.FileSide.{FileSide}
use onesync.Protocol.Path.{rel_eq}
use onesync.Protocol.Entities.{RowId, FileEntry}
use onesync.Engine.Types.{Decision}
use onesync.Engine.Ports.{Ports, StateError}
use onesync.Engine.Cycle.Context.{CycleCtx}
use onesync.Engine.Cycle.Resolve.{record_content_conflict}
use onesync.Engine.Cycle.Resolve.Parking.{
  ReadsBack, LeavesParked, record_content_conflict-LeavesParked,
}
use onesync.State.Memory.{
  InMemoryStore, pair_upsert, file_entry_upsert, run_record, op_insert, op_update_status,
  conflict_insert,
}
use onesync.State.Memory.Reads.{pair_get, file_entry_get, file_entry_get_ci}

-- The surroundings of `P` with this store in place of theirs.
abbrev pub over_memory : Ports → Ports
over_memory P = record {
  Store = InMemoryStore;
  Env = P.Env;
  Jitter = P.Jitter;
  pair_get = pair_get;
  pair_upsert = pair_upsert;
  file_entry_get = file_entry_get;
  file_entry_get_ci = file_entry_get_ci;
  file_entry_upsert = file_entry_upsert;
  run_record = run_record;
  op_insert = op_insert;
  op_update_status = op_update_status;
  conflict_insert = conflict_insert;
  now = P.now;
  new_id = P.new_id;
  emit = P.emit;
  sleep_ms = P.sleep_ms;
  random_jitter = P.random_jitter;
  scan = P.scan;
  read = P.read;
  write_atomic = P.write_atomic;
  rename = P.rename;
  delete = P.delete;
  mkdir_p = P.mkdir_p;
  delta = P.delta;
  download = P.download;
  upload_small = P.upload_small;
  upload_session = P.upload_session;
  remote_rename = P.remote_rename;
  remote_delete = P.remote_delete;
  remote_mkdir = P.remote_mkdir;
  state_text = P.state_text;
  local_text = P.local_text;
  graph_text = P.graph_text;
  engine_text = P.engine_text;
  nfc = P.nfc;
  to_lowercase = P.to_lowercase;
  short_hash = P.short_hash;
  format_time = P.format_time;
  fractions = P.fractions;
  unix_epoch = P.unix_epoch;
}

abbrev store_of : Outcome StateError InMemoryStore (Unit {0}) → InMemoryStore
store_of (ok u s) = s
store_of (err x s) = s

abbrev answer :
    InMemoryStore → Option FileEntry → Outcome StateError InMemoryStore (Option FileEntry)
answer s row = ok row s

abbrev with_row : FileEntry → InMemoryStore → InMemoryStore
with_row entry s = record s {
  file_entries = insert (entry.pair_id, entry.relative_path) entry s.file_entries;
}

get-insert_same {ℓ κ} :
    {K : Type ℓ} {V : Type κ} ⦃e : Eq K⦄ (k : K) (v : V) (m : List (K × V))
    → get k (insert k v m) ≡ some v
get-insert_same k v m = get-insert k k v m ∙ rw (beq_refl k) refl

pub over_memory-ReadsBack : (P : Ports) → ReadsBack (over_memory P)
over_memory-ReadsBack P entry s s' h =
    let same : with_row entry s ≡ s' = ap store_of h in
    rw (sym same) (
      ap (answer (with_row entry s))
        (get-insert_same (entry.pair_id, entry.relative_path) entry s.file_entries))

-- With the store in memory, and any clock, disk and drive: when recording a content conflict
-- succeeds on a row of the pair that has both sides, the store then holds a row for the path for
-- which every live remote item is decided as nothing to do.
pub record_content_conflict-parks :
    (P : Ports) (ctx : CycleCtx) (run_id : RowId) (d : Decision) (entry : FileEntry)
    (s : InMemoryStore) (e : P.Env) (l r : FileSide)
    → get (ctx.pair_id, d.relative_path) s.file_entries ≡ some entry
    → entry.pair_id ≡ ctx.pair_id
    → entry.relative_path ≡ d.relative_path
    → entry.local ≡ some l
    → entry.remote ≡ some r
    → LeavesParked
        (over_memory P)
        ctx
        run_id
        d.relative_path
        (record_content_conflict (over_memory P) ctx run_id d (s, e))
record_content_conflict-parks P ctx run_id d entry s e l r found own_pair own_path has_l has_r =
    record_content_conflict-LeavesParked (over_memory P) ctx run_id (over_memory-ReadsBack P) d
      entry own_pair own_path l r has_l has_r (s, e) (ap (answer s) found)
