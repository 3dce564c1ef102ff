-- ===== src/Tests/Fakes.antt =====
-- Surroundings in memory: rows by path, a counter for time and identifiers, one page of the drive
-- that fails when its flag is set, and a disk that accepts everything.
use onesync.Prelude.{ℕ, ◌+◌, ◌*◌, ◌/◌, Bool, true, false, Option, none, some, List, [], ◌∷◌}
use onesync.Prelude.Tests.{if◌then◌else◌, ltb}
use onesync.Prelude.Equality.{◌==◌, nat_eq}
use onesync.Prelude.Lists.{find}
use onesync.Prelude.Text.{Text, codes}
use onesync.Prelude.Outcome.{Outcome, ok, err, Action}
use onesync.Protocol.Enums.{file, scheduled, clean}
use onesync.Protocol.FileSide.{FileSide}
use onesync.Protocol.Path.{RelPath, rel_beq}
use onesync.Protocol.Remote.{RemoteItem, DeltaPage}
use onesync.Protocol.Entities.{FileEntry}
use onesync.Engine.Retry.{Fractions}
use onesync.Engine.Ports.{Ports, LocalScan, StateError, GraphError, LocalFsError}
use onesync.Engine.Cycle.Context.{CycleCtx}

abbrev pub rel : Text → RelPath
rel t = record { as_str = t }

abbrev pub item_named : Text → ℕ → RemoteItem
item_named name size = record {
  id = codes "id-1";
  name = name;
  size = size;
  e_tag = some (codes "v1");
  c_tag = none;
  last_modified_date_time = none;
  folder = none;
  file = none;
  deleted = none;
  parent_reference = none;
}

abbrev pub side_of : ℕ → FileSide
side_of size = record {
  kind = file;
  size_bytes = size;
  content_hash = none;
  mtime = 5;
  etag = none;
  remote_item_id = none;
}

abbrev pub row : Text → Option FileSide → Option FileSide → Option FileSide → FileEntry
row path l r s = record {
  pair_id = 1;
  relative_path = rel path;
  kind = file;
  sync_state = clean;
  local = l;
  remote = r;
  synced = s;
  pending_op_id = none;
  updated_at = 0;
}

-- The clock's and the drive's state: a counter, and whether the drive is down.
abbrev pub Outside : Type 0
Outside = ℕ × Bool

abbrev pub Rows : Type 0
Rows = List FileEntry

abbrev done : Action StateError Rows (Unit {0})
done rows = ok tt rows

abbrev on_disk : Action LocalFsError Outside (Unit {0})
on_disk e = ok tt e

abbrev page : DeltaPage
page = record {
  items = item_named (codes "b.txt") 7 ∷ (item_named (codes "B.txt") 8 ∷ []);
  next_link = none;
  delta_token = some (codes "cursor");
}

abbrev fetched : Outside → Outcome GraphError Outside DeltaPage
fetched (n, true) = err GraphError.resync_required (n, true)
fetched (n, false) = ok page (n, false)

-- A jitter in thousandths.
abbrev pub thousandths : Fractions ℕ
thousandths = record {
  less = ltb;
  zero = 0;
  one_less_epsilon = 999;
  times = λ x ceiling. x * ceiling / 1000;
}

abbrev lower_byte : ℕ → ℕ
lower_byte n = if n == 66 then 98 else n

abbrev pub lower : Text → Text
lower [] = []
lower (c ∷ s) = lower_byte c ∷ lower s

abbrev pub same : Text → Text
same t = t

-- A new file, and one whose path differs from the page's in case only.
abbrev scanned : LocalScan
scanned = record {
  entries =
      (some (codes "/home/a/c.txt"), side_of 4)
      ∷ ((some (codes "/home/a/B.txt"), side_of 3) ∷ ((none, side_of 2) ∷ []));
  symlinks_skipped = [];
}

abbrev pub fakes : Ports
fakes = record {
  Store = Rows;
  Env = Outside;
  Jitter = ℕ;
  pair_get = λ id rows. ok none rows;
  pair_upsert = λ pair rows. ok tt rows;
  file_entry_get =
      λ id path rows. ok (find (λ (e : FileEntry). rel_beq e.relative_path path) rows) rows;
  file_entry_get_ci = λ id path rows. ok none rows;
  file_entry_upsert = λ entry rows. ok tt (entry ∷ rows);
  run_record = λ run rows. ok tt rows;
  op_insert = λ op rows. ok tt rows;
  op_update_status = λ id status attempts rows. ok tt rows;
  conflict_insert = λ conflict rows. ok tt rows;
  now = λ e. (e.0, (e.0 + 1, e.1));
  new_id = λ e. (e.0, (e.0 + 1, e.1));
  emit = λ event e. e;
  sleep_ms = λ ms e. e;
  random_jitter = λ attempt e. (attempt, e);
  scan = λ root e. ok scanned e;
  read = λ path e. ok (1 ∷ []) e;
  write_atomic = λ path bytes e. ok (side_of 1) e;
  rename = λ from to e. ok tt e;
  delete = λ path e. ok tt e;
  mkdir_p = λ path e. ok tt e;
  delta = λ drive cursor e. fetched e;
  download = λ item e. err (GraphError.transient []) e;
  upload_small = λ parent name bytes e. ok (item_named name 1) e;
  upload_session = λ parent name size e. ok [] e;
  remote_rename = λ item name e. ok (item_named name 1) e;
  remote_delete = λ item e. ok tt e;
  remote_mkdir = λ parent name e. ok (item_named name 0) e;
  state_text = λ e. [];
  local_text = λ e. [];
  graph_text = λ e. [];
  engine_text = λ e. [];
  nfc = same;
  to_lowercase = lower;
  short_hash = λ t. codes "0123abc";
  format_time = λ ts. codes "T";
  fractions = thousandths;
  unix_epoch = 0;
}

abbrev pub ctx : CycleCtx
ctx = record {
  pair_id = 1;
  local_root = record { as_str = codes "/home/a" };
  drive_id = codes "drive";
  cursor = none;
  trigger = scheduled;
  host_name = codes "host";
}
