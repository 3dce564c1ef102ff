-- ===== src/State/Memory.antt =====
-- `InMemoryStore` of crates/onesync-state/src/fakes.rs, the operations that write. Each holds a lock
-- while it works on a map; `account_remove`, which takes the locks of its maps one after another, is
-- one step here. The reads are in `Reads`.
pub mod Reads
pub mod Invariant
pub mod Writes
pub mod View
pub mod Refinement
pub mod Port
pub mod Removal
use onesync.Prelude.{ℕ, Bool, true, false, not, Option, none, some, List, [], ◌∷◌, ◌++◌}
use onesync.Prelude.Tests.{if◌then◌else◌, is_some}
use onesync.Prelude.Equality.{Eq, ◌==◌, nat_eq, both_eq}
use onesync.Prelude.Lists.{any}
use onesync.Prelude.Map.{Map, insert, remove, adjust, retain, values}
use onesync.Prelude.Text.{Text}
use onesync.Prelude.Outcome.{Outcome, ok, Action}
use onesync.Protocol.Enums.{FileOpStatus, ConflictResolution}
use onesync.Protocol.FileSide.{Timestamp}
use onesync.Protocol.Path.{RelPath, rel_eq}
use onesync.Protocol.Account.{Account, InstanceConfig}
use onesync.Protocol.Entities.{RowId, FileEntry, FileOp, Conflict, Pair, SyncRun, AuditEvent}
use onesync.Engine.Ports.{StateError}

pub record InMemoryStore : Type 0 where
  pub accounts : Map RowId Account
  pub pairs : Map RowId Pair
  pub file_entries : Map (RowId × RelPath) FileEntry
  pub file_ops : Map RowId FileOp
  pub conflicts : Map RowId Conflict
  pub sync_runs : Map RowId SyncRun
  pub audit : List AuditEvent
  pub config : Option InstanceConfig

-- `InMemoryStore::new`.
abbrev pub new : InMemoryStore
new = record {
  accounts = [];
  pairs = [];
  file_entries = [];
  file_ops = [];
  conflicts = [];
  sync_runs = [];
  audit = [];
  config = none;
}

abbrev pub Step : Type 0
Step = Action StateError InMemoryStore (Unit {0})

abbrev pub account_upsert : Account → Step
account_upsert account s = ok tt (record s { accounts = insert account.id account s.accounts })

abbrev pub pair_upsert : Pair → Step
pair_upsert pair s = ok tt (record s { pairs = insert pair.id pair s.pairs })

abbrev pub file_entry_upsert : FileEntry → Step
file_entry_upsert entry s =
    let key : RowId × RelPath = (entry.pair_id, entry.relative_path) in
    ok tt (record s { file_entries = insert key entry s.file_entries })

abbrev pub run_record : SyncRun → Step
run_record run s = ok tt (record s { sync_runs = insert run.id run s.sync_runs })

abbrev pub op_insert : FileOp → Step
op_insert op s = ok tt (record s { file_ops = insert op.id op s.file_ops })

abbrev pub with_status : FileOpStatus → ℕ → FileOp → FileOp
with_status status attempts op = record op { status = status; attempts = attempts }

-- Nothing happens when the row does not exist.
abbrev pub op_update_status : RowId → FileOpStatus → ℕ → Step
op_update_status id status attempts s =
    ok tt (record s { file_ops = adjust id (with_status status attempts) s.file_ops })

abbrev pub conflict_insert : Conflict → Step
conflict_insert c s = ok tt (record s { conflicts = insert c.id c s.conflicts })

abbrev pub kept_note : Option Text → Option Text → Option Text
kept_note none before = before
kept_note (some text) before = some text

abbrev pub resolved : ConflictResolution → Timestamp → Option Text → Conflict → Conflict
resolved resolution resolved_at note c = record c {
  resolved_at = some resolved_at;
  resolution = some resolution;
  note = kept_note note c.note;
}

abbrev pub conflict_resolve : RowId → ConflictResolution → Timestamp → Option Text → Step
conflict_resolve id resolution resolved_at note s =
    ok tt (record s { conflicts = adjust id (resolved resolution resolved_at note) s.conflicts })

abbrev pub audit_append : AuditEvent → Step
audit_append event s = ok tt (record s { audit = s.audit ++ (event ∷ []) })

abbrev pub config_upsert : InstanceConfig → Step
config_upsert config s = ok tt (record s { config = some config })

-- The copy of the database and its compaction do nothing here.
abbrev pub backup_to : Text → Step
backup_to path s = ok tt s

abbrev pub compact_now : Timestamp → Step
compact_now now s = ok tt s

-- The identifiers of the account's pairs.
abbrev pub pair_ids_of : RowId → List Pair → List RowId
pair_ids_of id [] = []
pair_ids_of id (p ∷ ps) = if p.account_id == id then p.id ∷ pair_ids_of id ps else pair_ids_of id ps

abbrev pub remove_all {κ} : {V : Type κ} → List RowId → Map RowId V → Map RowId V
remove_all [] m = m
remove_all (id ∷ ids) m = remove_all ids (remove id m)

abbrev pub contains : RowId → List RowId → Bool
contains id = any (λ other. other == id)

-- The account's row, its pairs, and every row that belongs to one of them.
abbrev pub without_account : RowId → InMemoryStore → InMemoryStore
without_account id s =
    let pair_ids = pair_ids_of id (values s.pairs) in
    record s {
      accounts = remove id s.accounts;
      pairs = remove_all pair_ids s.pairs;
      file_entries = retain (λ key entry. not (contains key.0 pair_ids)) s.file_entries;
      file_ops = retain (λ key op. not (contains op.pair_id pair_ids)) s.file_ops;
      conflicts = retain (λ key c. not (contains c.pair_id pair_ids)) s.conflicts;
      sync_runs = retain (λ key run. not (contains run.pair_id pair_ids)) s.sync_runs;
    }

abbrev pub account_remove : RowId → Step
account_remove id s = ok tt (without_account id s)
