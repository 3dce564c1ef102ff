-- ===== src/State/Memory/Writes.antt =====
-- The writes of the store as values, so that a run of the store is a list of them, and the store
-- that every run reaches.
use onesync.Prelude.{ℕ, ◌≡◌, refl, Option, List, [], ◌∷◌, arith}
use onesync.Prelude.Equality.{nat_eq, both_eq}
use onesync.Prelude.Map.{values, insert-Distinct, remove-Distinct, retain-Distinct, adjust-Distinct}
use onesync.Prelude.Text.{Text}
use onesync.Prelude.Outcome.{Outcome, ok, err, and_then}
use onesync.Protocol.Enums.{FileOpStatus, ConflictResolution}
use onesync.Protocol.FileSide.{Timestamp}
use onesync.Protocol.Path.{rel_eq}
use onesync.Protocol.Account.{Account, InstanceConfig}
use onesync.Protocol.Entities.{RowId, FileEntry, FileOp, Conflict, Pair, SyncRun, AuditEvent}
use onesync.Engine.Ports.{StateError}
use onesync.State.Memory
use onesync.State.Memory.{InMemoryStore, Step, with_status, resolved, pair_ids_of}
use onesync.State.Memory.Invariant.{WellFormed, insert-Keyed, remove_all-Keyed, remove_all-Distinct}

-- One write of the store with its arguments.
pub data Write : Type 0 where
  account_upsert : Account → Write
  account_remove : RowId → Write
  pair_upsert : Pair → Write
  file_entry_upsert : FileEntry → Write
  run_record : SyncRun → Write
  op_insert : FileOp → Write
  op_update_status : RowId → FileOpStatus → ℕ → Write
  conflict_insert : Conflict → Write
  conflict_resolve : RowId → ConflictResolution → Timestamp → Option Text → Write
  audit_append : AuditEvent → Write
  config_upsert : InstanceConfig → Write
  backup_to : Text → Write
  compact_now : Timestamp → Write

abbrev pub perform : Write → Step
perform (account_upsert account) = Memory.account_upsert account
perform (account_remove id) = Memory.account_remove id
perform (pair_upsert pair) = Memory.pair_upsert pair
perform (file_entry_upsert entry) = Memory.file_entry_upsert entry
perform (run_record run) = Memory.run_record run
perform (op_insert op) = Memory.op_insert op
perform (op_update_status id status attempts) = Memory.op_update_status id status attempts
perform (conflict_insert c) = Memory.conflict_insert c
perform (conflict_resolve id resolution at comment) =
    Memory.conflict_resolve id resolution at comment
perform (audit_append event) = Memory.audit_append event
perform (config_upsert config) = Memory.config_upsert config
perform (backup_to path) = Memory.backup_to path
perform (compact_now now) = Memory.compact_now now

abbrev pub perform_all : List Write → Step
perform_all [] s = ok tt s
perform_all (w ∷ ws) s = and_then (perform w s) (λ u. perform_all ws)

-- The state of an outcome, whatever the outcome is.
abbrev pub state_of : Outcome StateError InMemoryStore (Unit {0}) → InMemoryStore
state_of (ok u s) = s
state_of (err x s) = s

-- No write of this store fails.
pub perform-ok : (w : Write) (s : InMemoryStore) → perform w s ≡ ok tt (state_of (perform w s))
perform-ok (account_upsert account) s = refl
perform-ok (account_remove id) s = refl
perform-ok (pair_upsert pair) s = refl
perform-ok (file_entry_upsert entry) s = refl
perform-ok (run_record run) s = refl
perform-ok (op_insert op) s = refl
perform-ok (op_update_status id status attempts) s = refl
perform-ok (conflict_insert c) s = refl
perform-ok (conflict_resolve id resolution at comment) s = refl
perform-ok (audit_append event) s = refl
perform-ok (config_upsert config) s = refl
perform-ok (backup_to path) s = refl
perform-ok (compact_now now) s = refl

pub perform-WellFormed :
    (w : Write) (s : InMemoryStore) → WellFormed s → WellFormed (state_of (perform w s))
perform-WellFormed (account_upsert account) s wf =
    ground (arith, insert-Distinct account.id account s.accounts wf.accounts)
perform-WellFormed (account_remove id) s wf = record {
  accounts = remove-Distinct id s.accounts wf.accounts;
  pairs = remove_all-Distinct (pair_ids_of id (values s.pairs)) s.pairs wf.pairs;
  file_entries = retain-Distinct _ s.file_entries wf.file_entries;
  file_ops = retain-Distinct _ s.file_ops wf.file_ops;
  conflicts = retain-Distinct _ s.conflicts wf.conflicts;
  sync_runs = retain-Distinct _ s.sync_runs wf.sync_runs;
  keyed = remove_all-Keyed (pair_ids_of id (values s.pairs)) s.pairs wf.keyed;
}
perform-WellFormed (pair_upsert pair) s wf =
    ground
      (arith, insert-Distinct pair.id pair s.pairs wf.pairs, insert-Keyed pair s.pairs wf.keyed)
perform-WellFormed (file_entry_upsert entry) s wf = ground (
  arith,
  insert-Distinct (entry.pair_id, entry.relative_path) entry s.file_entries wf.file_entries,
)
perform-WellFormed (run_record run) s wf =
    ground (arith, insert-Distinct run.id run s.sync_runs wf.sync_runs)
perform-WellFormed (op_insert op) s wf =
    ground (arith, insert-Distinct op.id op s.file_ops wf.file_ops)
perform-WellFormed (op_update_status id status attempts) s wf =
    ground (arith, adjust-Distinct id (with_status status attempts) s.file_ops wf.file_ops)
perform-WellFormed (conflict_insert c) s wf =
    ground (arith, insert-Distinct c.id c s.conflicts wf.conflicts)
perform-WellFormed (conflict_resolve id resolution at comment) s wf =
    ground (arith, adjust-Distinct id (resolved resolution at comment) s.conflicts wf.conflicts)
perform-WellFormed (audit_append event) s wf = ground arith
perform-WellFormed (config_upsert config) s wf = ground arith
perform-WellFormed (backup_to path) s wf = wf
perform-WellFormed (compact_now now) s wf = wf
