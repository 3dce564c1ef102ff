-- ===== src/State/Sql/Engine.antt =====
-- The tables of runs, operations and conflicts behind the calls of the engine, as store.rs passes the
-- calls on. Pairs and entries are those of the store of `P`; the tables know the identifiers of the
-- pairs, which the engine neither adds nor removes. A connection is always free.
pub mod ForeignKeys
use onesync.Prelude.{ℕ}
use onesync.Prelude.Text.{Text}
use onesync.Prelude.Outcome.{Outcome, ok, err, Action}
use onesync.Protocol.Entities.{FileOp}
use onesync.Protocol.FileSide.{Timestamp}
use onesync.Engine.Ports.{Ports, StateError}
use onesync.State.Sql.{Columns}
use onesync.State.Sql.Tables.{Database, run_record}
use onesync.State.Sql.FileOps as FileOps
use onesync.State.Sql.Conflicts as Conflicts

module _ {S : Type 0} where
  abbrev tables_result :
      {A : Type 0} → Outcome StateError Database A → S → Outcome StateError (Database × S) A
  tables_result (ok a db) s = ok a (db, s)
  tables_result (err e db) s = err e (db, s)

  abbrev rest_result :
      {A : Type 0} → Outcome StateError S A → Database → Outcome StateError (Database × S) A
  rest_result (ok a s) db = ok a (db, s)
  rest_result (err e s) db = err e (db, s)

  abbrev pub tables :
      {A : Type 0} → Action StateError Database A → Action StateError (Database × S) A
  tables call w = tables_result (call w.0) w.1

  abbrev pub rest : {A : Type 0} → Action StateError S A → Action StateError (Database × S) A
  rest call w = rest_result (call w.1) w.0

-- `now` stands for the instants that `op_update_status` reads from the system clock by itself.
abbrev pub over_tables : Columns → (ℕ × ℕ → Text) → Timestamp → Ports → Ports
over_tables C detail now P = record {
  Store = Database × P.Store;
  Env = P.Env;
  Jitter = P.Jitter;
  pair_get = λ id. rest (P.pair_get id);
  pair_upsert = λ pair. rest (P.pair_upsert pair);
  file_entry_get = λ pair path. rest (P.file_entry_get pair path);
  file_entry_get_ci = λ pair path. rest (P.file_entry_get_ci pair path);
  file_entry_upsert = λ entry. rest (P.file_entry_upsert entry);
  run_record = λ run. tables (run_record C detail run);
  op_insert = λ op. tables (FileOps.insert C op);
  op_update_status = λ id status attempts. tables (FileOps.update_status C id status attempts now);
  conflict_insert = λ c. tables (Conflicts.insert C c);
  now = P.now;
  new_id = P.new_id;
  emit = P.emit;
  sleep_ms = P.sleep_ms;
  random_jitter = P.random_jitter;
  scan = P.scan;
  read = P.read;
  write_atomic = P.write_atomic;
  rename = P.rename;
  delete = P.delete;
  mkdir_p = P.mkdir_p;
  delta = P.delta;
  download = P.download;
  upload_small = P.upload_small;
  upload_session = P.upload_session;
  remote_rename = P.remote_rename;
  remote_delete = P.remote_delete;
  remote_mkdir = P.remote_mkdir;
  state_text = P.state_text;
  local_text = P.local_text;
  graph_text = P.graph_text;
  engine_text = P.engine_text;
  nfc = P.nfc;
  to_lowercase = P.to_lowercase;
  short_hash = P.short_hash;
  format_time = P.format_time;
  fractions = P.fractions;
  unix_epoch = P.unix_epoch;
}
