-- ===== src/State/Sql/Tables.antt =====
-- The tables of crates/onesync-state/src/migrations that runs, operations and conflicts live in, and
-- `sync_runs::record` of queries/sync_runs.rs. `foreign_keys` is on (connection.rs), so that a row
-- is refused whose parent is missing. Of accounts and pairs the identifiers are kept.
use onesync.Prelude.{ℕ, ◌-◌, ◌^◌, Bool, Option, none, some, List, [], ◌∷◌, ◌++◌}
use onesync.Prelude.Tests.{if◌then◌else◌, ltb}
use onesync.Prelude.Equality.{◌==◌, nat_eq, list_eq}
use onesync.Prelude.Lists.{any}
use onesync.Prelude.Text.{Text, codes}
use onesync.Prelude.Outcome.{ok, err, Action}
use onesync.Protocol.Enums.{
  RunTrigger, scheduled, local_event, remote_webhook, cli_force, backoff_retry, RunOutcome,
  partial_failure, aborted,
}
use onesync.Protocol.Entities.{SyncRun}
use onesync.Engine.Ports.{StateError}
use onesync.State.Sql.{
  Columns, SqlCause, foreign_key_failed, row_failed, Decoded, good, bad, id_text,
}

pub record RunRow : Type 0 where
  pub id : Text
  pub pair_id : Text
  pub trigger : Text
  pub started_at : Text
  pub finished_at : Option Text
  pub local_ops : ℕ
  pub remote_ops : ℕ
  pub bytes_uploaded : ℕ
  pub bytes_downloaded : ℕ
  pub outcome : Option Text
  pub outcome_detail : Option Text

pub record OpRow : Type 0 where
  pub id : Text
  pub run_id : Text
  pub pair_id : Text
  pub relative_path : Text
  pub kind : Text
  pub status : Text
  pub attempts : ℕ
  pub last_error_json : Option Text
  pub metadata_json : Option Text
  pub enqueued_at : Text
  pub started_at : Option Text
  pub finished_at : Option Text

pub record ConflictRow : Type 0 where
  pub id : Text
  pub pair_id : Text
  pub relative_path : Text
  pub winner : Text
  pub loser_relative_path : Text
  pub local_side_json : Text
  pub remote_side_json : Text
  pub detected_at : Text
  pub resolved_at : Option Text
  pub resolution : Option Text
  pub note : Option Text

pub record Database : Type 0 where
  pub pairs : List Text
  pub sync_runs : List RunRow
  pub file_ops : List OpRow
  pub conflicts : List ConflictRow

abbrev pub mapped {ℓ κ} : {A : Type ℓ} {B : Type κ} → (A → B) → Option A → Option B
mapped f none = none
mapped f (some a) = some (f a)

-- `COALESCE`.
abbrev pub coalesce : Option Text → Option Text → Option Text
coalesce none b = b
coalesce (some a) b = some a

abbrev pub has_pair : Text → Database → Bool
has_pair id db = any (λ p. p == id) db.pairs

abbrev pub has_run : Text → Database → Bool
has_run id db = any (λ (r : RunRow). r.id == id) db.sync_runs

-- A row changed wherever the test of the statement holds.
abbrev pub update_where {ℓ} : {R : Type ℓ} → (R → Bool) → (R → R) → List R → List R
update_where p f [] = []
update_where p f (r ∷ rs) = (if p r then f r else r) ∷ update_where p f rs

module _ (C : Columns) where
  -- `StateStoreError::Sqlite`, as `map_err` of store.rs passes it on.
  abbrev pub sqlite : SqlCause → StateError
  sqlite cause = StateError.io (C.sqlite_text cause)

  -- What a statement that reads returns; the tables stay as they are.
  abbrev pub answer {ℓ} : {A : Type ℓ} → Decoded A → Action StateError Database A
  answer (good a) db = ok a db
  answer (bad e) db = err (sqlite (row_failed e)) db

  abbrev pub run_trigger_to_str : RunTrigger → Text
  run_trigger_to_str scheduled = codes "scheduled"
  run_trigger_to_str local_event = codes "local_event"
  run_trigger_to_str remote_webhook = codes "remote_webhook"
  run_trigger_to_str cli_force = codes "cli_force"
  run_trigger_to_str backoff_retry = codes "backoff_retry"

  abbrev pub run_outcome_to_str : RunOutcome → Text
  run_outcome_to_str RunOutcome.success = codes "success"
  run_outcome_to_str partial_failure = codes "partial_failure"
  run_outcome_to_str aborted = codes "aborted"

  -- `i64::try_from(…).unwrap_or(i64::MAX)`.
  abbrev to_i64 : ℕ → ℕ
  to_i64 n = if ltb n (2 ^ 63) then n else 2 ^ 63 - 1

  -- `detail` formats the counts that stand for the text of the detail.
  abbrev pub run_row_of : (ℕ × ℕ → Text) → SyncRun → RunRow
  run_row_of detail run = record {
    id = id_text C (codes "run") run.id;
    pair_id = id_text C (codes "pair") run.pair_id;
    trigger = run_trigger_to_str run.trigger;
    started_at = C.to_rfc3339 run.started_at;
    finished_at = mapped C.to_rfc3339 run.finished_at;
    local_ops = run.local_ops;
    remote_ops = run.remote_ops;
    bytes_uploaded = to_i64 run.bytes_uploaded;
    bytes_downloaded = to_i64 run.bytes_downloaded;
    outcome = mapped run_outcome_to_str run.outcome;
    outcome_detail = mapped detail run.outcome_detail;
  }

  -- `ON CONFLICT(id) DO UPDATE`: the row keeps its pair, its trigger and its start.
  abbrev finished_as : RunRow → RunRow → RunRow
  finished_as new old = record old {
    finished_at = new.finished_at;
    local_ops = new.local_ops;
    remote_ops = new.remote_ops;
    bytes_uploaded = new.bytes_uploaded;
    bytes_downloaded = new.bytes_downloaded;
    outcome = new.outcome;
    outcome_detail = new.outcome_detail;
  }

  abbrev recorded : RunRow → Action StateError Database (Unit {0})
  recorded row db =
      if has_run row.id db
      then ok tt (record db {
        sync_runs = update_where (λ (r : RunRow). r.id == row.id) (finished_as row) db.sync_runs;
      })
      else if has_pair row.pair_id db
      then ok tt (record db { sync_runs = db.sync_runs ++ (row ∷ []) })
      else err (sqlite foreign_key_failed) db

  -- `sync_runs::record`.
  unfoldable pub run_record : (ℕ × ℕ → Text) → SyncRun → Action StateError Database (Unit {0})
  run_record detail run = recorded (run_row_of detail run)
