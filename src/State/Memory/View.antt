-- ===== src/State/Memory/View.antt =====
-- The abstract view of the store: partial functions from keys to rows, a log and a setting; and what
-- each write does to it.
use onesync.Prelude.{◌≡◌, Bool, not, Option, none, some, List, [], ◌∷◌, ◌++◌}
use onesync.Prelude.Tests.{if◌then◌else◌, is_some}
use onesync.Prelude.Equality.{Eq, ◌==◌, nat_eq, both_eq}
use onesync.Prelude.Map.{get, passing, apply_to}
use onesync.Protocol.Path.{RelPath, rel_eq}
use onesync.Protocol.Account.{Account, InstanceConfig}
use onesync.Protocol.Entities.{RowId, FileEntry, FileOp, Conflict, Pair, SyncRun, AuditEvent}
use onesync.State.Memory.{InMemoryStore}
use onesync.State.Memory.Removal.{owned_by}
use onesync.State.Memory.Writes.{
  Write, account_upsert, account_remove, pair_upsert, file_entry_upsert, run_record, op_insert,
  op_update_status, conflict_insert, conflict_resolve, audit_append, config_upsert, backup_to,
  compact_now,
}

pub record View : Type 0 where
  pub accounts : RowId → Option Account
  pub pairs : RowId → Option Pair
  pub file_entries : RowId × RelPath → Option FileEntry
  pub file_ops : RowId → Option FileOp
  pub conflicts : RowId → Option Conflict
  pub sync_runs : RowId → Option SyncRun
  pub audit : List AuditEvent
  pub config : Option InstanceConfig

abbrev pub blank : View
blank = record {
  accounts = λ id. none;
  pairs = λ id. none;
  file_entries = λ key. none;
  file_ops = λ id. none;
  conflicts = λ id. none;
  sync_runs = λ id. none;
  audit = [];
  config = none;
}

module _ {ℓ κ} {K : Type ℓ} {V : Type κ} ⦃e : Eq K⦄ where
  abbrev pub put : K → V → (K → Option V) → K → Option V
  put k v f j = if k == j then some v else f j

  abbrev pub erase : K → (K → Option V) → K → Option V
  erase k f j = if k == j then none else f j

  abbrev pub revise : K → (V → V) → (K → Option V) → K → Option V
  revise k g f j = if k == j then apply_to g (f j) else f j

-- Whether the pair has a row and belongs to the account.
abbrev pub belongs : RowId → View → RowId → Bool
belongs account v pair = is_some (passing (owned_by account) (v.pairs pair))

-- What a write does to the view, with the fields that it changes written out: an update of a status
-- and a resolution change the row under their key, if there is one, and a resolution without a comment
-- leaves the note.
abbrev pub expected : Write → View → View
expected (account_upsert a) v = record v { accounts = put a.id a v.accounts }
expected (account_remove id) v = record v {
  accounts = erase id v.accounts;
  pairs = λ j. passing (λ p. not (owned_by id p)) (v.pairs j);
  file_entries = λ j. passing (λ row. not (belongs id v j.0)) (v.file_entries j);
  file_ops = λ j. passing (λ op. not (belongs id v op.pair_id)) (v.file_ops j);
  conflicts = λ j. passing (λ c. not (belongs id v c.pair_id)) (v.conflicts j);
  sync_runs = λ j. passing (λ run. not (belongs id v run.pair_id)) (v.sync_runs j);
}
expected (pair_upsert p) v = record v { pairs = put p.id p v.pairs }
expected (file_entry_upsert row) v = record v {
  file_entries = put (row.pair_id, row.relative_path) row v.file_entries;
}
expected (run_record run) v = record v { sync_runs = put run.id run v.sync_runs }
expected (op_insert op) v = record v { file_ops = put op.id op v.file_ops }
expected (op_update_status id status attempts) v = record v {
  file_ops = revise id (λ op. record op { status = status; attempts = attempts }) v.file_ops;
}
expected (conflict_insert c) v = record v { conflicts = put c.id c v.conflicts }
expected (conflict_resolve id resolution at none) v = record v {
  conflicts =
      revise id (λ c. record c { resolved_at = some at; resolution = some resolution }) v.conflicts;
}
expected (conflict_resolve id resolution at (some comment)) v = record v {
  conflicts =
      revise id
        (λ c. record c { resolved_at = some at; resolution = some resolution; note = some comment })
        v.conflicts;
}
expected (audit_append event) v = record v { audit = v.audit ++ (event ∷ []) }
expected (config_upsert config) v = record v { config = some config }
expected (backup_to path) v = v
expected (compact_now now) v = v

abbrev pub expected_all : List Write → View → View
expected_all [] v = v
expected_all (w ∷ ws) v = expected_all ws (expected w v)

-- Every lookup in the store answers as the view does.
pub record Shows (s : InMemoryStore) (v : View) : Type 0 where
  pub accounts : (j : RowId) → get j s.accounts ≡ v.accounts j
  pub pairs : (j : RowId) → get j s.pairs ≡ v.pairs j
  pub file_entries : (j : RowId × RelPath) → get j s.file_entries ≡ v.file_entries j
  pub file_ops : (j : RowId) → get j s.file_ops ≡ v.file_ops j
  pub conflicts : (j : RowId) → get j s.conflicts ≡ v.conflicts j
  pub sync_runs : (j : RowId) → get j s.sync_runs ≡ v.sync_runs j
  pub audit : s.audit ≡ v.audit
  pub config : s.config ≡ v.config
