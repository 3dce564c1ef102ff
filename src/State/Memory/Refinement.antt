-- ===== src/State/Memory/Refinement.antt =====
-- The store implements its abstract view.
use onesync.Prelude.{◌≡◌, refl, ap, ◌∙◌, Bool, not, Option, none, some, List, [], ◌∷◌, ◌++◌, arith}
use onesync.Prelude.Tests.{is_some}
use onesync.Prelude.Equality.{Eq, nat_eq, both_eq}
use onesync.Prelude.Map.{
  Map, insert, remove, adjust, retain, Distinct, get, values, passing, apply_to, get-insert,
  get-remove, get-retain, get-adjust,
}
use onesync.Prelude.Outcome.{Outcome, ok, err, and_then}
use onesync.Protocol.Path.{rel_eq}
use onesync.Protocol.Entities.{RowId}
use onesync.Engine.Ports.{StateError}
use onesync.State.Memory.{InMemoryStore, new, with_status, resolved, contains, pair_ids_of}
use onesync.State.Memory.Invariant.{WellFormed}
use onesync.State.Memory.Removal.{owned_by, contains-pair_ids_of, get-remove_owned}
use onesync.State.Memory.Writes.{
  Write, account_upsert, account_remove, pair_upsert, file_entry_upsert, run_record, op_insert,
  op_update_status, conflict_insert, conflict_resolve, audit_append, config_upsert, backup_to,
  compact_now, perform, perform_all, state_of, perform-ok, perform-WellFormed,
}
use onesync.State.Memory.View.{
  View, blank, put, erase, revise, belongs, expected, expected_all, Shows,
}

pub new-WellFormed : WellFormed new
new-WellFormed = ground arith

new-Shows : Shows new blank
new-Shows = record {
  accounts = λ j. refl;
  pairs = λ j. refl;
  file_entries = λ j. refl;
  file_ops = λ j. refl;
  conflicts = λ j. refl;
  sync_runs = λ j. refl;
  audit = refl;
  config = refl;
}

module _ {ℓ κ} {K : Type ℓ} {V : Type κ} ⦃e : Eq K⦄ (f : K → Option V) (m : Map K V)
    (h : (j : K) → get j m ≡ f j) where
  put-shown : (k : K) (v : V) (j : K) → get j (insert k v m) ≡ put k v f j
  put-shown k v j = ground (arith, get-insert j k v m, h j)

  erase-shown : (k : K) (j : K) → get j (remove k m) ≡ erase k f j
  erase-shown k j = ground (arith, get-remove j k m, h j)

  revise-shown : (k : K) (g : V → V) (j : K) → get j (adjust k g m) ≡ revise k g f j
  revise-shown k g j = ground (arith, get-adjust j k g m, h j, ap (apply_to g) (h j))

passing_ext {κ} :
    {V : Type κ} (p q : V → Bool)
    → ((x : V) → p x ≡ q x)
    → (o : Option V) → passing p o ≡ passing q o
passing_ext p q h none = refl
passing_ext p q h (some x) = rw (h x) refl

module _ (id : RowId) (s : InMemoryStore) (v : View) (wf : WellFormed s) (sh : Shows s v) where
  contains-belongs : (j : RowId) → contains j (pair_ids_of id (values s.pairs)) ≡ belongs id v j
  contains-belongs j =
      contains-pair_ids_of id j s.pairs wf.pairs wf.keyed
      ∙ ap (λ o. is_some (passing (owned_by id) o)) (sh.pairs j)

  kept-shown {ℓ κ} :
      {K : Type ℓ} {V : Type κ} ⦃e : Eq K⦄ (owner : K → V → RowId) (f : K → Option V) (m : Map K V)
      → Distinct m
      → ((j : K) → get j m ≡ f j)
      → (j : K)
      → get j (retain (λ k x. not (contains (owner k x) (pair_ids_of id (values s.pairs)))) m)
        ≡ passing (λ x. not (belongs id v (owner j x))) (f j)
  kept-shown owner f m d h j =
      get-retain j _ m d
      ∙ passing_ext _ _ (λ x. ap not (contains-belongs (owner j x))) (get j m)
      ∙ ap (passing (λ x. not (belongs id v (owner j x)))) (h j)

perform-Shows :
    (w : Write) (s : InMemoryStore) (v : View)
    → WellFormed s
    → Shows s v
    → Shows (state_of (perform w s)) (expected w v)
perform-Shows (account_upsert a) s v wf sh = record {
  accounts = put-shown v.accounts s.accounts sh.accounts a.id a;
  pairs = sh.pairs;
  file_entries = sh.file_entries;
  file_ops = sh.file_ops;
  conflicts = sh.conflicts;
  sync_runs = sh.sync_runs;
  audit = sh.audit;
  config = sh.config;
}
perform-Shows (account_remove id) s v wf sh = record {
  accounts = erase-shown v.accounts s.accounts sh.accounts id;
  pairs = λ j.
      get-remove_owned id j s.pairs wf.pairs wf.keyed
      ∙ ap (passing (λ p. not (owned_by id p))) (sh.pairs j);
  file_entries =
      kept-shown id s v wf sh (λ k e. k.0) v.file_entries s.file_entries wf.file_entries
        sh.file_entries;
  file_ops =
      kept-shown id s v wf sh (λ k op. op.pair_id) v.file_ops s.file_ops wf.file_ops sh.file_ops;
  conflicts =
      kept-shown id s v wf sh (λ k c. c.pair_id) v.conflicts s.conflicts wf.conflicts sh.conflicts;
  sync_runs =
      kept-shown id s v wf sh (λ k r. r.pair_id) v.sync_runs s.sync_runs wf.sync_runs sh.sync_runs;
  audit = sh.audit;
  config = sh.config;
}
perform-Shows (pair_upsert p) s v wf sh = record {
  accounts = sh.accounts;
  pairs = put-shown v.pairs s.pairs sh.pairs p.id p;
  file_entries = sh.file_entries;
  file_ops = sh.file_ops;
  conflicts = sh.conflicts;
  sync_runs = sh.sync_runs;
  audit = sh.audit;
  config = sh.config;
}
perform-Shows (file_entry_upsert row) s v wf sh = record {
  accounts = sh.accounts;
  pairs = sh.pairs;
  file_entries =
      put-shown v.file_entries s.file_entries sh.file_entries (row.pair_id, row.relative_path) row;
  file_ops = sh.file_ops;
  conflicts = sh.conflicts;
  sync_runs = sh.sync_runs;
  audit = sh.audit;
  config = sh.config;
}
perform-Shows (run_record run) s v wf sh = record {
  accounts = sh.accounts;
  pairs = sh.pairs;
  file_entries = sh.file_entries;
  file_ops = sh.file_ops;
  conflicts = sh.conflicts;
  sync_runs = put-shown v.sync_runs s.sync_runs sh.sync_runs run.id run;
  audit = sh.audit;
  config = sh.config;
}
perform-Shows (op_insert op) s v wf sh = record {
  accounts = sh.accounts;
  pairs = sh.pairs;
  file_entries = sh.file_entries;
  file_ops = put-shown v.file_ops s.file_ops sh.file_ops op.id op;
  conflicts = sh.conflicts;
  sync_runs = sh.sync_runs;
  audit = sh.audit;
  config = sh.config;
}
perform-Shows (op_update_status id status attempts) s v wf sh = record {
  accounts = sh.accounts;
  pairs = sh.pairs;
  file_entries = sh.file_entries;
  file_ops = revise-shown v.file_ops s.file_ops sh.file_ops id (with_status status attempts);
  conflicts = sh.conflicts;
  sync_runs = sh.sync_runs;
  audit = sh.audit;
  config = sh.config;
}
perform-Shows (conflict_insert c) s v wf sh = record {
  accounts = sh.accounts;
  pairs = sh.pairs;
  file_entries = sh.file_entries;
  file_ops = sh.file_ops;
  conflicts = put-shown v.conflicts s.conflicts sh.conflicts c.id c;
  sync_runs = sh.sync_runs;
  audit = sh.audit;
  config = sh.config;
}
perform-Shows (conflict_resolve id resolution at none) s v wf sh = record {
  accounts = sh.accounts;
  pairs = sh.pairs;
  file_entries = sh.file_entries;
  file_ops = sh.file_ops;
  conflicts = revise-shown v.conflicts s.conflicts sh.conflicts id (resolved resolution at none);
  sync_runs = sh.sync_runs;
  audit = sh.audit;
  config = sh.config;
}
perform-Shows (conflict_resolve id resolution at (some comment)) s v wf sh = record {
  accounts = sh.accounts;
  pairs = sh.pairs;
  file_entries = sh.file_entries;
  file_ops = sh.file_ops;
  conflicts =
      revise-shown v.conflicts s.conflicts sh.conflicts id (resolved resolution at (some comment));
  sync_runs = sh.sync_runs;
  audit = sh.audit;
  config = sh.config;
}
perform-Shows (audit_append event) s v wf sh = record {
  accounts = sh.accounts;
  pairs = sh.pairs;
  file_entries = sh.file_entries;
  file_ops = sh.file_ops;
  conflicts = sh.conflicts;
  sync_runs = sh.sync_runs;
  audit = ap (λ log. log ++ (event ∷ [])) sh.audit;
  config = sh.config;
}
perform-Shows (config_upsert config) s v wf sh = record {
  accounts = sh.accounts;
  pairs = sh.pairs;
  file_entries = sh.file_entries;
  file_ops = sh.file_ops;
  conflicts = sh.conflicts;
  sync_runs = sh.sync_runs;
  audit = sh.audit;
  config = refl;
}
perform-Shows (backup_to path) s v wf sh = sh
perform-Shows (compact_now now) s v wf sh = sh

-- What a run of writes leaves: no error, a store in order, and every lookup as the view's replay.
abbrev pub Replays : View → Outcome StateError InMemoryStore (Unit {0}) → Type 0
Replays v (ok u s) = WellFormed s × Shows s v
Replays v (err x s) = ⊥

replay_step :
    (w : Write) (ws : List Write) (s : InMemoryStore) (v : View)
    → Replays v (perform_all ws (state_of (perform w s)))
    → Replays v (and_then (perform w s) (λ u. perform_all ws))
replay_step w ws s v h = rw (perform-ok w s) h

replay :
    (ws : List Write) (s : InMemoryStore) (v : View)
    → WellFormed s
    → Shows s v
    → Replays (expected_all ws v) (perform_all ws s)
replay [] s v wf sh = (wf, sh)
replay (w ∷ ws) s v wf sh = replay_step w ws s (expected_all ws (expected w v)) (
    replay ws (state_of (perform w s)) (expected w v) (perform-WellFormed w s wf)
      (perform-Shows w s v wf sh))

-- For every list of writes to the empty store: no write fails, no key has two rows, and every
-- lookup, the log and the setting are those of the replay on partial functions, in which an upsert or an
-- insertion sets one row, an update of a status sets the status and the attempts of an operation and
-- nothing else, a resolution sets the time, the choice and, if one is given, the note of a conflict, and
-- removing an account erases its row, its pairs and the rows of its pairs, and nothing else.
pub perform_all-Replays : (ws : List Write) → Replays (expected_all ws blank) (perform_all ws new)
perform_all-Replays ws = replay ws new blank new-WellFormed new-Shows
