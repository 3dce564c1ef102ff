-- ===== src/State/Memory/Reads.antt =====
-- The reads of `InMemoryStore`. Where the source collects a `HashMap`'s values, ties of the sort
-- key keep the order of the list here and have no fixed order there. The printed identifiers by
-- which it sorts are a parameter.
use onesync.Prelude.{ℕ, Bool, true, ◌&&◌, ◌||◌, not, Option, none, some, List}
use onesync.Prelude.Tests.{leb, is_some}
use onesync.Prelude.Equality.{◌==◌, nat_eq, both_eq, option_eq, list_eq}
use onesync.Prelude.Lists.{keep, find}
use onesync.Prelude.Map.{get, values}
use onesync.Prelude.Text.{Text, to_ascii_lowercase}
use onesync.Prelude.Sorting.{sort_by, take, text_leb}
use onesync.Prelude.Outcome.{ok, Action}
use onesync.Protocol.Enums.{AuditLevel, is_removed, is_clean, level_beq}
use onesync.Protocol.FileSide.{Timestamp}
use onesync.Protocol.Path.{RelPath, rel_eq}
use onesync.Protocol.Account.{Account, InstanceConfig}
use onesync.Protocol.Entities.{RowId, FileEntry, Conflict, Pair, SyncRun, AuditEvent}
use onesync.Engine.Ports.{StateError}
use onesync.State.Memory.{InMemoryStore}

abbrev pub Read : Type 0 → Type 0
Read A = Action StateError InMemoryStore A

abbrev pub account_get : RowId → Read (Option Account)
account_get id s = ok (get id s.accounts) s

abbrev pub pair_get : RowId → Read (Option Pair)
pair_get id s = ok (get id s.pairs) s

abbrev pub file_entry_get : RowId → RelPath → Read (Option FileEntry)
file_entry_get pair path s = ok (get (pair, path) s.file_entries) s

abbrev pub same_path_ci : RowId → RelPath → FileEntry → Bool
same_path_ci pair path e =
    e.pair_id == pair && to_ascii_lowercase e.relative_path.as_str == to_ascii_lowercase path.as_str

abbrev pub file_entry_get_ci : RowId → RelPath → Read (Option FileEntry)
file_entry_get_ci pair path s = ok (find (same_path_ci pair path) (values s.file_entries)) s

abbrev pub file_entries_dirty : RowId → ℕ → Read (List FileEntry)
file_entries_dirty pair limit s =
    let dirty : FileEntry → Bool = λ e. e.pair_id == pair && not (is_clean e.sync_state) in
    let matching = keep dirty (values s.file_entries) in
    ok (take limit (sort_by (λ (a b : FileEntry). leb a.updated_at b.updated_at) matching)) s

abbrev pub conflict_get : RowId → Read (Option Conflict)
conflict_get id s = ok (get id s.conflicts) s

abbrev pub is_open : RowId → Conflict → Bool
is_open pair c = c.pair_id == pair && not (is_some c.resolved_at)

abbrev pub conflicts_unresolved : RowId → Read (List Conflict)
conflicts_unresolved pair s =
    ok
      (sort_by (λ (a b : Conflict). leb a.detected_at b.detected_at)
        (keep (is_open pair) (values s.conflicts)))
      s

abbrev pub run_get : RowId → Read (Option SyncRun)
run_get id s = ok (get id s.sync_runs) s

-- `sort_by_key` with `Reverse`: the latest first.
abbrev pub runs_recent : RowId → ℕ → Read (List SyncRun)
runs_recent pair limit s =
    let matching = keep (λ (r : SyncRun). r.pair_id == pair) (values s.sync_runs) in
    ok (take limit (sort_by (λ (a b : SyncRun). leb b.started_at a.started_at) matching)) s

abbrev pub later_first : AuditEvent → AuditEvent → Bool
later_first a b = leb b.ts a.ts

abbrev pub audit_recent : ℕ → Read (List AuditEvent)
audit_recent limit s = ok (take limit (sort_by later_first s.audit)) s

-- `Option::is_none_or`.
abbrev pub is_none_or {ℓ} : {A : Type ℓ} → (A → Bool) → Option A → Bool
is_none_or p none = true
is_none_or p (some a) = p a

abbrev pub sought : Timestamp → Timestamp → Option AuditLevel → Option RowId → AuditEvent → Bool
sought from_ts to_ts level pair e =
    leb from_ts e.ts
    && leb e.ts to_ts
    && is_none_or (λ l. level_beq e.level l) level
    && is_none_or (λ p. e.pair_id == some p) pair

abbrev pub audit_search :
    Timestamp → Timestamp → Option AuditLevel → Option RowId → ℕ → Read (List AuditEvent)
audit_search from_ts to_ts level pair limit s =
    ok (take limit (sort_by later_first (keep (sought from_ts to_ts level pair) s.audit))) s

abbrev pub config_get : Read (Option InstanceConfig)
config_get s = ok s.config s

module _ (id_text : RowId → Text) where
  abbrev pub by_id : Pair → Pair → Bool
  by_id a b = text_leb (id_text a.id) (id_text b.id)

  abbrev pub pairs_active : Read (List Pair)
  pairs_active s =
      ok (sort_by by_id (keep (λ (p : Pair). not (is_removed p.status)) (values s.pairs))) s

  abbrev pub pairs_list : Option RowId → Bool → Read (List Pair)
  pairs_list account include_removed s =
      let of_account : Pair → Bool = λ p. is_none_or (λ a. p.account_id == a) account in
      let shown : Pair → Bool = λ p. include_removed || not (is_removed p.status) in
      ok (sort_by by_id (keep shown (keep of_account (values s.pairs)))) s

  abbrev pub accounts_list : Read (List Account)
  accounts_list s =
      ok (sort_by (λ (a b : Account). text_leb (id_text a.id) (id_text b.id)) (values s.accounts)) s
