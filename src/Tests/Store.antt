-- ===== src/Tests/Store.antt =====
-- Runs of the store in memory.
use onesync.Prelude.{ℕ, some, none, List, [], ◌∷◌, false}
use onesync.Prelude.Equality.{nat_eq, both_eq}
use onesync.Prelude.Text.{codes}
use onesync.Protocol.Enums.{personal, active}
use onesync.Protocol.Path.{rel_eq}
use onesync.Protocol.Account.{Account}
use onesync.Protocol.Entities.{FileEntry, Pair}
use onesync.State.Memory.{new}
use onesync.State.Memory.Writes.{
  Write, account_upsert, account_remove, pair_upsert, file_entry_upsert, perform_all,
}
use onesync.State.Memory.View.{blank, expected_all}
use onesync.State.Memory.Refinement.{Replays, perform_all-Replays}
use onesync.Tests.Fakes.{side_of, row}

abbrev pub alice : Account
alice = record {
  id = 9;
  kind = personal;
  upn = codes "alice";
  tenant_id = [];
  drive_id = codes "drive";
  display_name = codes "Alice";
  keychain_ref = [];
  scopes = [];
  created_at = 0;
  updated_at = 0;
}

abbrev pub pair_of : ℕ → ℕ → Pair
pair_of id account = record {
  id = id;
  account_id = account;
  local_path = record { as_str = codes "/home/a" };
  remote_item_id = codes "root";
  remote_path = codes "/";
  display_name = codes "a";
  status = active;
  paused = false;
  delta_token = none;
  errored_reason = none;
  created_at = 0;
  updated_at = 0;
  last_sync_at = none;
  conflict_count = 0;
  webhook_enabled = false;
}

abbrev both : FileEntry
both = row (codes "a.txt") (some (side_of 4)) (some (side_of 5)) none

abbrev writes : List Write
writes =
    account_upsert alice
    ∷ (pair_upsert (pair_of 1 9)
        ∷ (pair_upsert (pair_of 2 8) ∷ (file_entry_upsert both ∷ (account_remove 9 ∷ []))))

perform_all-Replays_example : Replays (expected_all writes blank) (perform_all writes new)
perform_all-Replays_example = perform_all-Replays writes
