-- ===== src/Keychain.antt =====
-- `InMemoryTokenVault` of crates/onesync-keychain/src/fakes.rs. The vault of macos.rs answers alike: it
-- keeps one secret for each account identifier, and its reference is the printed identifier.
use onesync.Prelude.{Option, none, some}
use onesync.Prelude.Equality.{nat_eq}
use onesync.Prelude.Map.{Map, get, insert, remove}
use onesync.Prelude.Text.{Text, codes}
use onesync.Prelude.Outcome.{ok, err, Action}
use onesync.Protocol.Entities.{RowId}

abbrev pub InMemoryTokenVault : Type 0
InMemoryTokenVault = Map RowId Text

-- The text stands for `VaultError::NotFound`.
abbrev pub vault_not_found : Text
vault_not_found = codes "not found"

-- The reference is the text of the identifier, as `account_text` prints it.
unfoldable pub store_refresh : (RowId → Text) → RowId → Text → Action Text InMemoryTokenVault Text
store_refresh account_text account token vault =
    ok (account_text account) (insert account token vault)

abbrev loaded : Option Text → Action Text InMemoryTokenVault Text
loaded none vault = err vault_not_found vault
loaded (some token) vault = ok token vault

unfoldable pub load_refresh : RowId → Action Text InMemoryTokenVault Text
load_refresh account vault = loaded (get account vault) vault

unfoldable pub delete : RowId → Action Text InMemoryTokenVault (Unit {0})
delete account vault = ok tt (remove account vault)
