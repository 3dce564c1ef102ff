-- ===== src/Daemon/Accounts/Vault.antt =====
-- The services of the methods with the vault of the key chain beside their world.
use onesync.Prelude.Outcome.{Outcome, ok, err, Action}
use onesync.Keychain.{InMemoryTokenVault, store_refresh, load_refresh, delete}
use onesync.Prelude.Text.{Text}
use onesync.Protocol.Entities.{RowId}
use onesync.Daemon.Services.{Services}
use onesync.Daemon.Tokens.{TokenPorts}
use onesync.Daemon.Accounts.{AccountServices}

abbrev pub beside_result :
    {E W A : Type 0} → Outcome E W A → InMemoryTokenVault → Outcome E (InMemoryTokenVault × W) A
beside_result (ok a w) vault = ok a (vault, w)
beside_result (err e w) vault = err e (vault, w)

-- A call that leaves the vault alone.
abbrev pub beside : {E W A : Type 0} → Action E W A → Action E (InMemoryTokenVault × W) A
beside call s = beside_result (call s.1) s.0

abbrev pub inside_result :
    {E W A : Type 0} → Outcome E InMemoryTokenVault A → W → Outcome E (InMemoryTokenVault × W) A
inside_result (ok a vault) w = ok a (vault, w)
inside_result (err e vault) w = err e (vault, w)

abbrev pub inside :
    {E W A : Type 0} → Action E InMemoryTokenVault A → Action E (InMemoryTokenVault × W) A
inside call s = inside_result (call s.0) s.1

abbrev pub reads :
    {W A : Type 0} → (W → A × W) → InMemoryTokenVault × W → A × (InMemoryTokenVault × W)
reads f s = let (a, w) = f s.1 in (a, (s.0, w))

abbrev pub over_vault : (RowId → Text) → Services → Services
over_vault account_text S = record {
  World = InMemoryTokenVault × S.World;
  account_get = λ id. beside (S.account_get id);
  config_get = beside S.config_get;
  pair_get = λ id. beside (S.pair_get id);
  pair_upsert = λ pair. beside (S.pair_upsert pair);
  runs_recent = λ pair limit. beside (S.runs_recent pair limit);
  conflicts_unresolved = λ pair. beside (S.conflicts_unresolved pair);
  conflict_get = λ id. beside (S.conflict_get id);
  conflict_resolve = λ id resolution at text. beside (S.conflict_resolve id resolution at text);
  audit_append = λ event. beside (S.audit_append event);
  mkdir_p = λ path. beside (S.mkdir_p path);
  load_refresh = λ id. inside (load_refresh id);
  store_refresh = λ id token. inside (store_refresh account_text id token);
  refresh = λ client_id token. beside (S.refresh client_id token);
  item_by_path = λ token drive path. beside (S.item_by_path token drive path);
  force_sync = λ id. reads (S.force_sync id);
  now = reads S.now;
  new_id = reads S.new_id;
  emit = λ event s. (s.0, S.emit event s.1);
}

abbrev pub accounts_over_vault : AccountServices → AccountServices
accounts_over_vault S = record {
  base = over_vault S.account_text S.base;
  account_upsert = λ account. beside (S.account_upsert account);
  account_remove = λ id. beside (S.account_remove id);
  accounts_list = beside S.accounts_list;
  delete_refresh = λ id. inside (delete id);
  bind = beside S.bind;
  generate_pkce = reads S.generate_pkce;
  spawn_listener = λ port state. reads (S.spawn_listener port state);
  receive = λ rx. reads (S.receive rx);
  exchange = λ authority client_id c redirect verifier.
      beside (S.exchange authority client_id c redirect verifier);
  default_drive = λ token. beside (S.default_drive token);
  site_by_path = λ token host path. beside (S.site_by_path token host path);
  site_library_by_name = λ token site name. beside (S.site_library_by_name token site name);
  account_text = S.account_text;
  decimal = S.decimal;
  decode_claims = S.decode_claims;
  words = S.words;
}

-- The token source with the same vault beside its world.
abbrev pub tokens_over_vault : TokenPorts → TokenPorts
tokens_over_vault T = record {
  World = InMemoryTokenVault × T.World;
  pairs_list = λ id. beside (T.pairs_list id);
  pair_upsert = λ pair. beside (T.pair_upsert pair);
  audit_append = λ event. beside (T.audit_append event);
  emit = λ event s. (s.0, T.emit event s.1);
  now = reads T.now;
  new_id = reads T.new_id;
  load_refresh = λ id. inside (load_refresh id);
  store_refresh = λ id token. inside (store_refresh T.id_text id token);
  refresh = λ client_id token. beside (T.refresh client_id token);
  sleep_ms = λ ms s. (s.0, T.sleep_ms ms s.1);
  instant = reads T.instant;
  id_text = T.id_text;
}
