-- ===== src/Tests/Signing.antt =====
-- Sign-ins over services that always succeed, with the secrets in a vault.
use onesync.Prelude.{◌≡◌, refl, inr, String, none, some, true, [], ◌∷◌, ◌++◌, arith, ◌⊎◌, Option}
use onesync.Prelude.Text.{Text, codes}
use onesync.Prelude.Outcome.{ok, err, Action}
use onesync.Graph.IdToken.{Claim, string}
use onesync.Keychain.{InMemoryTokenVault}
use onesync.Daemon.Accounts.{
  AccountServices, TokenResponse, Site, LoginSession, LoginRegistry, code, AddSharePointParams,
  login_begin, login_await, add_sharepoint, sharepoint_row,
}
use onesync.Daemon.Accounts.Vault.{accounts_over_vault}
use onesync.Daemon.Accounts.Secrets.{
  LoginEnded, login_await-LoginEnded, With, GetsNoToken, add_sharepoint-GetsNoToken,
}
use onesync.State.Sql.{unique_failed}
use onesync.State.Sql.Tables.{sqlite}
use onesync.State.Sql.Accounts.{account_row_of, upsert}
use onesync.State.Sql.Accounts.Names.{upsert-sharepoint_row}
use onesync.Protocol.Account.{InstanceConfig, client_id_of}
use onesync.Protocol.Enums.{LogLevel}
use onesync.Engine.Ports.{StateError}
use onesync.Daemon.Services.{Services}
use onesync.Daemon.Config.{ConfigSetParams}
use onesync.Daemon.Config.SignIn.{IsUnsetStore, IsRefused, sets, login_begin-IsRefused}
use onesync.Tests.Service.{willing, willing_with}
use onesync.Tests.Store.{alice}
use onesync.Tests.Tables.{columns, Any, columns-IsFaithful}
use onesync.Tests.Token.{counting}

abbrev granted : TokenResponse
granted = record {
  id_token = codes "header.payload.signature";
  access_token = codes "access";
  refresh_token = codes "next";
  scope = codes "Files.ReadWrite";
}

abbrev claimed : String → Claim
claimed key = string (codes "x")

abbrev team : Site
team = record { id = codes "site"; display_name = some (codes "Team") }

abbrev signing_with : Services → AccountServices
signing_with S = record {
  base = S;
  account_upsert = λ account w. ok tt w;
  account_remove = λ id w. ok tt w;
  accounts_list = λ w. ok [] w;
  delete_refresh = λ id w. ok tt w;
  bind = λ w. ok 8080 w;
  generate_pkce = λ w. (record { verifier = codes "v"; challenge = codes "c" }, w);
  spawn_listener = λ port state w. (1, w);
  receive = λ rx w. (code (codes "abc"), w);
  exchange = λ authority client_id c redirect verifier w. ok granted w;
  default_drive = λ token w. ok (codes "drive") w;
  site_by_path = λ token host path w. ok team w;
  site_library_by_name = λ token site name w. ok (codes "library") w;
  account_text = λ id. codes "acct_" ++ (id ∷ []);
  decimal = λ n. n ∷ [];
  decode_claims = λ payload. inr claimed;
  words = λ t. t ∷ [];
}

abbrev signing : AccountServices
signing = signing_with willing

-- The row of the configuration is all the state there is, and is absent at first.
abbrev installed : AccountServices
installed =
    signing_with (willing_with (Option InstanceConfig) (λ row. ok row row) (λ id row. (true, row)))

abbrev keep_row : InstanceConfig → Action StateError (Option InstanceConfig) (Unit {0})
keep_row cfg row = ok tt (some cfg)

abbrev HasNoClient : Option InstanceConfig → Type 0
HasNoClient row = client_id_of row ≡ []

installed-IsUnsetStore : IsUnsetStore installed keep_row HasNoClient
installed-IsUnsetStore = record {
  read = λ row i. (i, i);
  written = λ cfg row h i. h;
  now = λ row i. i;
}

abbrev louder : Text ⊎ ConfigSetParams
louder = inr (record {
  log_level = some LogLevel.debug;
  notify = none;
  allow_metered = some true;
  min_free_gib = none;
})

login_begin-IsRefused_example :
    IsRefused installed keep_row HasNoClient [] (
      login_begin installed (inr none) (sets installed keep_row HasNoClient (louder ∷ []) none, []))
login_begin-IsRefused_example =
    login_begin-IsRefused installed keep_row HasNoClient installed-IsUnsetStore (louder ∷ []) none
      none [] refl

abbrev session : LoginSession
session = record { code_rx = 1; pkce_verifier = codes "v"; redirect_uri = codes "http://localhost" }

abbrev waiting : LoginRegistry
waiting = (codes "lgn_1", session) ∷ []

login_await-LoginEnded_example :
    LoginEnded signing
      (codes "lgn_1")
      (login_await (accounts_over_vault signing) (inr (codes "lgn_1", none)) (([], []), waiting))
login_await-LoginEnded_example =
    login_await-LoginEnded signing (codes "lgn_1") none ([], []) waiting

abbrev library : AddSharePointParams
library = record {
  base_account_id = 9;
  host = codes "host";
  site_path = codes "/sites/team";
  library_name = codes "Documents";
}

-- The base account has a secret, and the identifier 3, which is given next, has none.
abbrev one_secret : InMemoryTokenVault
one_secret = (9, codes "first") ∷ []

add_sharepoint-GetsNoToken_example :
    With signing
      (GetsNoToken signing counting (codes "client") 4)
      (add_sharepoint (accounts_over_vault signing) (inr library) (one_secret, []))
add_sharepoint-GetsNoToken_example =
    add_sharepoint-GetsNoToken signing counting (codes "client") 4 library (one_secret, [])
      (λ w. refl)

upsert-sharepoint_row_example :
    let rows = account_row_of columns alice (codes "[]") ∷ [] in
    upsert columns
      (sharepoint_row signing 3 alice (codes "library") library (some (codes "Team")) 5)
      rows
    ≡ err (sqlite columns unique_failed) rows
upsert-sharepoint_row_example =
    upsert-sharepoint_row columns Any columns-IsFaithful signing alice (codes "[]") [] [] 3
      (codes "library") library (some (codes "Team")) 5 refl (ground arith)
