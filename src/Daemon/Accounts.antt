-- ===== src/Daemon/Accounts.antt =====
-- crates/onesync-daemon/src/methods/account.rs and login_registry.rs. The registry of sign-ins is a part
-- of the state beside the world. The requests to the identity platform and to the drive, the listener
-- and the generator of the PKCE pair are actions of the world; parameters come parsed, as for the
-- methods on pairs.
pub mod Vault
pub mod Secrets
use onesync.Prelude.{
  ℕ, zero, suc, ◌⊎◌, inl, inr, String, Bool, Option, none, some, List, [], ◌∷◌, ◌++◌,
}
use onesync.Prelude.Tests.{if◌then◌else◌}
use onesync.Prelude.Equality.{nat_eq, list_eq}
use onesync.Prelude.Map.{Map, get, insert, remove}
use onesync.Prelude.Lists.{length}
use onesync.Prelude.Text.{Text, codes, is_empty, strip_prefix}
use onesync.Prelude.Outcome.{Outcome, ok, err, and_then, Action, return, ◌>>=◌, ◌>>◌}
use onesync.Protocol.Enums.{AccountKind, business, AuditLevel}
use onesync.Protocol.FileSide.{Timestamp}
use onesync.Protocol.Account.{Account, InstanceConfig, client_id_of}
use onesync.Protocol.Entities as Entities
use onesync.Protocol.Entities.{RowId, AuditEvent, JsonMap, string}
use onesync.Engine.Ports.{StateError}
use onesync.Graph.IdToken.{IdTokenClaims, IdTokenError, Claim, parse}
use onesync.Graph.Urls.{encode_segment}
use onesync.Daemon.Services.{
  Services, TokenSet, MethodError, invalid_params, internal, app, Method, stored, calling, ignoring,
  required, reading, emitting, or_error,
}

pub record TokenResponse : Type 0 where
  pub id_token : Text
  pub access_token : Text
  pub refresh_token : Text
  pub scope : Text

pub record Site : Type 0 where
  pub id : Text
  pub display_name : Option Text

pub record PkcePair : Type 0 where
  pub verifier : Text
  pub challenge : Text

-- `code_rx` names the channel on which the listener delivers the code.
pub record LoginSession : Type 0 where
  pub code_rx : ℕ
  pub pkce_verifier : Text
  pub redirect_uri : Text

abbrev pub LoginRegistry : Type 0
LoginRegistry = Map Text LoginSession

-- What a channel delivers.
pub data Received : Type 0 where
  dropped redirect_failed : Received
  code : Text → Received

pub record AddSharePointParams : Type 0 where
  pub base_account_id : RowId
  pub host : Text
  pub site_path : Text
  pub library_name : Text

pub record AccountServices : Type 1 where
  pub base : Services
  pub account_upsert : Account → Action StateError base.World (Unit {0})
  pub account_remove : RowId → Action StateError base.World (Unit {0})
  pub accounts_list : Action StateError base.World (List Account)
  pub delete_refresh : RowId → Action Text base.World (Unit {0})
  pub bind : Action Text base.World ℕ
  pub generate_pkce : base.World → PkcePair × base.World
  -- the port and the state to expect; the listener's channel
  pub spawn_listener : ℕ → Text → base.World → ℕ × base.World
  pub receive : ℕ → base.World → Received × base.World
  pub exchange : Text → Text → Text → Text → Text → Action Text base.World TokenResponse
  pub default_drive : Text → Action Text base.World Text
  pub site_by_path : Text → Text → Text → Action Text base.World Site
  pub site_library_by_name : Text → Text → Text → Action Text base.World Text
  -- `Display` of an account identifier and of a port, base64 with JSON, `split_whitespace`
  pub account_text : RowId → Text
  pub decimal : ℕ → Text
  pub decode_claims : Text → Text ⊎ (String → Claim)
  pub words : Text → List Text

abbrev pub or_common : Option Text → Text
or_common none = codes "common"
or_common (some authority) = authority

abbrev pub title_or : Text → Option Text → Text
title_or site_path none = site_path
title_or site_path (some display_name) = display_name

-- `trim_start_matches` for a text: the prefix is taken off as long as there is one.
abbrev pub trim_prefix : ℕ → Text → Text → Text
trim_prefix zero prefix s = s
trim_prefix (suc fuel) prefix s = elim (strip_prefix prefix s) [
  | none ↦ s
  | some behind ↦ trim_prefix fuel prefix behind
]

module _ (S : AccountServices) where
  abbrev B : Services
  B = S.base

  abbrev parsed : {A : Type 0} → Text ⊎ A → Method B A
  parsed (inl e) w = err (invalid_params e) w
  parsed (inr p) w = ok p w

  abbrev pub require_client_id : Text → Method B Text
  require_client_id client_id w = if is_empty client_id then err (app 10) w else ok client_id w

  abbrev pub read_client_id : Method B Text
  read_client_id = stored B B.config_get >>= λ cfg. require_client_id (client_id_of cfg)

  -- The sign-in page.
  abbrev pub auth_url : Text → Text → Text → Text → Text → Text
  auth_url authority client_id redirect_uri state challenge =
      codes "https://login.microsoftonline.com/"
      ++ (authority
          ++ (codes "/oauth2/v2.0/authorize?client_id="
              ++ (encode_segment client_id
                  ++ (codes "&response_type=code&redirect_uri="
                      ++ (encode_segment redirect_uri
                          ++ (codes "&response_mode=query&scope="
                              ++ (encode_segment (codes "Files.ReadWrite offline_access User.Read")
                                  ++ (codes "&state="
                                      ++ (state
                                          ++ (codes "&code_challenge="
                                              ++ (challenge
                                                  ++ codes "&code_challenge_method=S256")))))))))))

  -- The parts of a sign-in that begins: the handle, the page and the session.
  abbrev pub Begun : Type 0
  Begun = Text × Text × LoginSession

  abbrev pub begin : Option Text → Method B Begun
  begin authority = do
    client_id ← read_client_id
    port ← (λ w. or_error B internal (S.bind w))
    let redirect_uri = codes "http://localhost:" ++ (S.decimal port ++ codes "/callback")
    pkce ← reading B S.generate_pkce
    id ← reading B B.new_id
    let state_token = S.account_text id
    let handle = codes "lgn_" ++ trim_prefix (length state_token) (codes "acct_") state_token
    code_rx ← reading B (S.spawn_listener port state_token)
    return (
      handle,
      auth_url (or_common authority) client_id redirect_uri state_token pkce.challenge,
      record { code_rx = code_rx; pkce_verifier = pkce.verifier; redirect_uri = redirect_uri },
    )

  -- The world with the registry.
  abbrev pub Login : Type 0 → Type 0
  Login A = Action MethodError (B.World × LoginRegistry) A

  abbrev pub registered :
      Outcome MethodError B.World Begun
      → LoginRegistry
      → Outcome MethodError (B.World × LoginRegistry) (Text × Text)
  registered (err e w) r = err e (w, r)
  registered (ok (handle, url, session) w) r = ok (handle, url) (w, insert handle session r)

  unfoldable pub login_begin : Text ⊎ Option Text → Login (Text × Text)
  login_begin params w = registered ((parsed params >>= begin) w.0) w.1

  abbrev pub received : Received × B.World → Outcome MethodError B.World Text
  received (dropped, w) = err (internal []) w
  received (redirect_failed, w) = err (app 12) w
  received (code c, w) = ok c w

  abbrev pub account_row : RowId → IdTokenClaims → Text → Text → TokenResponse → Timestamp → Account
  account_row id claims drive_id keychain_ref tokens now = record {
    id = id;
    kind = claims.kind;
    upn = claims.upn;
    tenant_id = claims.tid;
    drive_id = drive_id;
    display_name = claims.display_name;
    keychain_ref = keychain_ref;
    scopes = S.words tokens.scope;
    created_at = now;
    updated_at = now;
  }

  abbrev pub account_event : String → RowId → Timestamp → JsonMap → AuditEvent
  account_event kind id now payload = record {
    id = id;
    ts = now;
    level = AuditLevel.info;
    kind = kind;
    pair_id = none;
    payload = payload;
  }

  abbrev pub audited : AuditEvent → Method B (Unit {0})
  audited event = do ignoring B (B.audit_append event); emitting B event

  -- Steps 6 and 7 of `login_await`: the token goes to the key chain, then the row to the store.
  abbrev pub persist : TokenResponse → IdTokenClaims → Text → Method B Account
  persist tokens claims drive_id = do
    id ← reading B B.new_id
    keychain_ref ← calling B 16 (B.store_refresh id tokens.refresh_token)
    now ← reading B B.now
    let account = account_row id claims drive_id keychain_ref tokens now
    stored B (S.account_upsert account)
    event_id ← reading B B.new_id
    audited (
        account_event "account.login" event_id now (
          Entities.insert "upn" (string account.upn)
            (Entities.insert "account_id" (string (S.account_text id)) [])))
    return account

  abbrev pub read_claims : IdTokenError ⊎ IdTokenClaims → Method B IdTokenClaims
  read_claims (inl e) w = err (app 14) w
  read_claims (inr claims) w = ok claims w

  -- `login_await` from the session on.
  abbrev pub awaited : Option Text → LoginSession → Method B Account
  awaited authority session = do
    c ← (λ w. received (S.receive session.code_rx w))
    client_id ← read_client_id
    tokens ←
        calling B 13
          (S.exchange (or_common authority) client_id c session.redirect_uri session.pkce_verifier)
    claims ← read_claims (parse S.decode_claims tokens.id_token)
    drive_id ← calling B 15 (S.default_drive tokens.access_token)
    persist tokens claims drive_id

  abbrev pub with_registry :
      {A : Type 0}
      → Outcome MethodError B.World A
      → LoginRegistry
      → Outcome MethodError (B.World × LoginRegistry) A
  with_registry (ok a w) r = ok a (w, r)
  with_registry (err e w) r = err e (w, r)

  -- `LoginRegistry::take`: the session is taken out before anything else can fail.
  abbrev pub taken : Text → Option Text → Option LoginSession → Login Account
  taken handle authority none w = err (app 11) w
  taken handle authority (some session) w =
      with_registry (awaited authority session w.0) (remove handle w.1)

  abbrev await_parsed : Text ⊎ (Text × Option Text) → Login Account
  await_parsed (inl e) w = err (invalid_params e) w
  await_parsed (inr (handle, authority)) w = taken handle authority (get handle w.1) w

  unfoldable pub login_await : Text ⊎ (Text × Option Text) → Login Account
  login_await params = await_parsed params

  unfoldable pub list : Method B (List Account)
  list = stored B S.accounts_list

  unfoldable pub get_account : Text ⊎ RowId → Method B Account
  get_account params = do
    id ← parsed params
    found ← stored B (B.account_get id)
    required B 1 found

  abbrev pub sharepoint_row :
      RowId → Account → Text → AddSharePointParams → Option Text → Timestamp → Account
  sharepoint_row id base drive_id p title now = record {
    id = id;
    kind = business;
    upn = base.upn;
    tenant_id = base.tenant_id;
    drive_id = drive_id;
    display_name =
        title_or p.site_path title
        ++ (codes " / " ++ (p.library_name ++ (codes " / " ++ base.display_name)));
    keychain_ref = base.keychain_ref;
    scopes = base.scopes;
    created_at = now;
    updated_at = now;
  }

  abbrev pub mint : AddSharePointParams → Account → Site → Text → Method B Account
  mint p base site drive_id = do
    now ← reading B B.now
    id ← reading B B.new_id
    let account = sharepoint_row id base drive_id p site.display_name now
    stored B (S.account_upsert account)
    event_id ← reading B B.new_id
    audited (
        account_event "account.added_sharepoint" event_id now (
          Entities.insert "library_name" (string p.library_name) (
            Entities.insert "site_path" (string p.site_path) (
              Entities.insert "host" (string p.host)
                (Entities.insert "account_id" (string (S.account_text id)) [])))))
    return account

  abbrev pub resolve_library : AddSharePointParams → Account → Method B Account
  resolve_library p base = do
    client_id ← read_client_id
    refresh_value ← calling B 22 (B.load_refresh base.id)
    tokens ← calling B 23 (B.refresh client_id refresh_value)
    ignoring B (B.store_refresh base.id tokens.refresh_token)
    site ← calling B 41 (S.site_by_path tokens.access_token p.host p.site_path)
    drive_id ← calling B 42 (S.site_library_by_name tokens.access_token site.id p.library_name)
    mint p base site drive_id

  unfoldable pub add_sharepoint : Text ⊎ AddSharePointParams → Method B Account
  add_sharepoint params = do
    p ← parsed params
    found ← stored B (B.account_get p.base_account_id)
    base ← required B 40 found
    resolve_library p base

  -- The secret goes first, whether or not that works.
  unfoldable pub remove_account : Text ⊎ RowId → Method B RowId
  remove_account params = do
    id ← parsed params
    ignoring B (S.delete_refresh id)
    stored B (S.account_remove id)
    return id
