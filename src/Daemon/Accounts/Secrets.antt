-- ===== src/Daemon/Accounts/Secrets.antt =====
-- Which secrets the vault holds after a sign-in and after an addition of a SharePoint library.
use onesync.Prelude.{◌≡◌, refl, ◌∙◌, ◌⊎◌, inl, inr, Option, none, some, arith}
use onesync.Prelude.Tests.{Bool-cases, Option-cases}
use onesync.Prelude.Equality.{◌==◌, nat_eq, list_eq, beq_refl, eq_of_beq}
use onesync.Prelude.Map.{get, insert, remove, get-insert, get-remove}
use onesync.Prelude.Text.{Text, is_empty}
use onesync.Prelude.Outcome.{Outcome, ok, err, and_then, Action}
use onesync.Protocol.Account.{Account, InstanceConfig, client_id_of}
use onesync.Protocol.Entities.{RowId, AuditEvent}
use onesync.Keychain.{InMemoryTokenVault, store_refresh, load_refresh, vault_not_found}
use onesync.Engine.Ports.{StateError}
use onesync.Graph.IdToken.{IdTokenClaims, IdTokenError, parse}
use onesync.Graph.Errors.{decode, cause}
use onesync.Daemon.Services.{
  MethodError, internal_error, or_error, dropped, emitting, ignoring, required,
}
use onesync.Daemon.Tokens.{TokenPorts, access_token}
use onesync.Daemon.Accounts.{
  AccountServices, TokenResponse, LoginSession, Received, redirect_failed, code, received,
  require_client_id, AddSharePointParams, Site, LoginRegistry, read_client_id, read_claims,
  login_await, with_registry, persist, awaited, mint, resolve_library, add_sharepoint,
}
use onesync.Daemon.Accounts.Vault.{beside_result, accounts_over_vault, tokens_over_vault}

module _ (S : AccountServices) where
  abbrev V : AccountServices
  V = accounts_over_vault S

  abbrev W : Type 0
  W = InMemoryTokenVault × S.base.World

  -- What a value satisfies together with the vault it comes with; an error satisfies it too.
  abbrev pub With :
      {A : Type 0} → (A → InMemoryTokenVault → Type 0) → Outcome MethodError W A → Type 0
  With Q (ok a s) = Q a s.0
  With Q (err e s) = Unit

  -- A call that leaves the vault alone, and what follows it.
  then_With :
      {E A B : Type 0} (wrap : E → MethodError) (Q : B → InMemoryTokenVault → Type 0)
      (vault : InMemoryTokenVault) (o : Outcome E S.base.World A) (f : A → Action MethodError W B)
      → ((a : A) (w : S.base.World) → With Q (f a (vault, w)))
      → With Q (and_then (or_error V.base wrap (beside_result o vault)) f)
  then_With wrap Q vault (ok a w) f h = h a w
  then_With wrap Q vault (err e w) f h = tt

  -- The audit event is appended and emitted, whether or not the store takes it.
  audited_With :
      {B : Type 0} (Q : B → InMemoryTokenVault → Type 0) (vault : InMemoryTokenVault)
      (event : AuditEvent) (o : Outcome StateError S.base.World (Unit {0}))
      (f : Unit {0} → Action MethodError W B)
      → ((w : S.base.World) → With Q (f tt (vault, w)))
      → With Q (
          and_then
            (and_then (dropped V.base (beside_result o vault)) (λ u. emitting V.base event))
            f)
  audited_With Q vault event (ok a w) f h = h (S.base.emit event w)
  audited_With Q vault event (err e w) f h = h (S.base.emit event w)

  get-insert_same :
      (id : RowId) (token : Text) (vault : InMemoryTokenVault)
      → get id (insert id token vault) ≡ some token
  get-insert_same id token vault = get-insert id id token vault ∙ rw (beq_refl id) refl

  abbrev pub HasSecret : Account → InMemoryTokenVault → Type 0
  HasSecret account vault = (token : Text) × (get account.id vault ≡ some token)

  persist-HasSecret :
      (tokens : TokenResponse) (claims : IdTokenClaims) (drive_id : Text) (s : W)
      → With HasSecret (persist V tokens claims drive_id s)
  unfolding store_refresh
  persist-HasSecret tokens claims drive_id s =
      then_With _ HasSecret _ (S.account_upsert _ _) _ (λ u w.
        audited_With HasSecret _ _ (S.base.audit_append _ _) _
          (λ v. (tokens.refresh_token, get-insert_same _ tokens.refresh_token s.0)))

  client_With :
      {B : Type 0} (Q : B → InMemoryTokenVault → Type 0) (s : W) (f : Text → Action MethodError W B)
      → ((client_id : Text) (w : S.base.World) → With Q (f client_id (s.0, w)))
      → With Q (and_then (read_client_id V s) f)
  client_With Q s f h = on_config (S.base.config_get s.1)
    where
      on_client :
          (client_id : Text) (w : S.base.World)
          → With Q (and_then (require_client_id V client_id (s.0, w)) f)
      on_client client_id w = elim (Bool-cases (is_empty client_id)) [
        | inl blank ↦ rw blank tt
        | inr set ↦ rw set (h client_id w)
      ]

      on_config :
          (o : Outcome StateError S.base.World (Option InstanceConfig))
          → With Q (
              and_then
                (and_then
                  (or_error V.base internal_error (beside_result o s.0))
                  (λ cfg. require_client_id V (client_id_of cfg)))
                f)
      on_config (ok cfg w) = on_client (client_id_of cfg) w
      on_config (err e w) = tt

  received-With :
      {B : Type 0} (Q : B → InMemoryTokenVault → Type 0) (vault : InMemoryTokenVault) (r : Received)
      (w : S.base.World) (f : Text → Action MethodError W B)
      → ((c : Text) → With Q (f c (vault, w)))
      → With Q (and_then (received V (r, (vault, w))) f)
  received-With Q vault Received.dropped w f h = tt
  received-With Q vault redirect_failed w f h = tt
  received-With Q vault (code c) w f h = h c

  claims_With :
      {B : Type 0} (Q : B → InMemoryTokenVault → Type 0) (s : W) (r : IdTokenError ⊎ IdTokenClaims)
      (f : IdTokenClaims → Action MethodError W B)
      → ((claims : IdTokenClaims) → With Q (f claims s))
      → With Q (and_then (read_claims V r s) f)
  claims_With Q s (inl e) f h = tt
  claims_With Q s (inr claims) f h = h claims

  awaited-HasSecret :
      (authority : Option Text) (session : LoginSession) (s : W)
      → With HasSecret (awaited V authority session s)
  awaited-HasSecret authority session s =
      let (r, w) = S.receive session.code_rx s.1 in
      received-With HasSecret s.0 r w _ (λ c.
        client_With HasSecret (s.0, w) _
          (λ client_id v. then_With _ HasSecret s.0 (S.exchange _ _ _ _ _ v) _ (λ tokens u.
            claims_With HasSecret (s.0, u) (parse S.decode_claims tokens.id_token) _
              (λ claims.
                then_With _ HasSecret s.0 (S.default_drive _ u) _
                  (λ drive_id t. persist-HasSecret tokens claims drive_id (s.0, t))))))

  -- How a sign-in ends: its session is gone, and an account that is returned has a secret.
  abbrev pub LoginEnded : Text → Outcome MethodError (W × LoginRegistry) Account → Type 0
  LoginEnded handle (ok account s) = HasSecret account s.0.0 × (get handle s.1 ≡ none)
  LoginEnded handle (err e s) = get handle s.1 ≡ none

  registry_LoginEnded :
      (handle : Text) (o : Outcome MethodError W Account) (r : LoginRegistry)
      → With HasSecret o
      → get handle r ≡ none
      → LoginEnded handle (with_registry V o r)
  registry_LoginEnded handle (ok account s) r h k = (h, k)
  registry_LoginEnded handle (err e s) r h k = k

  -- However the listener, the identity platform, the drive and the store answer: after the wait for a
  -- sign-in its handle has no session, so that it cannot be waited for again; and if an account is
  -- returned, the vault holds a secret for its identifier.
  pub login_await-LoginEnded :
      (handle : Text) (authority : Option Text) (s : W) (r : LoginRegistry)
      → LoginEnded handle (login_await V (inr (handle, authority)) (s, r))
  unfolding login_await
  login_await-LoginEnded handle authority s r = elim (Option-cases (get handle r)) [
    | inl unknown ↦ rw unknown unknown
    | inr (session, known) ↦ rw known (
        registry_LoginEnded handle (awaited V authority session s) (remove handle r)
          (awaited-HasSecret authority session s)
          (get-remove handle handle r ∙ rw (beq_refl handle) refl))
  ]

  -- No secret for any identifier that may be given next.
  abbrev pub IsFresh : InMemoryTokenVault → Type 0
  IsFresh vault = (w : S.base.World) → get (S.base.new_id w).0 vault ≡ none

  abbrev HasNoSecret : Account → InMemoryTokenVault → Type 0
  HasNoSecret account vault = get account.id vault ≡ none

  mint-HasNoSecret :
      (p : AddSharePointParams) (base : Account) (site : Site) (drive_id : Text) (s : W)
      → IsFresh s.0
      → With HasNoSecret (mint V p base site drive_id s)
  mint-HasNoSecret p base site drive_id s fresh =
      then_With _ HasNoSecret _ (S.account_upsert _ _) _
        (λ u w. audited_With HasNoSecret _ _ (S.base.audit_append _ _) _ (λ v. fresh _))

  stored-IsFresh :
      (id : RowId) (token new : Text) (vault : InMemoryTokenVault)
      → get id vault ≡ some token
      → IsFresh vault
      → IsFresh (insert id new vault)
  stored-IsFresh id token new vault h fresh w = elim (Bool-cases (id == (S.base.new_id w).0)) [
    | inl same ↦
        absurd (ground (arith, h, fresh w, eq_of_beq {x = id} {y = (S.base.new_id w).0} same))
    | inr other ↦ get-insert (S.base.new_id w).0 id new vault ∙ rw other (fresh w)
  ]

  ignored_With :
      {B : Type 0} (Q : B → InMemoryTokenVault → Type 0) (id : RowId) (token : Text) (s : W)
      (f : Unit {0} → Action MethodError W B)
      → With Q (f tt (insert id token s.0, s.1))
      → With Q (and_then (ignoring V.base (V.base.store_refresh id token) s) f)
  unfolding store_refresh
  ignored_With Q id token s f h = h

  resolve_library-HasNoSecret :
      (p : AddSharePointParams) (base : Account) (s : W)
      → IsFresh s.0
      → With HasNoSecret (resolve_library V p base s)
  unfolding load_refresh
  resolve_library-HasNoSecret p base s fresh = client_With HasNoSecret s _ (λ client_id w.
      elim (Option-cases (get base.id s.0)) [
        | inl missing ↦ rw missing tt
        | inr (token, held) ↦ rw held (
            then_With _ HasNoSecret s.0 (S.base.refresh client_id token w) _ (λ tokens v.
              ignored_With HasNoSecret base.id tokens.refresh_token (s.0, v) _
                (then_With _ HasNoSecret _ (S.site_by_path tokens.access_token p.host p.site_path v)
                  _
                  (λ site u.
                    then_With _ HasNoSecret _
                      (S.site_library_by_name tokens.access_token site.id p.library_name u) _
                      (λ drive_id t.
                        mint-HasNoSecret p base site drive_id _
                          (stored-IsFresh base.id token tokens.refresh_token s.0 held fresh))))))
      ])

  add_sharepoint-HasNoSecret :
      (p : AddSharePointParams) (s : W)
      → IsFresh s.0
      → With HasNoSecret (add_sharepoint V (inr p) s)
  unfolding add_sharepoint
  add_sharepoint-HasNoSecret p s fresh =
      then_With _ HasNoSecret s.0 (S.base.account_get p.base_account_id s.1) _ found_With
    where
      found_With :
          (found : Option Account) (w : S.base.World)
          → With HasNoSecret (and_then (required V.base 40 found (s.0, w)) (resolve_library V p))
      found_With none w = tt
      found_With (some base) w = resolve_library-HasNoSecret p base (s.0, w) fresh

  -- What an account gets from the token source when nothing is cached.
  abbrev pub GetsNoToken : (T : TokenPorts) → Text → T.World → Account → InMemoryTokenVault → Type 0
  GetsNoToken T client_id t account vault =
      access_token (tokens_over_vault T) account.id client_id ((vault, t), none)
      ≡ err (decode (cause vault_not_found)) ((vault, t), none)

  weaken_With :
      (Q R : Account → InMemoryTokenVault → Type 0) (o : Outcome MethodError W Account)
      → ((a : Account) (vault : InMemoryTokenVault) → Q a vault → R a vault)
      → With Q o
      → With R o
  weaken_With Q R (ok a s) h q = h a s.0 q
  weaken_With Q R (err e s) h q = tt

  no_secret_lem :
      (T : TokenPorts) (client_id : Text) (t : T.World) (account : Account)
      (vault : InMemoryTokenVault)
      → HasNoSecret account vault
      → GetsNoToken T client_id t account vault
  unfolding access_token load_refresh
  no_secret_lem T client_id t account vault h = rw h refl

  -- If the identifiers given next have no secret in the vault yet, then an account that
  -- `add_sharepoint` returns has none either, and the token source, whatever the platform would answer,
  -- fails for it with the error of the vault.
  pub add_sharepoint-GetsNoToken :
      (T : TokenPorts) (client_id : Text) (t : T.World) (p : AddSharePointParams) (s : W)
      → IsFresh s.0
      → With (GetsNoToken T client_id t) (add_sharepoint V (inr p) s)
  add_sharepoint-GetsNoToken T client_id t p s fresh =
      weaken_With HasNoSecret (GetsNoToken T client_id t) (add_sharepoint V (inr p) s)
        (no_secret_lem T client_id t) (add_sharepoint-HasNoSecret p s fresh)
