-- ===== src/Daemon/Config/SignIn.antt =====
-- The client identifier, which a sign-in needs, is none of the fields that `config.set` takes.
use onesync.Prelude.{◌≡◌, refl, ◌⊎◌, inl, inr, Option, none, some, List, [], ◌∷◌}
use onesync.Prelude.Text.{Text}
use onesync.Prelude.Outcome.{Outcome, ok, err, and_then, Action, return, ◌>>=◌}
use onesync.Protocol.Account.{InstanceConfig, client_id_of}
use onesync.Protocol.FileSide.{Timestamp}
use onesync.Engine.Ports.{StateError}
use onesync.Daemon.Services.{MethodError, internal_error, app, or_error, stored}
use onesync.Daemon.Accounts.{
  AccountServices, LoginRegistry, login_begin, require_client_id, registered, Begun,
}
use onesync.Daemon.Config.{ConfigSetParams, merged, set}

module _ (A : AccountServices)
    (config_upsert : InstanceConfig → Action StateError A.base.World (Unit {0}))
    (I : A.base.World → Type 0) where
  abbrev W : Type 0
  W = A.base.World

  abbrev pub world_of : {E B : Type 0} → Outcome E W B → W
  world_of (ok a w) = w
  world_of (err e w) = w

  abbrev pub Unset : Outcome StateError W (Option InstanceConfig) → Type 0
  Unset (ok row w) = (client_id_of row ≡ []) × I w
  Unset (err e w) = I w

  -- A store whose row has no client identifier as long as no row with one is written.
  pub record IsUnsetStore : Type 0 where
    pub read : (w : W) → I w → Unset (A.base.config_get w)
    pub written :
        (cfg : InstanceConfig) (w : W)
        → cfg.azure_ad_client_id ≡ []
        → I w
        → I (world_of (config_upsert cfg w))
    pub now : (w : W) → I w → I (A.base.now w).1

  -- Calls of `config.set`, whether they succeed or fail.
  abbrev pub sets : List (Text ⊎ ConfigSetParams) → W → W
  sets [] w = w
  sets (p ∷ ps) w = sets ps (world_of (set A.base config_upsert p w))

  merged_lem :
      (p : ConfigSetParams) (now : Timestamp) (row : Option InstanceConfig)
      → client_id_of row ≡ []
      → (merged p now row).azure_ad_client_id ≡ []
  merged_lem p now none h = refl
  merged_lem p now (some c) h = h

  written_lem :
      (cfg : InstanceConfig) (o : Outcome StateError W (Unit {0}))
      → I (world_of o)
      → I (world_of (and_then (or_error A.base internal_error o) (λ u. return cfg)))
  written_lem cfg (ok u w) i = i
  written_lem cfg (err e w) i = i

  store_lem :
      IsUnsetStore
      → (p : ConfigSetParams) (now : Timestamp) (o : Outcome StateError W (Option InstanceConfig))
      → Unset o
      → I (
          world_of (
            and_then (or_error A.base internal_error o) (λ existing.
              stored A.base (config_upsert (merged p now existing)) >>= λ u.
              return (merged p now existing))))
  store_lem k p now (ok row w) h =
      written_lem (merged p now row) (config_upsert (merged p now row) w)
        (k.written (merged p now row) w (merged_lem p now row h.0) h.1)
  store_lem k p now (err e w) h = h

  set-keeps :
      IsUnsetStore
      → (p : Text ⊎ ConfigSetParams) (w : W) → I w
      → I (world_of (set A.base config_upsert p w))
  unfolding set
  set-keeps k (inl e) w i = i
  set-keeps k (inr p) w i = store_lem k p _ _ (k.read _ (k.now w i))

  sets-keep : IsUnsetStore → (ps : List (Text ⊎ ConfigSetParams)) (w : W) → I w → I (sets ps w)
  sets-keep k [] w i = i
  sets-keep k (p ∷ ps) w i = sets-keep k ps _ (set-keeps k p w i)

  -- Error -32010, or the store's own error.
  abbrev IsUnsetError : MethodError → Type 0
  IsUnsetError (app n) = n ≡ 10
  IsUnsetError (internal_error e) = Unit
  IsUnsetError _ = ⊥

  abbrev pub IsRefused :
      LoginRegistry → Outcome MethodError (W × LoginRegistry) (Text × Text) → Type 0
  IsRefused r (ok a w) = ⊥
  IsRefused r (err e w) = IsUnsetError e × I w.0 × (w.1 ≡ r)

  refused_lem :
      (o : Outcome StateError W (Option InstanceConfig)) (f : Text → Action MethodError W (Begun A))
      (r : LoginRegistry)
      → Unset o
      → IsRefused r (
          registered A
            (and_then
              (and_then
                (or_error A.base internal_error o)
                (λ cfg. require_client_id A (client_id_of cfg)))
              f)
            r)
  refused_lem (ok row w) f r h = rw h.0 (refl, h.1, refl)
  refused_lem (err e w) f r h = (tt, h, refl)

  -- On a store without a client identifier: after any calls of `config.set`, successful or not, a sign-in
  -- cannot begin. It fails with the error of the missing identifier or with one of the store, opens no
  -- session, and the store is without the identifier still.
  pub login_begin-IsRefused :
      IsUnsetStore
      → (ps : List (Text ⊎ ConfigSetParams)) (authority : Option Text) (w : W) (r : LoginRegistry)
      → I w
      → IsRefused r (login_begin A (inr authority) (sets ps w, r))
  unfolding login_begin
  login_begin-IsRefused k ps authority w r i =
      refused_lem (A.base.config_get (sets ps w)) _ r (k.read _ (sets-keep k ps w i))
