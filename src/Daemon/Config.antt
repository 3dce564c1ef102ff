-- ===== src/Daemon/Config.antt =====
-- crates/onesync-daemon/src/methods/config.rs, over the services of the methods and the write of the
-- row. The parameters of `config.set` name four of the fields.
pub mod SignIn
use onesync.Prelude.{ℕ, ◌⊎◌, inl, inr, Bool, true, false, Option, none, some, []}
use onesync.Prelude.Text.{Text}
use onesync.Prelude.Outcome.{Outcome, ok, err, and_then, Action, return, ◌>>=◌, ◌>>◌}
use onesync.Protocol.Enums.{LogLevel}
use onesync.Protocol.FileSide.{Timestamp}
use onesync.Protocol.Account.{InstanceConfig}
use onesync.Engine.Ports.{StateError}
use onesync.Daemon.Services.{Services, MethodError, invalid_params, Method, stored, reading}

pub record ConfigSetParams : Type 0 where
  pub log_level : Option LogLevel
  pub notify : Option Bool
  pub allow_metered : Option Bool
  pub min_free_gib : Option ℕ

abbrev unwrap_or : {A : Type 0} → A → Option A → A
unwrap_or a none = a
unwrap_or a (some b) = b

-- The row that `config.set` writes.
abbrev pub merged : ConfigSetParams → Timestamp → Option InstanceConfig → InstanceConfig
merged p now none = record {
  log_level = unwrap_or LogLevel.info p.log_level;
  notify = unwrap_or true p.notify;
  allow_metered = unwrap_or false p.allow_metered;
  min_free_gib = unwrap_or 2 p.min_free_gib;
  updated_at = now;
  azure_ad_client_id = [];
  webhook_listener_port = none;
  webhook_notification_url = none;
}
merged p now (some c) = record c {
  log_level = unwrap_or c.log_level p.log_level;
  notify = unwrap_or c.notify p.notify;
  allow_metered = unwrap_or c.allow_metered p.allow_metered;
  min_free_gib = unwrap_or c.min_free_gib p.min_free_gib;
  updated_at = now;
}

module _ (S : Services)
    (config_upsert : InstanceConfig → Action StateError S.World (Unit {0})) where
  unfoldable pub get : Method S (Option InstanceConfig)
  get = stored S S.config_get

  abbrev pub store_merged : ConfigSetParams → Method S InstanceConfig
  store_merged p = do
    now ← reading S S.now
    existing ← stored S S.config_get
    let cfg = merged p now existing
    stored S (config_upsert cfg)
    return cfg

  unfoldable pub set : Text ⊎ ConfigSetParams → Method S InstanceConfig
  set (inl e) w = err (invalid_params e) w
  set (inr p) w = store_merged p w

  unfoldable pub reload : Method S (Option InstanceConfig)
  unfolding get
  reload = get
