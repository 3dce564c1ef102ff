-- ===== src/Protocol/Account.antt =====
-- account.rs and config.rs of crates/onesync-protocol/src.
use onesync.Prelude.{ℕ, Bool, Option, none, some, List, []}
use onesync.Prelude.Text.{Text}
use onesync.Protocol.Enums.{AccountKind, LogLevel}
use onesync.Protocol.FileSide.{Timestamp}
use onesync.Protocol.Entities.{RowId}

pub record Account : Type 0 where
  pub id : RowId
  pub kind : AccountKind
  pub upn : Text
  pub tenant_id : Text
  pub drive_id : Text
  pub display_name : Text
  pub keychain_ref : Text
  pub scopes : List Text
  pub created_at : Timestamp
  pub updated_at : Timestamp

pub record InstanceConfig : Type 0 where
  pub log_level : LogLevel
  pub notify : Bool
  pub allow_metered : Bool
  pub min_free_gib : ℕ
  pub updated_at : Timestamp
  pub azure_ad_client_id : Text
  pub webhook_listener_port : Option ℕ
  pub webhook_notification_url : Option Text

-- The client identifier that the daemon reads: `cfg.map(|c| c.azure_ad_client_id.clone()).unwrap_or_default()`.
abbrev pub client_id_of : Option InstanceConfig → Text
client_id_of none = []
client_id_of (some cfg) = cfg.azure_ad_client_id
