-- ===== src/Tests/Service.antt =====
-- The daemon over the store in memory, with services that always succeed and a log of triggers.
use onesync.Prelude.{
  ◌≡◌, refl, ap, ◌∙◌, ◌⊎◌, inr, Bool, true, false, Option, some, none, List, [], ◌∷◌, ◌++◌, arith,
}
use onesync.Prelude.Tests.{if◌then◌else◌}
use onesync.Prelude.Equality.{◌==◌, list_eq, nat_eq}
use onesync.Prelude.Lists.{All}
use onesync.Prelude.Text.{Text, codes}
use onesync.Prelude.Outcome.{Outcome, ok, Action}
use onesync.Protocol.Account.{InstanceConfig}
use onesync.Protocol.Enums.{LogLevel}
use onesync.Protocol.Entities.{RowId, Pair}
use onesync.Protocol.Id.{id_from_str}
use onesync.Engine.Ports.{StateError}
use onesync.State.Memory.{InMemoryStore, new}
use onesync.Daemon.Services.{Services, FoundItem, TokenSet}
use onesync.Daemon.Framing.{read_frame, write_frame}
use onesync.Daemon.Framing.RoundTrip.{read_frame-write_frame}
use onesync.Daemon.Pairs.{PairAddParams}
use onesync.Daemon.Pairs.Memory.{
  StoreAgrees, PairCall, adding, pausing, resuming, removing, serve, serve-StoreAgrees,
}
use onesync.Daemon.Webhook.{
  accepted, handle_connection, parse_request_head, extract_validation_token,
}
use onesync.Daemon.Webhook.Triggers
use onesync.Daemon.Webhook.Triggers.{handle_connection-Ends}
use onesync.Engine.Types.{CycleSummary}
use onesync.State.Memory.Port.{over_memory}
use onesync.State.Memory.Reads
use onesync.Daemon.Scheduler.{Extra}
use onesync.Tests.Fakes.{fakes}
use onesync.Tests.Store.{alice, pair_of}

-- The pairs triggered, the latest first.
abbrev Log : Type 0
Log = List RowId

abbrev config : InstanceConfig
config = record {
  log_level = LogLevel.info;
  notify = false;
  allow_metered = true;
  min_free_gib = 0;
  updated_at = 0;
  azure_ad_client_id = codes "client";
  webhook_listener_port = none;
  webhook_notification_url = none;
}

abbrev tokens : TokenSet
tokens = record { access_token = []; refresh_token = [] }

abbrev folder : FoundItem
folder = record { id = codes "root"; name = codes "Documents" }

abbrev hooked : Pair
hooked = record (pair_of 7 9) { webhook_enabled = true }

-- Pair 7 has its webhook enabled, and no other.
abbrev row_of : RowId → Pair
row_of id = if id == 7 then hooked else pair_of id 9

-- What stands outside of the configuration and the triggers always succeeds.
abbrev pub willing_with :
    (W : Type 0) → Action StateError W (Option InstanceConfig) → (RowId → W → Bool × W) → Services
willing_with W config_get force_sync = record {
  World = W;
  account_get = λ id w. ok (some alice) w;
  config_get = config_get;
  pair_get = λ id w. ok (some (row_of id)) w;
  pair_upsert = λ pair w. ok tt w;
  runs_recent = λ id limit w. ok [] w;
  conflicts_unresolved = λ id w. ok [] w;
  conflict_get = λ id w. ok none w;
  conflict_resolve = λ id resolution now comment w. ok tt w;
  audit_append = λ event w. ok tt w;
  mkdir_p = λ path w. ok tt w;
  load_refresh = λ id w. ok [] w;
  store_refresh = λ id token w. ok [] w;
  refresh = λ client token w. ok tokens w;
  item_by_path = λ token drive path w. ok (some folder) w;
  force_sync = force_sync;
  now = λ w. (5, w);
  new_id = λ w. (3, w);
  emit = λ event w. w;
}

abbrev pub willing : Services
willing = willing_with Log (λ w. ok (some config) w) (λ id w. (true, id ∷ w))

abbrev at_start : InMemoryStore
at_start = record new { accounts = (9, alice) ∷ []; config = some config }

abbrev params : PairAddParams
params = record {
  account_id = 9;
  local_path = codes "/home/a";
  remote_path = codes "/Documents";
  display_name = none;
}

abbrev calls : List PairCall
calls =
    adding (inr params)
    ∷ (pausing (inr 3) ∷ (removing (inr 3) ∷ (resuming (inr 8) ∷ (resuming (inr 3) ∷ []))))

serve-StoreAgrees_example : StoreAgrees willing (serve willing (λ id. []) calls (at_start, []))
serve-StoreAgrees_example = serve-StoreAgrees willing (λ id. []) calls (at_start, []) tt

abbrev json : Text
json = codes "{}"

read_frame-write_frame_example :
    read_frame (λ t. true) [] (write_frame json [] ++ codes "rest") ≡ ok json (codes "rest")
read_frame-write_frame_example =
    read_frame-write_frame (λ t. true) [] json (codes "rest")
      (record { one_line = refl; no_return = refl; short = omega arith }) refl

-- A request with the line, two headers and the body.
abbrev request : Text
request =
    codes "POST /hook HTTP/1.1"
    ++ (13 ∷ (10 ∷ codes "Host: a"))
    ++ (13 ∷ (10 ∷ codes "content-length: 2"))
    ++ (13 ∷ (10 ∷ (13 ∷ (10 ∷ codes "{}"))))

abbrev first_words : Text → List Text
first_words line = codes "POST" ∷ (codes "/hook" ∷ [])

abbrev drop_space : Text → Text
drop_space [] = []
drop_space (c ∷ s) = s

abbrev IsSeven : Log → Type 0
IsSeven = All (λ id. id ≡ 7)

abbrev ulid : Text → Text ⊎ RowId
ulid t = inr 7

abbrev states : Text → Text ⊎ List Text
states body = inr (codes "pair_7" ∷ (codes "conf_7" ∷ []))

handled :
    handle_connection willing first_words drop_space ulid (λ id. []) states request []
    ≡ ok accepted (7 ∷ [])
unfolding handle_connection parse_request_head extract_validation_token id_from_str
handled = refl

abbrev pair_in : Outcome StateError Log (Option Pair) → Bool
pair_in (ok (some pair) w) = pair.webhook_enabled
pair_in _ = false

only_seven : (id : RowId) → (row_of id).webhook_enabled ≡ true → id ≡ 7
only_seven id h = ground (arith, h)

willing_keeps : Triggers.Keeps willing IsSeven
willing_keeps = record {
  pair_get = λ id w i. i;
  force_sync = λ id pair w v e h i. (only_seven id (ap pair_in e ∙ h), i);
}

handle_connection-Ends_example :
    Triggers.Ends willing IsSeven
      (handle_connection willing first_words drop_space ulid (λ id. []) states request [])
handle_connection-Ends_example =
    handle_connection-Ends willing first_words drop_space ulid (λ id. []) states IsSeven
      willing_keeps request [] tt

abbrev extra : Extra (over_memory fakes)
extra = record {
  account_get = Reads.account_get;
  config_get = Reads.config_get;
  pairs_active = Reads.pairs_active (λ id. []);
  free_space_gib = λ path e. ok 10 e;
  notify_user = λ title message e. e;
  display = λ path. [];
  host_name = [];
}

abbrev summary : CycleSummary
summary = record {
  remote_items_seen = 0;
  local_events_seen = 0;
  ops_applied = 0;
  conflicts_detected = 0;
  delta_token = some (codes "cursor");
}

-- The pair was paused while its cycle ran, and is not paused afterwards.
abbrev paused_meanwhile : InMemoryStore
paused_meanwhile = record new { pairs = (7, (record hooked { paused = true })) ∷ [] }

abbrev written : Pair
written = record hooked {
  delta_token = some (codes "cursor");
  last_sync_at = some 3;
  updated_at = 3;
}
