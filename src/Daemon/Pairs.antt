-- ===== src/Daemon/Pairs.antt =====
-- crates/onesync-daemon/src/methods/pair.rs and the resolution of conflict.rs: the methods on pairs.
-- serde_json is a parameter in so far as a handler gets its parameters parsed, or the error; a JSON
-- value that a handler returns is the data in it.
pub mod Flags
pub mod Memory
use onesync.Prelude.{ℕ, ◌⊎◌, inl, inr, Bool, true, false, Option, none, some, List, [], ◌∷◌}
use onesync.Prelude.Tests.{if◌then◌else◌}
use onesync.Prelude.Equality.{string_eq}
use onesync.Prelude.Lists.{length}
use onesync.Prelude.Text.{Text, is_empty}
use onesync.Prelude.Outcome.{Outcome, ok, err, and_then, return, ◌>>=◌, ◌>>◌}
use onesync.Protocol.Enums.{
  PairStatus, initializing, active, paused, removed, ConflictResolution, info,
}
use onesync.Protocol.FileSide.{Timestamp}
use onesync.Protocol.Path.{AbsPath, Parsed, valid, invalid, parse_abs}
use onesync.Protocol.Account.{Account, InstanceConfig, client_id_of}
use onesync.Protocol.Entities.{
  RowId, Conflict, Pair, SyncRun, AuditEvent, Json, string, JsonMap, insert,
}
use onesync.Daemon.Services.{
  Services, FoundItem, TokenSet, MethodError, invalid_params, not_accepting, app, Method, stored,
  calling, ignoring, required, reading, emitting,
}

pub record PairAddParams : Type 0 where
  pub account_id : RowId
  pub local_path : Text
  pub remote_path : Text
  pub display_name : Option Text

pub record ConflictResolveParams : Type 0 where
  pub id : RowId
  pub resolution : ConflictResolution
  pub note : Option Text

pub record PairStatusReport : Type 0 where
  pub pair : Pair
  pub recent_runs : List SyncRun
  pub unresolved_conflicts : ℕ

abbrev pub name_or : Text → Option Text → Text
name_or name none = name
name_or name (some display_name) = display_name

module _ (S : Services) (id_text : RowId → Text) where
  abbrev pub parse : {A : Type 0} → Text ⊎ A → Method S A
  parse (inl e) w = err (invalid_params e) w
  parse (inr p) w = ok p w

  abbrev pub parse_local_path : Parsed AbsPath → Method S AbsPath
  parse_local_path (valid path) w = ok path w
  parse_local_path (invalid e) w = err (invalid_params []) w

  abbrev pub require_client_id : Text → Method S (Unit {0})
  require_client_id client_id w = if is_empty client_id then err (app 10) w else ok tt w

  abbrev pub require_pair : RowId → Method S Pair
  require_pair id = stored S (S.pair_get id) >>= λ pair. required S 1 pair

  abbrev pub new_pair : PairAddParams → Account → AbsPath → FoundItem → Timestamp → RowId → Pair
  new_pair p account local_path item now id = record {
    id = id;
    account_id = account.id;
    local_path = local_path;
    remote_item_id = item.id;
    remote_path = p.remote_path;
    display_name = name_or item.name p.display_name;
    status = initializing;
    paused = false;
    delta_token = none;
    errored_reason = none;
    created_at = now;
    updated_at = now;
    last_sync_at = none;
    conflict_count = 0;
    webhook_enabled = false;
  }

  abbrev pub pair_added : Pair → Timestamp → RowId → AuditEvent
  pair_added pair now id = record {
    id = id;
    ts = now;
    level = info;
    kind = "pair.added";
    pair_id = some pair.id;
    payload = insert "remote_path" (string pair.remote_path) (
        insert "local_path" (string pair.local_path.as_str)
          (insert "account_id" (string (id_text pair.account_id)) []));
  }

  -- Steps 5 and 6 of `add`: the row and its audit event.
  abbrev pub insert_pair : PairAddParams → Account → AbsPath → FoundItem → Method S Pair
  insert_pair p account local_path item = do
    now ← reading S S.now
    id ← reading S S.new_id
    let pair = new_pair p account local_path item now id
    stored S (S.pair_upsert pair)
    audit_id ← reading S S.new_id
    ignoring S (S.audit_append (pair_added pair now audit_id))
    emitting S (pair_added pair now audit_id)
    return pair

  -- Steps 3 and 4: tokens, and the remote folder, which must exist.
  abbrev pub find_remote : PairAddParams → Account → Method S FoundItem
  find_remote p account = do
    cfg ← stored S S.config_get
    require_client_id (client_id_of cfg)
    refresh_value ← calling S 22 (S.load_refresh account.id)
    tokens ← calling S 23 (S.refresh (client_id_of cfg) refresh_value)
    ignoring S (S.store_refresh account.id tokens.refresh_token)
    item ← calling S 24 (S.item_by_path tokens.access_token account.drive_id p.remote_path)
    required S 25 item

  unfoldable pub add : Text ⊎ PairAddParams → Method S Pair
  add params = do
    p ← parse params
    found ← stored S (S.account_get p.account_id)
    account ← required S 20 found
    local_path ← parse_local_path (parse_abs p.local_path)
    calling S 21 (S.mkdir_p local_path)
    item ← find_remote p account
    insert_pair p account local_path item

  unfoldable pub get : Text ⊎ RowId → Method S Pair
  get params = parse params >>= require_pair

  abbrev pub flagged : Bool → Timestamp → Pair → Pair
  flagged flag now pair = record pair {
    paused = flag;
    status = if flag then paused else active;
    updated_at = now;
  }

  -- `set_paused` on a row that was read.
  abbrev pub store_flag : Bool → Pair → Method S RowId
  store_flag flag pair = do
    now ← reading S S.now
    stored S (S.pair_upsert (flagged flag now pair))
    return pair.id

  unfoldable pub set_paused : Text ⊎ RowId → Bool → Method S RowId
  set_paused params flag = do id ← parse params; pair ← require_pair id; store_flag flag pair

  abbrev pub pause : Text ⊎ RowId → Method S RowId
  pause params = set_paused params true

  abbrev pub resume : Text ⊎ RowId → Method S RowId
  resume params = set_paused params false

  abbrev pub gone : Timestamp → Pair → Pair
  gone now pair = record pair { status = removed; paused = true; updated_at = now }

  abbrev pub store_removed : Pair → Method S RowId
  store_removed pair = do
    now ← reading S S.now
    stored S (S.pair_upsert (gone now pair))
    return pair.id

  unfoldable pub remove : Text ⊎ RowId → Method S RowId
  remove params = do id ← parse params; pair ← require_pair id; store_removed pair

  abbrev pub triggered : RowId → Bool × S.World → Outcome MethodError S.World RowId
  triggered id (true, w) = ok id w
  triggered id (false, w) = err not_accepting w

  unfoldable pub force_sync : Text ⊎ RowId → Method S RowId
  force_sync params = do
    id ← parse params
    pair ← require_pair id
    (λ w. triggered id (S.force_sync id w))

  unfoldable pub status : Text ⊎ RowId → Method S PairStatusReport
  status params = do
    id ← parse params
    pair ← require_pair id
    recent_runs ← stored S (S.runs_recent pair.id 5)
    unresolved ← stored S (S.conflicts_unresolved pair.id)
    return (record {
      pair = pair;
      recent_runs = recent_runs;
      unresolved_conflicts = length unresolved;
    })

  -- `conflict.resolve`, which does not look whether there is such a conflict.
  unfoldable pub resolve : Text ⊎ ConflictResolveParams → Method S RowId
  resolve params = do
    p ← parse params
    now ← reading S S.now
    stored S (S.conflict_resolve p.id p.resolution now p.note)
    return p.id

  -- `conflict.list` and `conflict.get`.
  unfoldable pub list_conflicts : Text ⊎ RowId → Method S (List Conflict)
  list_conflicts params = parse params >>= λ pair. stored S (S.conflicts_unresolved pair)

  unfoldable pub get_conflict : Text ⊎ RowId → Method S Conflict
  get_conflict params = do
    id ← parse params
    conflict ← stored S (S.conflict_get id)
    required S 1 conflict
