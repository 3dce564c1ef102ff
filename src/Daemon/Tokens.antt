-- ===== src/Daemon/Tokens.antt =====
-- `VaultBackedTokenSource` of crates/onesync-daemon/src/scheduler.rs: the access token, from the cache
-- or by a refresh that is tried again on passing failures. Instants are nanoseconds. The lock of the
-- cache is held for one access, so that the cache is a part of the state.
pub mod Attempts
use onesync.Prelude.{
  ℕ, zero, suc, ◌+◌, ◌-◌, ◌*◌, ◌/◌, ◌^◌, Bool, true, false, Option, none, some, List, [], ◌∷◌,
}
use onesync.Prelude.Tests.{if◌then◌else◌, ltb}
use onesync.Prelude.Equality.{string_eq}
use onesync.Prelude.Text.{Text, codes}
use onesync.Prelude.Outcome.{Outcome, ok, err, and_then, Action}
use onesync.Protocol.Enums.{AuditLevel}
use onesync.Protocol.FileSide.{Timestamp}
use onesync.Protocol.Entities.{RowId, Pair, AuditEvent, Json, string, insert}
use onesync.Engine.Ports.{StateError}
use onesync.Graph.Errors.{cause, GraphInternalError, re_auth_required, transient, network, decode}
use onesync.Daemon.Scheduler.{errored_row}

pub record Tokens : Type 0 where
  pub access_token : Text
  pub refresh_token : Text
  pub expires_in : ℕ

pub record CachedToken : Type 0 where
  pub access_token : Text
  pub fetched_at : ℕ
  pub expires_in : ℕ

pub record TokenPorts : Type 1 where
  pub World : Type 0
  pub pairs_list : RowId → Action StateError World (List Pair)
  pub pair_upsert : Pair → Action StateError World (Unit {0})
  pub audit_append : AuditEvent → Action StateError World (Unit {0})
  pub emit : AuditEvent → World → World
  pub now : World → Timestamp × World
  pub new_id : World → RowId × World
  pub load_refresh : RowId → Action Text World Text
  pub store_refresh : RowId → Text → Action Text World Text
  pub refresh : Text → Text → Action GraphInternalError World Tokens
  pub sleep_ms : ℕ → World → World
  pub instant : World → ℕ × World
  pub id_text : RowId → Text

abbrev pub token_refresh_leeway_s : ℕ
token_refresh_leeway_s = 120

abbrev pub token_refresh_max_attempts : ℕ
token_refresh_max_attempts = 3

abbrev pub token_refresh_backoff_base_ms : ℕ
token_refresh_backoff_base_ms = 250

-- Whether a cached token is used: it is good for longer than the leeway.
abbrev pub is_fresh : ℕ → CachedToken → Bool
is_fresh instant c =
    ltb ((instant - c.fetched_at) / 1000000000 + token_refresh_leeway_s) c.expires_in

module _ (T : TokenPorts) (account_id : RowId) (client_id : Text) where
  -- The world after a call whose error is only logged.
  abbrev pub logged : {E A : Type 0} → Outcome E T.World A → T.World
  logged (ok a w) = w
  logged (err e w) = w

  abbrev pub mark_all : Timestamp → List Pair → T.World → T.World
  mark_all now [] w = w
  mark_all now (pair ∷ pairs) w =
      mark_all now pairs
        (logged (T.pair_upsert (errored_row now (codes "re-auth required") pair) w))

  abbrev pub mark_listed : Timestamp → Outcome StateError T.World (List Pair) → T.World
  mark_listed now (ok pairs w) = mark_all now pairs w
  mark_listed now (err e w) = w

  abbrev pub re_auth_event : RowId → Timestamp → AuditEvent
  re_auth_event id ts = record {
    id = id;
    ts = ts;
    level = AuditLevel.error;
    kind = "account.re_auth_required";
    pair_id = none;
    payload = insert "account_id" (string (T.id_text account_id)) [];
  }

  unfoldable pub handle_re_auth_required : T.World → T.World
  handle_re_auth_required w =
      let (ts, w1) = T.now w in
      let (id, w2) = T.new_id (mark_listed ts (T.pairs_list account_id w1)) in
      let event = re_auth_event id ts in T.emit event (logged (T.audit_append event w2))

  abbrev pub Refreshed : Type 0
  Refreshed = Outcome GraphInternalError T.World (Option Tokens)

  -- Once more after a pause, below the limit of attempts.
  abbrev pub again_or : (ℕ → T.World → Refreshed) → ℕ → GraphInternalError → T.World → Refreshed
  again_or rest attempt e w =
      let delay = token_refresh_backoff_base_ms * 2 ^ (attempt - 1) in
      if ltb attempt token_refresh_max_attempts then rest attempt (T.sleep_ms delay w) else err e w

  abbrev pub after_refresh :
      (ℕ → T.World → Refreshed) → ℕ → Outcome GraphInternalError T.World Tokens → Refreshed
  after_refresh rest attempt (ok tokens w) = ok (some tokens) w
  after_refresh rest attempt (err (re_auth_required request_id) w) =
      err (re_auth_required request_id) (handle_re_auth_required w)
  after_refresh rest attempt (err (network detail) w) = again_or rest attempt (network detail) w
  after_refresh rest attempt (err (transient detail request_id) w) =
      again_or rest attempt (transient detail request_id) w
  after_refresh rest attempt (err e w) = err e w

  -- `none` stands for fuel that ran out.
  abbrev pub refresh_loop : ℕ → Text → ℕ → T.World → Refreshed
  refresh_loop zero rt attempt w = ok none w
  refresh_loop (suc fuel) rt attempt w =
      after_refresh (refresh_loop fuel rt) (attempt + 1) (T.refresh client_id rt w)

  abbrev pub Cache : Type 0
  Cache = T.World × Option CachedToken

  abbrev pub Answer : Type 0
  Answer = Outcome GraphInternalError Cache (Option Text)

  abbrev pub keep_token : Option CachedToken → Refreshed → Answer
  keep_token cache (err e w) = err e (w, cache)
  keep_token cache (ok none w) = ok none (w, cache)
  keep_token cache (ok (some tokens) w) =
      let stored = logged (T.store_refresh account_id tokens.refresh_token w) in
      let (fetched_at, v) = T.instant stored in
      ok (some tokens.access_token) (
        v,
        some (record {
          access_token = tokens.access_token;
          fetched_at = fetched_at;
          expires_in = tokens.expires_in;
        }),
      )

  abbrev pub with_vault : Option CachedToken → Outcome Text T.World Text → Answer
  with_vault cache (err e w) = err (decode (cause e)) (w, cache)
  with_vault cache (ok rt w) = keep_token cache (refresh_loop token_refresh_max_attempts rt 0 w)

  abbrev pub renewed : Option CachedToken → T.World → Answer
  renewed cache w = with_vault cache (T.load_refresh account_id w)

  abbrev pub from_cache : ℕ → CachedToken → T.World → Answer
  from_cache instant c w =
      if is_fresh instant c then ok (some c.access_token) (w, some c) else renewed (some c) w

  abbrev pub cached_or : Option CachedToken → T.World → Answer
  cached_or none w = renewed none w
  cached_or (some c) w = let (instant, v) = T.instant w in from_cache instant c v

  unfoldable pub access_token : Cache → Answer
  access_token s = cached_or s.1 s.0
