-- ===== src/Graph/Http.antt =====
-- The HTTP client that the adapter uses, as a parameter, and `check_status` of
-- crates/onesync-graph/src/client.rs. A response carries the headers that the code reads; its body
-- is an error where it cannot be read.
pub mod Statuses
use onesync.Prelude.{
  ℕ, ◌^◌, ◌+◌, ◌*◌, ◌-◌, Bool, true, false, ◌&&◌, ◌||◌, Option, none, some, List, [], ◌∷◌, ◌⊎◌, inl,
  inr,
}
use onesync.Prelude.Tests.{if◌then◌else◌, leb, ltb}
use onesync.Prelude.Equality.{Eq, ◌==◌, nat_eq, list_eq, option_eq}
use onesync.Prelude.Text.{Text, codes}
use onesync.Prelude.Outcome.{Outcome, ok, err, Action}
use onesync.Protocol.Remote.{RemoteItem}
use onesync.Graph.Errors.{
  Detail, cause, http, unexpected_http, GraphInternalError, unauthorized, re_auth_required,
  forbidden, not_found, name_conflict, resync_required, invalid_range, stale, throttled, transient,
  network,
}

pub record Response : Type 0 where
  pub status : ℕ
  pub request_id : Option Text
  pub retry_after : Option Text
  pub etag : Option Text
  pub body : Text ⊎ Text

-- `Content-Range: bytes start-end/total`.
pub record ContentRange : Type 0 where
  pub start : ℕ
  pub last : ℕ
  pub total : ℕ

pub record Http : Type 1 where
  pub World : Type 0
  pub new_request_id : World → Text × World
  pub post : Text → Text → Text → Action Text World Response
  pub put : Text → ContentRange → ℕ → Text → List ℕ → Action Text World Response
  pub fetch : Text → Action Text World Response
  -- serde_json on a body: the address of a session, the ranges it expects, an item, and the code
  -- in an error's body
  pub parse_session : Text → Text ⊎ Text
  pub parse_ack : Text → Text ⊎ List Text
  pub parse_item : Text → Text ⊎ RemoteItem
  pub error_code : Text → Option Text

-- `str::parse::<u64>`: decimal digits behind an optional plus sign, below 2 ^ 64.
abbrev pub digits_from : ℕ → Text → Option ℕ
digits_from n [] = some n
digits_from n (c ∷ s) =
    let next = digits_from (10 * n + (c - 48)) s in if leb 48 c && leb c 57 then next else none

abbrev pub in_u64 : Option ℕ → Option ℕ
in_u64 none = none
in_u64 (some n) = if ltb n (2 ^ 64) then some n else none

abbrev pub parse_digits : Text → Option ℕ
parse_digits [] = none
parse_digits (c ∷ s) = in_u64 (digits_from 0 (c ∷ s))

abbrev pub parse_u64 : Text → Option ℕ
parse_u64 [] = none
parse_u64 (c ∷ s) = if c == 43 then parse_digits s else parse_digits (c ∷ s)

abbrev pub parse_seconds : Option Text → Option ℕ
parse_seconds none = none
parse_seconds (some t) = parse_u64 t

abbrev pub unwrap_or {ℓ} : {A : Type ℓ} → A → Option A → A
unwrap_or d none = d
unwrap_or d (some a) = a

-- `unwrap_or_default` on the body.
abbrev pub or_default : Text ⊎ Text → Text
or_default (inl e) = []
or_default (inr t) = t

-- `StatusCode::is_success`.
abbrev pub is_success : ℕ → Bool
is_success status = leb 200 status && ltb status 300

abbrev pub default_retry_after : ℕ
default_retry_after = 60

module _ (H : Http) where
  -- The error of a status that is no success.
  unfoldable pub status_error : Response → Text → GraphInternalError
  status_error resp request_id =
      let id = unwrap_or request_id resp.request_id in
      let retry_after = parse_seconds resp.retry_after in
      let etag = unwrap_or [] resp.etag in
      let body = or_default resp.body in
      let ms_code = H.error_code body in
      let status = resp.status in
      if status == 401 && ms_code == some (codes "invalid_grant")
      then re_auth_required id
      else if status == 401
      then unauthorized id
      else if status == 403
      then forbidden id
      else if status == 404
      then not_found id
      else if status == 409
      then name_conflict id
      else if status == 410
      then resync_required id
      else if status == 412
      then stale etag id
      else if status == 416
      then invalid_range id
      else if status == 429 || status == 503
      then throttled (unwrap_or default_retry_after retry_after) id
      else if leb 500 status && leb status 599
      then transient (http status body) id
      else transient (unexpected_http status body) id

  unfoldable pub check_status : Response → Text → GraphInternalError ⊎ Response
  check_status resp request_id =
      if is_success resp.status then inr resp else inl (status_error resp request_id)
