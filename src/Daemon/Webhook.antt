-- ===== src/Daemon/Webhook.antt =====
-- crates/onesync-daemon/src/webhook_receiver.rs from the request's text on: `from_utf8_lossy` has made
-- it a text, and the reply is what is written back. `split_whitespace` and `trim`, which know Unicode's
-- white space, serde_json and the ULID's parser are parameters.
pub mod Triggers
use onesync.Prelude.{
  ℕ, zero, suc, ◌*◌, Bool, true, false, ◌&&◌, ◌||◌, not, Option, none, some, List, [], ◌∷◌, ◌⊎◌,
  inl, inr,
}
use onesync.Prelude.Tests.{if◌then◌else◌, ltb, leb, is_some}
use onesync.Prelude.Equality.{◌==◌, nat_eq, list_eq}
use onesync.Prelude.Lists.{length}
use onesync.Prelude.Text.{
  Text, codes, split, split_first, strip_prefix, is_empty, to_ascii_lowercase,
}
use onesync.Prelude.Sorting.{take}
use onesync.Prelude.Outcome.{Outcome, ok, err, and_then, Action}
use onesync.Protocol.Entities.{RowId, Pair}
use onesync.Protocol.Id.{IdParseError, id_from_str}
use onesync.Engine.Limits.{kib}
use onesync.Engine.Ports.{StateError}
use onesync.Graph.Http.{parse_u64}
use onesync.Daemon.Framing.{strip_last, or_same}
use onesync.Daemon.Services.{Services}

pub data WebhookError : Type 0 where
  empty_request no_header_split no_request_line missing_method missing_target : WebhookError
  content_length_too_large : ℕ → WebhookError
  body_too_short : ℕ → ℕ → WebhookError
  not_a_char_boundary : WebhookError
  notification_parse : Text → WebhookError

pub data Reply : Type 0 where
  method_not_allowed accepted : Reply
  validated : Text → Reply

abbrev pub max_body_bytes : ℕ
max_body_bytes = 256 * kib

abbrev pub crlf : Text
crlf = 13 ∷ (10 ∷ [])

abbrev pub blank_line : Text
blank_line = 13 ∷ (10 ∷ (13 ∷ (10 ∷ [])))

-- `str::split_once` for a text: what is in front of the first occurrence, and what is behind it.
abbrev pub later_split : ℕ → Option (Text × Text) → Option (Text × Text)
later_split c none = none
later_split c (some (before, behind)) = some (c ∷ before, behind)

abbrev pub first_split : Option Text → Option (Text × Text) → Option (Text × Text)
first_split (some behind) later = some ([], behind)
first_split none later = later

abbrev pub split_once : Text → Text → Option (Text × Text)
split_once pat [] = first_split (strip_prefix pat []) none
split_once pat (c ∷ s) = first_split (strip_prefix pat (c ∷ s)) (later_split c (split_once pat s))

-- The request line, the headers, and the text from `body_offset` on.
abbrev pub head_parts : Text → Option (Text × Text) → WebhookError ⊎ (Text × Text × Text)
head_parts body none = inl no_request_line
head_parts body (some (line, headers)) = inr (line, headers, body)

abbrev pub head_and_body : Option (Text × Text) → WebhookError ⊎ (Text × Text × Text)
head_and_body none = inl no_header_split
head_and_body (some (head, body)) = head_parts body (split_once crlf head)

unfoldable pub parse_request_head : Text → WebhookError ⊎ (Text × Text × Text)
parse_request_head req = head_and_body (split_once blank_line req)

-- `str::lines`: a carriage return in front of a newline is not kept, and neither is an empty last
-- line.
abbrev without_return : List Text → List Text
without_return [] = []
without_return (part ∷ []) = if is_empty part then [] else part ∷ []
without_return (part ∷ (next ∷ parts)) =
    or_same part (strip_last 13 part) ∷ without_return (next ∷ parts)

abbrev pub lines : Text → List Text
lines s = without_return (split 10 s)

module _ (words : Text → List Text) where
  abbrev pub target_of : Text → List Text → WebhookError ⊎ (Text × Text)
  target_of method [] = inl missing_target
  target_of method (target ∷ rest) = inr (method, target)

  abbrev pub method_and_target : List Text → WebhookError ⊎ (Text × Text)
  method_and_target [] = inl missing_method
  method_and_target (method ∷ rest) = target_of method rest

  abbrev pub split_request_line : Text → WebhookError ⊎ (Text × Text)
  split_request_line line = method_and_target (words line)

-- Whether a text can be cut in front of a byte: the byte does not go on a character. Slicing at
-- another place panics.
abbrev pub starts_char : Text → Bool
starts_char [] = true
starts_char (c ∷ s) = ltb c 128 || leb 192 c

abbrev pub is_char_boundary : ℕ → Text → Bool
is_char_boundary zero s = true
is_char_boundary (suc n) [] = true
is_char_boundary (suc n) (c ∷ s) = if n == 0 then starts_char s else is_char_boundary n s

module _ (trim : Text → Text) where
  abbrev pub length_of_header : Option (Text × Text) → Option ℕ
  length_of_header none = none
  length_of_header (some (k, v)) =
      if to_ascii_lowercase k == codes "content-length" then parse_u64 (trim v) else none

  abbrev pub content_length : List Text → ℕ
  content_length [] = 0
  content_length (h ∷ hs) =
      let rest = content_length hs in
      elim (length_of_header (split_first b':' h)) [ some n ↦ n | none ↦ rest ]

  abbrev pub body_from_buffer : Text → Text → WebhookError ⊎ Text
  body_from_buffer body headers_block =
      let wanted = content_length (lines headers_block) in
      if ltb max_body_bytes wanted
      then inl (content_length_too_large wanted)
      else if ltb (length body) wanted
      then inl (body_too_short (length body) wanted)
      else if is_char_boundary wanted body
      then inr (take wanted body)
      else inl not_a_char_boundary

abbrev pub token_of : Option (Text × Text) → Option Text
token_of none = none
token_of (some (k, v)) = if k == codes "validationToken" then some v else none

abbrev pub first_token : List Text → Option Text
first_token [] = none
first_token (kv ∷ kvs) =
    let rest = first_token kvs in
    elim (token_of (split_first b'=' kv)) [ some v ↦ some v | none ↦ rest ]

abbrev pub token_in : Option (Text × Text) → Option Text
token_in none = none
token_in (some (path, query)) = first_token (split b'&' query)

unfoldable pub extract_validation_token : Text → Option Text
extract_validation_token target = token_in (split_first b'?' target)

abbrev pub id_or_none : IdParseError ⊎ RowId → Option RowId
id_or_none (inl e) = none
id_or_none (inr id) = some id

module _ (S : Services) (words : Text → List Text) (trim : Text → Text)
    (parse_ulid : Text → Text ⊎ RowId) (print_ulid : RowId → Text)
    (parse_notifications : Text → Text ⊎ List Text) where
  abbrev pub parse_pair_id_from_client_state : Text → Option RowId
  parse_pair_id_from_client_state client_state =
      if is_some (strip_prefix (codes "pair_") client_state)
      then id_or_none (id_from_str print_ulid parse_ulid (codes "pair") client_state)
      else none

  abbrev pub trigger_if : RowId → Bool → S.World → S.World
  trigger_if id false w = w
  trigger_if id true w = (S.force_sync id w).1

  -- Only a pair that exists and has its webhook enabled is triggered.
  abbrev pub confirmed : RowId → Outcome StateError S.World (Option Pair) → S.World
  confirmed id (err e w) = w
  confirmed id (ok none w) = w
  confirmed id (ok (some pair) w) = trigger_if id pair.webhook_enabled w

  abbrev pub notify_id : Option RowId → S.World → S.World
  notify_id none w = w
  notify_id (some id) w = confirmed id (S.pair_get id w)

  abbrev pub notify_all : List Text → S.World → S.World
  notify_all [] w = w
  notify_all (client_state ∷ rest) w =
      notify_all rest (notify_id (parse_pair_id_from_client_state client_state) w)

  abbrev pub R : Type 0
  R = Outcome WebhookError S.World Reply

  abbrev pub on_notifications : Text ⊎ List Text → S.World → R
  on_notifications (inl e) w = err (notification_parse e) w
  on_notifications (inr states) w = ok accepted (notify_all states w)

  abbrev pub on_token : Text → Option Text → S.World → R
  on_token body (some token) w = ok (validated token) w
  on_token body none w = on_notifications (parse_notifications body) w

  abbrev pub on_body : Text → WebhookError ⊎ Text → S.World → R
  on_body target (inl e) w = err e w
  on_body target (inr body) w = on_token body (extract_validation_token target) w

  abbrev pub on_request_line : Text → Text → WebhookError ⊎ (Text × Text) → S.World → R
  on_request_line headers body (inl e) w = err e w
  on_request_line headers body (inr (method, target)) w =
      if method == codes "POST"
      then on_body target (body_from_buffer trim body headers) w
      else ok method_not_allowed w

  abbrev pub on_head : WebhookError ⊎ (Text × Text × Text) → S.World → R
  on_head (inl e) w = err e w
  on_head (inr (line, headers, body)) w =
      on_request_line headers body (split_request_line words line) w

  unfoldable pub handle_connection : Text → S.World → R
  handle_connection request w =
      if is_empty request then err empty_request w else on_head (parse_request_head request) w
