-- ===== src/Daemon/Webhook/Triggers.antt =====
-- Which pairs a request can trigger.
use onesync.Prelude.{◌≡◌, refl, ◌⊎◌, inl, inr, Bool, true, false, Option, none, some, List, [], ◌∷◌}
use onesync.Prelude.Tests.{Bool-cases}
use onesync.Prelude.Equality.{◌==◌, nat_eq, list_eq}
use onesync.Prelude.Text.{Text, codes, is_empty}
use onesync.Prelude.Outcome.{Outcome, ok, err}
use onesync.Protocol.Entities.{RowId, Pair}
use onesync.Engine.Ports.{StateError}
use onesync.Daemon.Services.{Services}
use onesync.Daemon.Webhook.{
  WebhookError, handle_connection, trigger_if, confirmed, notify_id, notify_all, on_notifications,
  on_token, on_body, on_request_line, on_head, body_from_buffer, extract_validation_token,
  split_request_line, parse_request_head,
}

module _ (S : Services) (I : S.World → Type 0) where
  abbrev pub Ends : {E A : Type 0} → Outcome E S.World A → Type 0
  Ends (ok a w) = I w
  Ends (err e w) = I w

  -- What reading a pair keeps, and triggering a pair that was just read as one with its webhook on.
  pub record Keeps : Type 0 where
    pub pair_get : (id : RowId) (w : S.World) → I w → Ends (S.pair_get id w)
    pub force_sync :
        (id : RowId) (pair : Pair) (w v : S.World)
        → S.pair_get id w ≡ ok (some pair) v
        → pair.webhook_enabled ≡ true
        → I v
        → I (S.force_sync id v).1

module _ (S : Services) (words : Text → List Text) (trim : Text → Text)
    (parse_ulid : Text → Text ⊎ RowId) (print_ulid : RowId → Text)
    (parse_notifications : Text → Text ⊎ List Text) (I : S.World → Type 0) (keeps : Keeps S I) where
  trigger_step :
      (id : RowId) (pair : Pair) (w v : S.World) (enabled : Bool)
      → S.pair_get id w ≡ ok (some pair) v
      → pair.webhook_enabled ≡ enabled
      → I v
      → I (trigger_if S words trim parse_ulid print_ulid parse_notifications id enabled v)
  trigger_step id pair w v false e h i = i
  trigger_step id pair w v true e h i = keeps.force_sync id pair w v e h i

  confirm_step :
      (id : RowId) (w : S.World) (o : Outcome StateError S.World (Option Pair))
      → S.pair_get id w ≡ o
      → Ends S I o
      → I (confirmed S words trim parse_ulid print_ulid parse_notifications id o)
  confirm_step id w (err x v) e i = i
  confirm_step id w (ok none v) e i = i
  confirm_step id w (ok (some pair) v) e i = trigger_step id pair w v pair.webhook_enabled e refl i

  notify_step :
      (o : Option RowId) (w : S.World)
      → I w
      → I (notify_id S words trim parse_ulid print_ulid parse_notifications o w)
  notify_step none w i = i
  notify_step (some id) w i = confirm_step id w (S.pair_get id w) refl (keeps.pair_get id w i)

  notify_all_step :
      (states : List Text) (w : S.World)
      → I w
      → I (notify_all S words trim parse_ulid print_ulid parse_notifications states w)
  notify_all_step [] w i = i
  notify_all_step (client_state ∷ rest) w i = notify_all_step rest _ (notify_step _ w i)

  notifications_step :
      (o : Text ⊎ List Text) (w : S.World)
      → I w
      → Ends S I (on_notifications S words trim parse_ulid print_ulid parse_notifications o w)
  notifications_step (inl e) w i = i
  notifications_step (inr states) w i = notify_all_step states w i

  token_step :
      (body : Text) (o : Option Text) (w : S.World)
      → I w
      → Ends S I (on_token S words trim parse_ulid print_ulid parse_notifications body o w)
  token_step body (some token) w i = i
  token_step body none w i = notifications_step (parse_notifications body) w i

  body_step :
      (target : Text) (o : WebhookError ⊎ Text) (w : S.World)
      → I w
      → Ends S I (on_body S words trim parse_ulid print_ulid parse_notifications target o w)
  body_step target (inl e) w i = i
  body_step target (inr body) w i = token_step body (extract_validation_token target) w i

  line_step :
      (headers body : Text) (o : WebhookError ⊎ (Text × Text)) (w : S.World)
      → I w
      → Ends S I
          (on_request_line S words trim parse_ulid print_ulid parse_notifications headers body o w)
  line_step headers body (inl e) w i = i
  line_step headers body (inr (method, target)) w i = elim (Bool-cases (method == codes "POST")) [
    | inl post ↦ rw post (body_step target (body_from_buffer trim body headers) w i)
    | inr other ↦ rw other i
  ]

  head_step :
      (o : WebhookError ⊎ (Text × Text × Text)) (w : S.World)
      → I w
      → Ends S I (on_head S words trim parse_ulid print_ulid parse_notifications o w)
  head_step (inl e) w i = i
  head_step (inr (line, headers, body)) w i =
      line_step headers body (split_request_line words line) w i

  -- Whatever fact about the daemon is kept by reading pairs, and by triggering a pair that was just
  -- read with its webhook enabled: if it holds before a request is handled, it holds after it,
  -- whatever the request is.
  pub handle_connection-Ends :
      (request : Text) (w : S.World)
      → I w
      → Ends S I
          (handle_connection S words trim parse_ulid print_ulid parse_notifications request w)
  unfolding handle_connection
  handle_connection-Ends request w i = elim (Bool-cases (is_empty request)) [
    | inl empty ↦ rw empty i
    | inr some_text ↦ rw some_text (head_step (parse_request_head request) w i)
  ]
