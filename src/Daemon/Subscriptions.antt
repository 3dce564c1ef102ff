-- ===== src/Daemon/Subscriptions.antt =====
-- `SubscriptionRegistry` of crates/onesync-daemon/src/ipc/subscriptions.rs. A channel is what waits in it
-- and whether its receiver was dropped; the receiver's side, which the connection holds, is in the same
-- record. Each method holds the lock of the registry, so that any mix of them is a list of events.
pub mod Alone
use onesync.Prelude.{ℕ, Bool, true, false, Option, none, some, List, [], ◌∷◌, ◌++◌}
use onesync.Prelude.Tests.{if◌then◌else◌, leb, ltb}
use onesync.Prelude.Equality.{Eq, ◌==◌, nat_eq, list_eq}
use onesync.Prelude.Lists.{length}
use onesync.Prelude.Map.{Map, insert, remove, adjust}
use onesync.Prelude.Text.{Text}

abbrev pub sub_channel_depth : ℕ
sub_channel_depth = 256

-- A notification is its text.
pub record Channel : Type 0 where
  pub waiting : List Text
  pub closed : Bool

abbrev pub Registry : Type 0
Registry = Map Text Channel

abbrev pub new_channel : Channel
new_channel = record { waiting = []; closed = false }

-- `SubscriptionRegistry::insert`: a subscription under the same identifier is replaced.
unfoldable pub subscribe : Text → Registry → Registry
subscribe id r = insert id new_channel r

-- `SubscriptionRegistry::remove`.
unfoldable pub cancel : Text → Registry → Registry
cancel id r = remove id r

abbrev pub kept : Text → Option Channel → Registry → Registry
kept id none r = r
kept id (some c) r = (id, c) ∷ r

-- `retain` with a change of what is kept.
abbrev pub retain_mut : (Channel → Option Channel) → Registry → Registry
retain_mut f [] = []
retain_mut f ((id, c) ∷ r) = kept id (f c) (retain_mut f r)

-- `try_send`: into an open channel with room, nothing into a full one; a closed one goes.
abbrev pub try_send : Text → Channel → Option Channel
try_send notif c =
    if c.closed
    then none
    else if ltb (length c.waiting) sub_channel_depth
    then some (record c { waiting = c.waiting ++ (notif ∷ []) })
    else some c

unfoldable pub broadcast : Text → Registry → Registry
broadcast notif r = retain_mut (try_send notif) r

abbrev pub if_open : Channel → Option Channel
if_open c = if c.closed then none else some c

unfoldable pub gc : Registry → Registry
gc r = retain_mut if_open r

unfoldable pub len : Registry → ℕ
len r = length r

unfoldable pub is_empty : Registry → Bool
unfolding len
is_empty r = len r == 0

abbrev pub behind_first : List Text → List Text
behind_first [] = []
behind_first (n ∷ ns) = ns

-- The connection takes the notification that waits longest.
abbrev pub take_one : Channel → Channel
take_one c = record c { waiting = behind_first c.waiting }

abbrev pub closed_now : Channel → Channel
closed_now c = record c { closed = true }

-- What happens to the registry and its channels.
pub data Event : Type 0 where
  subscribed cancelled received disconnected : Text → Event
  sent : Text → Event
  swept : Event

abbrev pub step : Event → Registry → Registry
step (subscribed id) r = subscribe id r
step (cancelled id) r = cancel id r
step (received id) r = adjust id take_one r
step (disconnected id) r = adjust id closed_now r
step (sent notif) r = broadcast notif r
step swept r = gc r

abbrev pub steps : List Event → Registry → Registry
steps [] r = r
steps (e ∷ es) r = steps es (step e r)
