-- ===== src/Daemon/Subscriptions/Alone.antt =====
-- One subscription among the others: the registry acts on each as if it were alone.
use onesync.Prelude.{◌≤◌, Option, none, some, List, [], ◌∷◌}
use onesync.Prelude.Tests.{if◌then◌else◌}
use onesync.Prelude.Equality.{◌==◌, nat_eq, list_eq}
use onesync.Prelude.Lists.{length}
use onesync.Prelude.Map.{apply_to}
use onesync.Prelude.Text.{Text}
use onesync.Daemon.Subscriptions.{
  Channel, new_channel, try_send, if_open, take_one, closed_now, Event, subscribed, cancelled,
  received, disconnected, sent, swept,
}

abbrev pub then_keep : (Channel → Option Channel) → Option Channel → Option Channel
then_keep f none = none
then_keep f (some c) = f c

-- What an event does to the subscription with an identifier.
abbrev pub step_alone : Text → Event → Option Channel → Option Channel
step_alone id (subscribed other) c = if other == id then some new_channel else c
step_alone id (cancelled other) c = if other == id then none else c
step_alone id (received other) c = if other == id then apply_to take_one c else c
step_alone id (disconnected other) c = if other == id then apply_to closed_now c else c
step_alone id (sent notif) c = then_keep (try_send notif) c
step_alone id swept c = then_keep if_open c

abbrev pub steps_alone : Text → List Event → Option Channel → Option Channel
steps_alone id [] c = c
steps_alone id (e ∷ es) c = steps_alone id es (step_alone id e c)

-- At most 256 notifications wait.
abbrev pub Bounded : Option Channel → Type 0
Bounded none = Unit
Bounded (some c) = length c.waiting ≤ 256
