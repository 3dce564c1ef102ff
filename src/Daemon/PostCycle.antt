-- ===== src/Daemon/PostCycle.antt =====
-- `persist_post_cycle` of crates/onesync-daemon/src/scheduler.rs. Its log lines are left out.
use onesync.Prelude.{Bool, not, ◌&&◌, Option, none, some}
use onesync.Prelude.Tests.{if◌then◌else◌, is_some}
use onesync.Prelude.Equality.{◌==◌, nat_eq, list_eq, option_eq}
use onesync.Prelude.Text.{Text}
use onesync.Prelude.Outcome.{return, ◌>>=◌}
use onesync.Protocol.Enums.{active, is_initializing}
use onesync.Protocol.FileSide.{Timestamp}
use onesync.Protocol.Entities.{Pair}
use onesync.Engine.Types.{CycleSummary}
use onesync.Engine.Ports.{Ports, M, env, state_attempt}

-- `Option::or`.
abbrev pub or_else : Option Text → Option Text → Option Text
or_else (some t) other = some t
or_else none other = other

unfoldable pub promotes : Pair → CycleSummary → Bool
promotes pair summary = is_initializing pair.status && is_some summary.delta_token

-- The row to write, if there is one.
unfoldable pub post_cycle_row : Timestamp → Pair → CycleSummary → Option Pair
unfolding promotes
post_cycle_row now pair summary =
    let new_cursor = or_else summary.delta_token pair.delta_token in
    if not (promotes pair summary) && new_cursor == pair.delta_token
    then none
    else some (record pair {
      status = if promotes pair summary then active else pair.status;
      delta_token = new_cursor;
      last_sync_at = some now;
      updated_at = now;
    })

module _ (P : Ports) where
  abbrev write : Option Pair → M P (Unit {0})
  write none = return tt
  write (some pair) = state_attempt P (P.pair_upsert pair) >>= λ _. return tt

  -- A failed write is only logged.
  unfoldable pub persist_post_cycle : Pair → CycleSummary → M P (Unit {0})
  unfolding post_cycle_row
  persist_post_cycle pair summary = env P P.now >>= λ now. write (post_cycle_row now pair summary)
