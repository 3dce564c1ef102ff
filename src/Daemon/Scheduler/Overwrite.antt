-- ===== src/Daemon/Scheduler/Overwrite.antt =====
-- What a cycle leaves in the pair's row.
use onesync.Prelude.{Option, none, some}
use onesync.Prelude.Tests.{if◌then◌else◌}
use onesync.Prelude.Equality.{◌==◌, nat_eq, list_eq, option_eq}
use onesync.Prelude.Map.{Map, insert}
use onesync.Prelude.Text.{Text}
use onesync.Protocol.Enums.{active, is_initializing}
use onesync.Protocol.FileSide.{Timestamp}
use onesync.Protocol.Entities.{RowId, Pair}
use onesync.Engine.Ports.{Ports}

-- The row of the pair after a cycle, from the row read before the cycle, the cursor that the cycle
-- returned, and the row that the store holds when it ends.
abbrev pub left_by : Timestamp → Pair → Option Text → Option Pair → Option Pair
left_by now pair none held = held
left_by now pair (some cursor) held =
    if is_initializing pair.status
    then some (record pair {
      status = active;
      delta_token = some cursor;
      last_sync_at = some now;
      updated_at = now;
    })
    else if some cursor == pair.delta_token
    then held
    else some (record pair { delta_token = some cursor; last_sync_at = some now; updated_at = now })

-- The rows after the write of a row, if there is one.
abbrev pairs_with : Option Pair → Map RowId Pair → Map RowId Pair
pairs_with none m = m
pairs_with (some row) m = insert row.id row m
