-- ===== src/Engine/Observability.antt =====
-- crates/onesync-core/src/engine/observability.rs, and the audit events that cycle.rs writes out.
use onesync.Prelude.{ℕ, String, Option, some, []}
use onesync.Prelude.Text.{Text}
use onesync.Protocol.Enums.{AuditLevel, info, warn, error}
use onesync.Protocol.FileSide.{Timestamp}
use onesync.Protocol.Entities.{RowId, AuditEvent, JsonMap, number, string, insert}

unfoldable pub make_event :
    RowId → Timestamp → AuditLevel → String → Option RowId → JsonMap → AuditEvent
make_event id ts level kind pair_id payload = record {
  id = id;
  ts = ts;
  level = level;
  kind = kind;
  pair_id = pair_id;
  payload = payload;
}

unfoldable pub cycle_started : RowId → Timestamp → RowId → AuditEvent
unfolding make_event
cycle_started id ts pair_id = make_event id ts info "sync_cycle_started" (some pair_id) []

unfoldable pub cycle_finished : RowId → Timestamp → RowId → ℕ → ℕ → AuditEvent
unfolding make_event
cycle_finished id ts pair_id ops_applied conflicts =
    make_event id ts info "sync_cycle_finished" (some pair_id) (
      insert "conflicts_detected" (number conflicts) (insert "ops_applied" (number ops_applied) []))

-- `reason` is the text of the failure.
unfoldable pub op_failed : RowId → Timestamp → RowId → Text → Text → AuditEvent
unfolding make_event
op_failed id ts pair_id relative_path reason =
    make_event id ts error "file_op_failed" (some pair_id)
      (insert "reason" (string reason) (insert "relative_path" (string relative_path) []))

-- A warning about a pair with a payload of texts.
unfoldable pub warning : RowId → Timestamp → String → RowId → JsonMap → AuditEvent
unfolding make_event
warning id ts kind pair_id payload = make_event id ts warn kind (some pair_id) payload
