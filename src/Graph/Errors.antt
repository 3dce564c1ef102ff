-- ===== src/Graph/Errors.antt =====
-- `GraphInternalError` and `map_to_port` of crates/onesync-graph/src/error.rs.
use onesync.Prelude.{ℕ}
use onesync.Prelude.Text.{Text, codes}
use onesync.Engine.Ports.{GraphError}

-- The causes from which the adapter formats the `detail` of an error.
pub data Detail : Type 0 where
  cause : Text → Detail
  http unexpected_http chunk_status : ℕ → Text → Detail
  re_query_failed : Text → Detail
  final_item_failed : Text → Text → Detail
  no_final_item : Detail

pub data GraphInternalError : Type 0 where
  unauthorized re_auth_required forbidden not_found name_conflict resync_required invalid_range :
      Text → GraphInternalError
  stale : Text → Text → GraphInternalError
  throttled : ℕ → Text → GraphInternalError
  transient : Detail → Text → GraphInternalError
  network decode invalid_argument : Detail → GraphInternalError
  hash_mismatch too_large timeout : GraphInternalError

module _ (text invalid_text : Detail → Text) where
  -- The request identifier is logged only. `invalid_text` puts "invalid argument: " in front.
  abbrev pub map_to_port : GraphInternalError → GraphError
  map_to_port (unauthorized id) = GraphError.unauthorized
  map_to_port (re_auth_required id) = GraphError.re_auth_required
  map_to_port (forbidden id) = GraphError.forbidden
  map_to_port (not_found id) = GraphError.not_found
  map_to_port (name_conflict id) = GraphError.name_conflict
  map_to_port (resync_required id) = GraphError.resync_required
  map_to_port (stale server_etag id) = GraphError.stale server_etag
  map_to_port (invalid_range id) = GraphError.invalid_range
  map_to_port (throttled retry_after_s id) = GraphError.throttled retry_after_s
  map_to_port (transient detail id) = GraphError.transient (text detail)
  map_to_port (network detail) = GraphError.network (text detail)
  map_to_port (decode detail) = GraphError.decode (text detail)
  map_to_port hash_mismatch = GraphError.hash_mismatch
  map_to_port too_large = GraphError.too_large
  map_to_port timeout = GraphError.transient (codes "auth listener timeout")
  map_to_port (invalid_argument detail) = GraphError.transient (invalid_text detail)
