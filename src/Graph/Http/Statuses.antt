-- ===== src/Graph/Http/Statuses.antt =====
-- What the engine does with the status of a response.
use onesync.Prelude.{
  ℕ, ◌≡◌, refl, Bool, true, false, not, ◌||◌, Option, some, none, ◌⊎◌, inl, inr, arith,
}
use onesync.Prelude.Tests.{if◌then◌else◌, Bool-cases}
use onesync.Prelude.Equality.{◌==◌, nat_eq}
use onesync.Prelude.Text.{Text}
use onesync.Engine.Executor.{remote, is_retriable}
use onesync.Engine.Ports.{GraphError, throttled}
use onesync.Graph.Errors.{Detail, GraphInternalError, map_to_port}
use onesync.Graph.Http.{
  Http, Response, status_error, check_status, is_success, parse_seconds, unwrap_or,
  default_retry_after,
}

-- The statuses that an operation is not tried again after.
abbrev pub is_final : ℕ → Bool
is_final status =
    status == 401
    || status == 403
    || status == 404
    || status == 409
    || status == 410
    || status == 412
    || status == 416

-- The pause that an error asks for.
abbrev pub asked_pause : GraphError → Option ℕ
asked_pause (throttled retry_after_s) = some retry_after_s
asked_pause _ = none

abbrev pub throttles : ℕ → Bool
throttles status = status == 429 || status == 503

module _ (H : Http) (text invalid_text : Detail → Text) (resp : Response) (request_id : Text) where
  abbrev pub as_port : GraphInternalError → GraphError
  as_port = map_to_port text invalid_text

  -- A response passes as it is, or its error is retriable by the engine unless the status is final,
  -- and asks for a pause on the two throttling statuses only.
  abbrev pub IsClassified : GraphInternalError ⊎ Response → Type 0
  IsClassified (inr passed) = (passed ≡ resp) × (is_success resp.status ≡ true)
  IsClassified (inl e) =
      (is_success resp.status ≡ false)
      × (is_retriable (remote (as_port e)) ≡ not (is_final resp.status))
      × (asked_pause (as_port e) ≡ (
          if throttles resp.status
          then some (unwrap_or default_retry_after (parse_seconds resp.retry_after))
          else none))

  retriable_lem :
      is_retriable (remote (as_port (status_error H resp request_id))) ≡ not (is_final resp.status)
  unfolding is_retriable status_error
  retriable_lem = ground arith

  pause_lem : asked_pause (as_port (status_error H resp request_id)) ≡ (
      if throttles resp.status
      then some (unwrap_or default_retry_after (parse_seconds resp.retry_after))
      else none)
  unfolding status_error
  pause_lem = ground arith

  -- For every response: with a status from 200 to 299 it is returned unchanged; otherwise the
  -- engine retries the error that the port reports unless the status is 401, 403, 404, 409, 410, 412
  -- or 416, so that it retries 400 and 422 too, and that error asks for a pause exactly on 429 and 503:
  -- the seconds of `Retry-After`, or 60 where the header is missing or no number.
  pub check_status-IsClassified : IsClassified (check_status H resp request_id)
  unfolding check_status
  check_status-IsClassified = elim (Bool-cases (is_success resp.status)) [
    | inl passes ↦ rw passes (refl, passes)
    | inr fails ↦ rw fails (fails, retriable_lem, pause_lem)
  ]
