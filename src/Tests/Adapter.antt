-- ===== src/Tests/Adapter.antt =====
-- A server in memory that logs each `PUT` and accepts the chunk that reaches the total.
use onesync.Prelude.{
  ℕ, ◌+◌, ◌≡◌, refl, inr, Bool, true, false, some, none, List, [], ◌∷◌, ◌++◌, map, arith,
}
use onesync.Prelude.Tests.{if◌then◌else◌, is_some}
use onesync.Prelude.Equality.{◌==◌, nat_eq}
use onesync.Prelude.Lists.{All}
use onesync.Prelude.Text.{Text, codes, split}
use onesync.Prelude.Outcome.{ok, Returns}
use onesync.Graph.Http.{Http, Response, ContentRange, check_status}
use onesync.Graph.Http.Statuses.{IsClassified, check_status-IsClassified}
use onesync.Graph.Upload.{Chunk, upload_session_with_base}
use onesync.Graph.Upload.Bytes.{IsInPlace}
use onesync.Graph.Upload.Rounds.{Ends, Keeps}
use onesync.Graph.Upload.Session.{upload_session_with_base-Ends, upload_session_with_base-answers}
use onesync.Graph.Urls.{slash, encode_segment, encode_path}
use onesync.Graph.Urls.RoundTrip.{percent_decode, percent_decode-encode_path}
use onesync.Graph.Throttle.{
  Event, run, start_pause, start_acquire, tick, pass_ms, steps, with_rate, burst_of,
}
use onesync.Graph.Throttle.Invariant.{IsThrottled, steps-with_rate-IsSound}
use onesync.Protocol.Path.{AbsPath, valid, parse_abs, validate_common}
use onesync.FsLocal.Paths.{absolutise, absolutise_lem}
use onesync.Graph.Upload.Delivery.{IsAnswer, Accepts, Delivers, upload_session_with_base-Delivers}
use onesync.Tests.Fakes.{item_named, rel}

abbrev pub answer : ℕ → Response
answer status = record {
  status = status;
  request_id = none;
  retry_after = none;
  etag = none;
  body = inr [];
}

-- The offsets and the bytes received, the latest first.
abbrev pub Log : Type 0
Log = List (ℕ × List ℕ)

abbrev accepts : ContentRange → ℕ
accepts range = if range.last + 1 == range.total then 201 else 202

abbrev pub server : Http
server = record {
  World = Log;
  new_request_id = λ log. ([], log);
  post = λ url token rid log. ok (answer 200) log;
  put = λ url range size rid bytes log. ok (answer (accepts range)) ((range.start, bytes) ∷ log);
  fetch = λ url log. ok (answer 200) log;
  parse_session = λ body. inr (codes "https://upload");
  parse_ack = λ body. inr (codes "5-" ∷ []);
  parse_item = λ body. inr (item_named (codes "big.bin") 10);
  error_code = λ body. none;
}

abbrev chunks : List Chunk
chunks = (1 ∷ (2 ∷ (3 ∷ []))) ∷ ((4 ∷ (5 ∷ [])) ∷ [])

abbrev AllInPlace : Log → Type 0
AllInPlace = All (λ put. IsInPlace chunks put.0 put.1)

server_keeps : Keeps server AllInPlace chunks 5
server_keeps = record {
  new_request_id = λ w i. i;
  post = λ url token rid w i. i;
  fetch = λ url w i. i;
  put = λ url rid offset bytes w place i. (place, i);
}

upload_session_with_base-Ends_example :
    Ends server AllInPlace (upload_session_with_base server [] [] 5 chunks [])
upload_session_with_base-Ends_example =
    upload_session_with_base-Ends server AllInPlace chunks 5 server_keeps [] [] [] tt

upload_session_with_base-answers_example :
    Returns (λ o. is_some o ≡ true) (upload_session_with_base server [] [] 5 chunks [])
upload_session_with_base-answers_example = upload_session_with_base-answers server [] [] 5 chunks []

-- Both chunks arrive, each at its own offset.
uploaded_log :
    upload_session_with_base server [] [] 5 chunks []
    ≡ ok
        (some (item_named (codes "big.bin") 10))
        ((3, 4 ∷ (5 ∷ [])) ∷ ((0, 1 ∷ (2 ∷ (3 ∷ []))) ∷ []))
unfolding upload_session_with_base check_status
uploaded_log = refl

abbrev busy : Response
busy = record (answer 503) { retry_after = some (codes "17") }

check_status-IsClassified_example :
    IsClassified server (λ d. []) (λ d. []) busy [] (check_status server busy [])
check_status-IsClassified_example = check_status-IsClassified server (λ d. []) (λ d. []) busy []

abbrev awkward : Text
awkward = codes "a b/" ++ (195 ∷ (169 ∷ (codes "#?")))

percent_decode-encode_path_example :
    (split slash (encode_path awkward) ≡ map encode_segment (split slash awkward))
    × (percent_decode (encode_path awkward) ≡ some awkward)
percent_decode-encode_path_example = percent_decode-encode_path awkward (omega arith)

-- A long pause, a shorter one that does not shorten it, and a call that waits it out.
abbrev events : List Event
events =
    start_pause 5
    ∷ (start_pause 1
        ∷ (start_acquire
            ∷ (run 2 ∷ (run 2 ∷ (run 1 ∷ (run 0 ∷ (tick ∷ (pass_ms 6 ∷ (run 0 ∷ [])))))))))

steps-with_rate-IsSound_example : IsThrottled 16 events (steps (burst_of 8) events (with_rate 8))
steps-with_rate-IsSound_example = steps-with_rate-IsSound 8 events

answer_lem :
    (reached : Bool)
    → IsAnswer server
        (item_named (codes "big.bin") 10)
        5
        reached
        (answer (if reached then 201 else 202))
answer_lem true = (refl, [], refl, refl)
answer_lem false = refl

server_accepts : Accepts server (item_named (codes "big.bin") 10) 5
server_accepts = record {
  post = λ url token rid w. (answer 200, w, refl, refl, codes "https://upload", refl);
  put = λ url range size rid bytes w. (
    answer (accepts range),
    (range.start, bytes) ∷ w,
    refl,
    answer_lem (range.last + 1 == range.total),
  );
}

upload_session_with_base-Delivers_example :
    Delivers server
      (item_named (codes "big.bin") 10)
      5
      (upload_session_with_base server [] [] 5 chunks [])
upload_session_with_base-Delivers_example =
    upload_session_with_base-Delivers server (item_named (codes "big.bin") 10) 5 server_accepts
      chunks refl (omega arith) [] [] []

abbrev root : AbsPath
root = record { as_str = codes "/home/a" }

root_parses : parse_abs root.as_str ≡ valid root
unfolding parse_abs validate_common
root_parses = refl

name_valid : validate_common (codes "b.txt") ≡ none
unfolding validate_common
name_valid = refl

absolutise_lem_example :
    absolutise root (rel (codes "b.txt")) ≡ some (record { as_str = codes "/home/a/b.txt" })
absolutise_lem_example = absolutise_lem root (rel (codes "b.txt")) root_parses name_valid
