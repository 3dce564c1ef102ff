-- ===== src/Graph/Upload.antt =====
-- crates/onesync-graph/src/upload/session.rs: the chunks of a large file go to an upload session one
-- after another; on 416 the session is asked where to go on. The loop takes fuel, one unit a round;
-- `Upload/Rounds` shows that the fuel given is enough.
pub mod Chunks
pub mod Places
pub mod Bytes
pub mod Rounds
pub mod Session
pub mod Delivery
use onesync.Prelude.{
  ℕ, zero, suc, ◌+◌, ◌-◌, ◌*◌, ◌^◌, Bool, true, false, ◌||◌, Option, none, some, List, [], ◌∷◌,
  ◌++◌, ◌⊎◌, inl, inr,
}
use onesync.Prelude.Tests.{if◌then◌else◌, leb, ltb}
use onesync.Prelude.Equality.{◌==◌, nat_eq}
use onesync.Prelude.Lists.{length}
use onesync.Prelude.Text.{Text, split, codes}
use onesync.Prelude.Outcome.{Outcome, ok, err, and_then, Action}
use onesync.Protocol.Remote.{RemoteItem}
use onesync.Engine.Limits.{retry_max_attempts}
use onesync.Graph.Errors.{
  cause, chunk_status, re_query_failed, final_item_failed, no_final_item, GraphInternalError,
  invalid_range, transient, network, decode,
}
use onesync.Graph.Urls.{encode_segment}
use onesync.Graph.Http.{Http, Response, ContentRange, parse_u64, or_default, check_status}

abbrev pub Chunk : Type 0
Chunk = List ℕ

abbrev dash : ℕ
dash = b'-'

abbrev start_of : List Text → Option ℕ
start_of [] = none
start_of (start ∷ rest) = parse_u64 start

-- `parse_range_start`: the number in front of the first dash.
unfoldable pub parse_range_start : Text → Option ℕ
parse_range_start range = start_of (split dash range)

-- The loop of `find_chunk_index` from chunk `i`, whose first byte is at `cum_off`.
abbrev pub find_from : ℕ → ℕ → List Chunk → ℕ → ℕ × ℕ
find_from i cum_off [] target = (i, cum_off)
find_from i cum_off (chunk ∷ chunks) target =
    let later = find_from (suc i) (cum_off + length chunk) chunks target in
    if ltb target (cum_off + length chunk) then (i, cum_off) else later

unfoldable pub find_chunk_index : List Chunk → ℕ → ℕ × ℕ
find_chunk_index chunks target = find_from 0 0 chunks target

-- `all_chunks[index]`, and `none` past the end.
abbrev pub chunk_at : ℕ → List Chunk → Option Chunk
chunk_at i [] = none
chunk_at zero (chunk ∷ chunks) = some chunk
chunk_at (suc i) (chunk ∷ chunks) = chunk_at i chunks

-- `Bytes::slice(start..)`, which the loop calls inside the chunk only.
abbrev pub slice : ℕ → Chunk → Chunk
slice zero bytes = bytes
slice (suc n) [] = []
slice (suc n) (b ∷ bytes) = slice n bytes

-- `n - 1` on 64 bits as a release build computes it.
abbrev pub wrapping_dec : ℕ → ℕ
wrapping_dec zero = 2 ^ 64 - 1
wrapping_dec (suc n) = n

-- The loop's variables.
pub record Progress : Type 0 where
  pub offset : ℕ
  pub chunk_index : ℕ
  pub chunk_start : ℕ
  pub resume_attempts : ℕ

abbrev pub beginning : Progress
beginning = record { offset = 0; chunk_index = 0; chunk_start = 0; resume_attempts = 0 }

-- How a round ends: with the next round or with the item.
pub data Next : Type 0 where
  again : Progress → Next
  finished : RemoteItem → Next

abbrev pub content_range : Progress → Chunk → ℕ → ContentRange
content_range p bytes total_size = record {
  start = p.offset;
  last = wrapping_dec (p.offset + length bytes);
  total = total_size;
}

-- 202: past the acknowledged bytes, and to the next chunk at the end of this one.
abbrev pub advance : Progress → Chunk → ℕ → Progress
advance p chunk chunk_len =
    let offset = p.offset + chunk_len in
    if leb (p.chunk_start + length chunk) offset
    then (record p { offset = offset; chunk_index = p.chunk_index + 1; chunk_start = offset })
    else (record p { offset = offset })

abbrev pub resume_at : List Chunk → Progress → ℕ → Progress
resume_at all_chunks p new_offset =
    let (index, start) = find_chunk_index all_chunks new_offset in
    record p { offset = new_offset; chunk_index = index; chunk_start = start }

abbrev pub first_range : List Text → Option ℕ
first_range [] = none
first_range (range ∷ ranges) = parse_range_start range

module _ (H : Http) where
  abbrev pub U : Type 0 → Type 0
  U A = Action GraphInternalError H.World A

  -- `map_err` of a failed request.
  abbrev pub sent : {A : Type 0} → Outcome Text H.World A → Outcome GraphInternalError H.World A
  sent (ok a w) = ok a w
  sent (err e w) = err (network (cause e)) w

  abbrev pub fresh_id : U Text
  fresh_id w = let (id, v) = H.new_request_id w in ok id v

  -- `Response::json`.
  abbrev pub json : {A : Type 0} → (Text → Text ⊎ A) → Response → Text ⊎ A
  json parse resp = elim resp.body [ inl e ↦ inl e | inr text ↦ parse text ]

  abbrev pub item_of : Text → Text ⊎ RemoteItem → U Next
  item_of text (inr item) w = ok (finished item) w
  item_of text (inl e) w = err (decode (final_item_failed e text)) w

  abbrev pub final_item : Text ⊎ Text → U Next
  final_item (inl e) w = err (decode (cause e)) w
  final_item (inr text) w = item_of text (H.parse_item text) w

  abbrev pub resume_from : List Chunk → Progress → Text → Option ℕ → U Next
  resume_from all_chunks p rid (some new_offset) w =
      ok (again (resume_at all_chunks p new_offset)) w
  resume_from all_chunks p rid none w = err (invalid_range rid) w

  abbrev pub re_queried : List Chunk → Progress → Text → Text ⊎ List Text → U Next
  re_queried all_chunks p rid (inl e) w = err (decode (re_query_failed e)) w
  re_queried all_chunks p rid (inr ranges) w = resume_from all_chunks p rid (first_range ranges) w

  -- The session's answer about what it still needs.
  abbrev pub on_state : List Chunk → Progress → Text → Response → U Next
  on_state all_chunks p rid resp w = re_queried all_chunks p rid (json H.parse_ack resp) w

  -- 416: the attempts are counted before the session is asked.
  abbrev pub on_unsatisfiable : Text → List Chunk → Progress → Text → U Next
  on_unsatisfiable upload_url all_chunks p rid w =
      let counted = record p { resume_attempts = p.resume_attempts + 1 } in
      if ltb retry_max_attempts (p.resume_attempts + 1)
      then err (invalid_range rid) w
      else and_then (sent (H.fetch upload_url w)) (on_state all_chunks counted rid)

  abbrev pub on_response : Text → List Chunk → Progress → Chunk → Text → Response → U Next
  on_response upload_url all_chunks p chunk rid resp w =
      let chunk_len = length (slice (p.offset - p.chunk_start) chunk) in
      if resp.status == 416
      then on_unsatisfiable upload_url all_chunks p rid w
      else if resp.status == 202
      then ok (again (advance p chunk chunk_len)) w
      else if resp.status == 200 || resp.status == 201
      then final_item resp.body w
      else err (transient (chunk_status resp.status (or_default resp.body)) rid) w

  abbrev pub put_chunk : Text → List Chunk → ℕ → Progress → Chunk → Text → U Next
  put_chunk upload_url all_chunks total_size p chunk rid w =
      let bytes = slice (p.offset - p.chunk_start) chunk in
      let range = content_range p bytes total_size in
      and_then (sent (H.put upload_url range (length bytes) rid bytes w))
        (on_response upload_url all_chunks p chunk rid)

  -- The body of the loop.
  abbrev pub round : Text → List Chunk → ℕ → Progress → Chunk → U Next
  round upload_url all_chunks total_size p chunk w =
      and_then (fresh_id w) (put_chunk upload_url all_chunks total_size p chunk)

  module _ (upload_url : Text) (all_chunks : List Chunk) (total_size : ℕ) where
    abbrev pub go_on : (Progress → U (Option RemoteItem)) → Next → U (Option RemoteItem)
    go_on rest (again p) w = rest p w
    go_on rest (finished item) w = ok (some item) w

    abbrev pub visit :
        (Progress → U (Option RemoteItem)) → Progress → Option Chunk → U (Option RemoteItem)
    visit rest p none w = err (decode no_final_item) w
    visit rest p (some chunk) w =
        and_then (round upload_url all_chunks total_size p chunk w) (go_on rest)

    -- `none` stands for fuel that ran out.
    abbrev pub upload_loop : ℕ → Progress → U (Option RemoteItem)
    upload_loop zero p w = ok none w
    upload_loop (suc fuel) p w = visit (upload_loop fuel) p (chunk_at p.chunk_index all_chunks) w

  -- One round for each chunk and one more, for the first pass and each of the resumptions.
  abbrev pub rounds : List Chunk → ℕ
  rounds all_chunks = (retry_max_attempts + 1) * (length all_chunks + 1)

  abbrev pub upload_chunks : List Chunk → ℕ → Text → U (Option RemoteItem)
  upload_chunks all_chunks total_size upload_url =
      upload_loop upload_url all_chunks total_size (rounds all_chunks) beginning

  abbrev pub or_decode : {A : Type 0} → Text ⊎ A → U A
  or_decode (inl e) w = err (decode (cause e)) w
  or_decode (inr a) w = ok a w

  abbrev pub created : GraphInternalError ⊎ Response → U Text
  created (inl e) w = err e w
  created (inr passed) w = or_decode (json H.parse_session passed) w

  abbrev pub checked : Text → Response → U Text
  checked rid resp w = created (check_status H resp rid) w

  -- The request that creates the session, and the address it answers with.
  abbrev pub create_session : Text → Text → Text → U Text
  create_session token session_create_url rid w =
      and_then (sent (H.post session_create_url token rid w)) (checked rid)

  unfoldable pub upload_session_with_base : Text → Text → ℕ → List Chunk → U (Option RemoteItem)
  upload_session_with_base token session_create_url total_size all_chunks w =
      and_then (and_then (fresh_id w) (create_session token session_create_url))
        (upload_chunks all_chunks total_size)

  -- The address at which a session for a file in a folder is created.
  abbrev pub session_url : Text → Text → Text → Text
  session_url drive_id parent_item_id name =
      codes "https://graph.microsoft.com/v1.0/drives/"
      ++ (drive_id
          ++ (codes "/items/"
              ++ (encode_segment parent_item_id
                  ++ (codes ":/" ++ (encode_segment name ++ codes ":/createUploadSession")))))

  abbrev pub upload_session : Text → Text → Text → Text → ℕ → List Chunk → U (Option RemoteItem)
  upload_session token drive_id parent_item_id name total_size chunks =
      upload_session_with_base token (session_url drive_id parent_item_id name) total_size chunks
