-- ===== src/Graph/Upload/Delivery.antt =====
-- With a server that accepts what it is sent, the upload ends with the item.
use onesync.Prelude.{
  ℕ, zero, suc, ◌+◌, ◌-◌, ◌≤◌, ◌<◌, ◌≡◌, refl, ap, ◌⊎◌, inl, inr, Bool, true, false, Option, none,
  some, List, [], ◌∷◌, arith,
}
use onesync.Prelude.Tests.{ltb, Bool-cases}
use onesync.Prelude.Equality.{◌==◌, nat_eq}
use onesync.Prelude.Lists.{length, length-append}
use onesync.Prelude.Text.{Text}
use onesync.Prelude.Outcome.{Outcome, ok, err, and_then}
use onesync.Protocol.Remote.{RemoteItem}
use onesync.Graph.Errors.{GraphInternalError}
use onesync.Graph.Http.{Http, Response, ContentRange, check_status, is_success}
use onesync.Graph.Upload.{
  Chunk, Progress, beginning, chunk_at, slice, wrapping_dec, content_range, final_item, on_response,
  go_on, visit, upload_loop, rounds, upload_chunks, json, or_decode, checked,
  upload_session_with_base,
}
use onesync.Graph.Upload.Chunks.{joined, start_at}
use onesync.Graph.Upload.Places.{
  IsPlaced, start_at-suc, left, beginning-IsPlaced, slice_to_end, advance-next, next_place,
  next-IsPlaced, left-next,
}

start_at-end : (chunks : List Chunk) → start_at (length chunks) chunks ≡ length (joined chunks)
start_at-end [] = refl
start_at-end (chunk ∷ chunks) =
    omega (arith, start_at-end chunks, length-append chunk (joined chunks))

chunk_at-none : (i : ℕ) (chunks : List Chunk) → chunk_at i chunks ≡ none → length chunks ≤ i
chunk_at-none i [] h = omega arith
chunk_at-none zero (chunk ∷ chunks) h = absurd (ground (arith, h))
chunk_at-none (suc i) (chunk ∷ chunks) h = omega (arith, chunk_at-none i chunks h)

wrapping_dec_lem : (n : ℕ) → 0 < n → wrapping_dec n + 1 ≡ n
wrapping_dec_lem zero h = absurd (omega arith)
wrapping_dec_lem (suc n) h = omega arith

some_chunk : (chunks : List Chunk) {n : ℕ} → n ≡ length (joined chunks) → 0 < n → 0 < length chunks
some_chunk [] e h = absurd (omega (arith, e, h))
some_chunk (chunk ∷ chunks) e h = omega arith

module _ (H : Http) (item : RemoteItem) (total_size : ℕ) where
  -- The answer to a slice: the item for the one that reaches the end, an acknowledgement before.
  abbrev pub IsAnswer : Bool → Response → Type 0
  IsAnswer true resp =
      (resp.status ≡ 201) × (text : Text) × (resp.body ≡ inr text) × (H.parse_item text ≡ inr item)
  IsAnswer false resp = resp.status ≡ 202

  -- A server that opens a session and accepts every slice.
  pub record Accepts : Type 0 where
    pub post :
        (url token rid : Text) (w : H.World)
        → (resp : Response) × (v : H.World) × (H.post url token rid w ≡ ok resp v)
          × (is_success resp.status ≡ true)
          × (upload_url : Text) × (json H H.parse_session resp ≡ inr upload_url)
    pub put :
        (url : Text) (range : ContentRange) (size : ℕ) (rid : Text) (bytes : List ℕ) (w : H.World)
        → (resp : Response) × (v : H.World) × (H.put url range size rid bytes w ≡ ok resp v)
          × IsAnswer (range.last + 1 == range.total) resp

  abbrev pub Delivers : Outcome GraphInternalError H.World (Option RemoteItem) → Type 0
  Delivers (ok none w) = ⊥
  Delivers (ok (some found) w) = found ≡ item
  Delivers (err e w) = ⊥

  module _ (accepts : Accepts) (url : Text) (chunks : List Chunk)
      (whole : total_size ≡ length (joined chunks)) (some_bytes : 0 < total_size) where
    abbrev Rest : Type 0
    Rest = Progress → H.World → Outcome GraphInternalError H.World (Option RemoteItem)

    final_step :
        (rest : Rest) (body : Text ⊎ Text) (text : Text) (w : H.World)
        → body ≡ inr text
        → H.parse_item text ≡ inr item
        → Delivers (and_then (final_item H body w) (go_on H url chunks total_size rest))
    final_step rest body text w e f = rw (e, f) refl

    module _ (rest : Rest) (p : Progress) (placed : IsPlaced chunks p) (chunk : Chunk)
        (here : chunk_at p.chunk_index chunks ≡ some chunk)
        (onward : p.chunk_index + 1 < length chunks
          → (w : H.World) → Delivers (rest (next_place chunks p placed chunk here) w)) where
      -- A slice that is not the last of the file is followed by another chunk.
      more_lem :
          ((content_range p (slice (p.offset - p.chunk_start) chunk) total_size).last + 1
              == total_size)
            ≡ false
          → p.chunk_index + 1 < length chunks
      more_lem e = elim (Bool-cases (ltb (p.chunk_index + 1) (length chunks))) [
        | inl more ↦ ground (arith, more)
        | inr last ↦
            let (next, less) = start_at-suc p.chunk_index chunks chunk here in
            let count : suc p.chunk_index ≡ length chunks = ground (arith, last, less) in
            let reached : p.offset + length (slice (p.offset - p.chunk_start) chunk) ≡ total_size =
              omega (
                arith,
                slice_to_end chunks p placed chunk here,
                next,
                placed.starts,
                ap (λ i. start_at i chunks) count,
                start_at-end chunks,
                whole,
              ) in
            absurd (
              ground (
                arith,
                e,
                reached,
                wrapping_dec_lem (p.offset + length (slice (p.offset - p.chunk_start) chunk))
                    (omega (arith, reached, some_bytes)),
              ))
      ]

      answer_step :
          (reached : Bool) (rid : Text) (resp : Response) (w : H.World)
          → ((content_range p (slice (p.offset - p.chunk_start) chunk) total_size).last + 1
              == total_size)
            ≡ reached
          → IsAnswer reached resp
          → Delivers (
              and_then
                (on_response H url chunks p chunk rid resp w)
                (go_on H url chunks total_size rest))
      answer_step true rid resp w e (status, text, body, parsed) =
          rw status (final_step rest resp.body text w body parsed)
      answer_step false rid resp w e status =
          rw (status, advance-next chunks p placed chunk here) (onward (more_lem e) w)

      round_step : (w : H.World) → Delivers (visit H url chunks total_size rest p (some chunk) w)
      round_step w =
          let (rid, v) = H.new_request_id w in
          let bytes = slice (p.offset - p.chunk_start) chunk in
          let range = content_range p bytes total_size in
          let (resp, u, e, answer) = accepts.put url range (length bytes) rid bytes v in
          rw e (answer_step (range.last + 1 == total_size) rid resp u refl answer)

    visit_step :
        (rest : Rest) (p : Progress) (placed : IsPlaced chunks p) (o : Option Chunk)
        → chunk_at p.chunk_index chunks ≡ o
        → p.chunk_index < length chunks
        → ((q : Progress)
            → IsPlaced chunks q
            → q.chunk_index < length chunks
            → left chunks q < left chunks p
            → (w : H.World) → Delivers (rest q w))
        → (w : H.World) → Delivers (visit H url chunks total_size rest p o w)
    visit_step rest p placed none here inside next w =
        absurd (omega (arith, chunk_at-none p.chunk_index chunks here))
    visit_step rest p placed (some chunk) here inside next w =
        round_step rest p placed chunk here
          (λ more v.
            next (next_place chunks p placed chunk here) (next-IsPlaced chunks p placed chunk here)
              more (left-next chunks p placed chunk here) v)
          w

    loop-Delivers :
        (fuel : ℕ) (p : Progress)
        → IsPlaced chunks p
        → p.chunk_index < length chunks
        → left chunks p < fuel
        → (w : H.World) → Delivers (upload_loop H url chunks total_size fuel p w)
    loop-Delivers zero p placed inside h w = absurd (omega arith)
    loop-Delivers (suc fuel) p placed inside h w =
        visit_step (upload_loop H url chunks total_size fuel) p placed
          (chunk_at p.chunk_index chunks) refl inside
          (λ q placed_q more less. loop-Delivers fuel q placed_q more (omega (arith, h, less))) w

    upload_chunks-Delivers : (w : H.World) → Delivers (upload_chunks H chunks total_size url w)
    upload_chunks-Delivers w =
        loop-Delivers (rounds H chunks) beginning (beginning-IsPlaced chunks)
          (some_chunk chunks whole some_bytes) (omega arith) w

  module _ (accepts : Accepts) (chunks : List Chunk) (whole : total_size ≡ length (joined chunks))
      (some_bytes : 0 < total_size) where
    created_step :
        (o : Text ⊎ Text) (url : Text) (w : H.World)
        → o ≡ inr url
        → Delivers (and_then (or_decode H o w) (upload_chunks H chunks total_size))
    created_step o url w e = rw e (upload_chunks-Delivers accepts url chunks whole some_bytes w)

    checked_step :
        (rid : Text) (resp : Response) (url : Text) (w : H.World)
        → is_success resp.status ≡ true
        → json H H.parse_session resp ≡ inr url
        → Delivers (and_then (checked H rid resp w) (upload_chunks H chunks total_size))
    unfolding check_status
    checked_step rid resp url w passes e =
        rw passes (created_step (json H H.parse_session resp) url w e)

    -- From a server that opens the session, acknowledges every slice and answers the slice with the
    -- last byte with the item, the upload of a file that is not empty, with its true size, returns
    -- that item.
    pub upload_session_with_base-Delivers :
        (token session_create_url : Text) (w : H.World)
        → Delivers (upload_session_with_base H token session_create_url total_size chunks w)
    unfolding upload_session_with_base
    upload_session_with_base-Delivers token session_create_url w =
        let (rid, v) = H.new_request_id w in
        let (resp, u, e, passes, url, parsed) = accepts.post session_create_url token rid v in
        rw e (checked_step rid resp url u passes parsed)
