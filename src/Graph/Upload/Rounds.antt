-- ===== src/Graph/Upload/Rounds.antt =====
-- One traversal of the upload: the loop ends whatever the server answers, and every `PUT` carries the
-- bytes of the file at its offset. The second is said of an arbitrary fact `I` about the server that
-- such a `PUT` and the other requests keep.
use onesync.Prelude.{
  ℕ, zero, suc, ◌+◌, ◌-◌, ◌≤◌, ◌<◌, ◌≡◌, refl, ◌⊎◌, inl, inr, true, ◌||◌, Option, none, some, List,
  arith,
}
use onesync.Prelude.Tests.{ltb, Bool-cases, is_some}
use onesync.Prelude.Equality.{◌==◌, nat_eq}
use onesync.Prelude.Lists.{length}
use onesync.Prelude.Text.{Text}
use onesync.Prelude.Outcome.{Outcome, ok, err, and_then}
use onesync.Protocol.Remote.{RemoteItem}
use onesync.Engine.Limits.{retry_max_attempts}
use onesync.Graph.Errors.{GraphInternalError}
use onesync.Graph.Http.{Http, Response}
use onesync.Graph.Upload.{
  Chunk, Progress, beginning, Next, again, finished, chunk_at, slice, advance, item_of, final_item,
  resume_from, re_queried, on_state, on_unsatisfiable, on_response, round, go_on, visit,
  upload_loop, rounds, upload_chunks, sent, json, wrapping_dec, first_range,
}
use onesync.Graph.Upload.Bytes.{IsInPlace, placed-IsInPlace}
use onesync.Graph.Upload.Places.{
  IsPlaced, left, beginning-IsPlaced, advance-next, next-IsPlaced, left-next, counted,
  resume-IsPlaced, left-resume,
}

module _ (H : Http) (I : H.World → Type 0) where
  -- The fact holds of the world in which an action ends.
  abbrev pub Ends : {E A : Type 0} → Outcome E H.World A → Type 0
  Ends (ok a w) = I w
  Ends (err e w) = I w

  pub record Keeps (chunks : List Chunk) (total_size : ℕ) : Type 0 where
    pub new_request_id : (w : H.World) → I w → I (H.new_request_id w).1
    pub post : (url token rid : Text) (w : H.World) → I w → Ends (H.post url token rid w)
    pub fetch : (url : Text) (w : H.World) → I w → Ends (H.fetch url w)
    pub put :
        (url rid : Text) (offset : ℕ) (bytes : List ℕ) (w : H.World)
        → IsInPlace chunks offset bytes
        → I w
        → Ends (
            H.put url
              (record {
                start = offset;
                last = wrapping_dec (offset + length bytes);
                total = total_size;
              })
              (length bytes)
              rid
              bytes
              w)

module _ (H : Http) (I : H.World → Type 0) (chunks : List Chunk) (total_size : ℕ)
    (keeps : Keeps H I chunks total_size) (url : Text) where
  -- A round that goes on goes on at a chunk's place with fewer rounds left.
  abbrev pub IsProgress : Progress → Next → Type 0
  IsProgress p (again q) = IsPlaced chunks q × (left chunks q < left chunks p)
  IsProgress p (finished item) = Unit

  abbrev pub Progresses : Progress → Outcome GraphInternalError H.World Next → Type 0
  Progresses p (ok next w) = IsProgress p next × I w
  Progresses p (err e w) = I w

  module _ (p : Progress) (placed : IsPlaced chunks p) where
    item_step :
        (text : Text) (item : Text ⊎ RemoteItem) (w : H.World)
        → I w
        → Progresses p (item_of H text item w)
    item_step text (inr item) w i = (tt, i)
    item_step text (inl e) w i = i

    final_step : (body : Text ⊎ Text) (w : H.World) → I w → Progresses p (final_item H body w)
    final_step (inl e) w i = i
    final_step (inr text) w i = item_step text (H.parse_item text) w i

    module _ (more : p.resume_attempts + 1 ≤ retry_max_attempts) (rid : Text) where
      resume_step :
          (o : Option ℕ) (w : H.World)
          → I w
          → Progresses p (resume_from H chunks (counted chunks p placed) rid o w)
      resume_step none w i = i
      resume_step (some n) w i =
          ((resume-IsPlaced chunks p placed n more, left-resume chunks p placed n more), i)

      state_step :
          (o : Text ⊎ List Text) (w : H.World)
          → I w
          → Progresses p (re_queried H chunks (counted chunks p placed) rid o w)
      state_step (inl e) w i = i
      state_step (inr ranges) w i = resume_step (first_range ranges) w i

      fetch_step :
          (o : Outcome Text H.World Response)
          → Ends H I o
          → Progresses p (and_then (sent H o) (on_state H chunks (counted chunks p placed) rid))
      fetch_step (ok resp w) i = state_step (json H H.parse_ack resp) w i
      fetch_step (err e w) i = i

    unsatisfiable_step :
        (rid : Text) (w : H.World) → I w → Progresses p (on_unsatisfiable H url chunks p rid w)
    unsatisfiable_step rid w i =
        elim (Bool-cases (ltb retry_max_attempts (p.resume_attempts + 1))) [
          | inl spent ↦ rw spent i
          | inr more ↦
              rw more (fetch_step (ground (arith, more)) rid (H.fetch url w) (keeps.fetch url w i))
        ]

    module _ (chunk : Chunk) (here : chunk_at p.chunk_index chunks ≡ some chunk) where
      advance_step :
          IsProgress p (again (advance p chunk (length (slice (p.offset - p.chunk_start) chunk))))
      advance_step =
          rw (advance-next chunks p placed chunk here)
            (next-IsPlaced chunks p placed chunk here, left-next chunks p placed chunk here)

      response_step :
          (rid : Text) (resp : Response) (w : H.World)
          → I w
          → Progresses p (on_response H url chunks p chunk rid resp w)
      response_step rid resp w i = elim (Bool-cases (resp.status == 416)) [
        | inl e ↦ rw e (unsatisfiable_step rid w i)
        | inr e ↦ rw e (elim (Bool-cases (resp.status == 202)) [
          | inl f ↦ rw f (advance_step, i)
          | inr f ↦ rw f (elim (Bool-cases (resp.status == 200 || resp.status == 201)) [
            | inl g ↦ rw g (final_step resp.body w i)
            | inr g ↦ rw g i
          ])
        ])
      ]

      put_step :
          (rid : Text) (o : Outcome Text H.World Response)
          → Ends H I o
          → Progresses p (and_then (sent H o) (on_response H url chunks p chunk rid))
      put_step rid (ok resp w) i = response_step rid resp w i
      put_step rid (err e w) i = i

      round-Progresses :
          (w : H.World) → I w → Progresses p (round H url chunks total_size p chunk w)
      round-Progresses w i =
          let (rid, v) = H.new_request_id w in
          put_step rid (H.put url _ _ _ _ _) (
            keeps.put url rid p.offset (slice (p.offset - p.chunk_start) chunk) v
              (placed-IsInPlace chunks p chunk placed here) (keeps.new_request_id w i))

  -- The loop answers before its fuel runs out, and the fact holds at its end.
  abbrev pub Answers : Outcome GraphInternalError H.World (Option RemoteItem) → Type 0
  Answers (ok o w) = (is_some o ≡ true) × I w
  Answers (err e w) = I w

  -- The rounds from a place with fewer rounds left answer.
  abbrev RestAnswers :
      (Progress → H.World → Outcome GraphInternalError H.World (Option RemoteItem))
      → Progress
      → Type 0
  RestAnswers rest p =
      (q : Progress)
      → IsPlaced chunks q
      → left chunks q < left chunks p
      → (w : H.World) → I w
      → Answers (rest q w)

  go_step :
      (rest : Progress → H.World → Outcome GraphInternalError H.World (Option RemoteItem))
      (p : Progress) (o : Outcome GraphInternalError H.World Next)
      → Progresses p o
      → RestAnswers rest p
      → Answers (and_then o (go_on H url chunks total_size rest))
  go_step rest p (ok (again q) w) h next = next q h.0.0 h.0.1 w h.1
  go_step rest p (ok (finished item) w) h next = (refl, h.1)
  go_step rest p (err e w) h next = h

  visit_step :
      (rest : Progress → H.World → Outcome GraphInternalError H.World (Option RemoteItem))
      (p : Progress) (o : Option Chunk)
      → IsPlaced chunks p
      → chunk_at p.chunk_index chunks ≡ o
      → RestAnswers rest p
      → (w : H.World) → I w
      → Answers (visit H url chunks total_size rest p o w)
  visit_step rest p none placed here next w i = i
  visit_step rest p (some chunk) placed here next w i =
      go_step rest p (round H url chunks total_size p chunk w)
        (round-Progresses p placed chunk here w i) next

  loop-Answers :
      (fuel : ℕ) (p : Progress)
      → IsPlaced chunks p
      → left chunks p < fuel
      → (w : H.World) → I w
      → Answers (upload_loop H url chunks total_size fuel p w)
  loop-Answers zero p placed h w i = absurd (omega arith)
  loop-Answers (suc fuel) p placed h w i =
      visit_step (upload_loop H url chunks total_size fuel) p (chunk_at p.chunk_index chunks) placed
        refl (λ q placed_q less. loop-Answers fuel q placed_q (omega (arith, h, less))) w i

  pub upload_chunks-Answers :
      (w : H.World) → I w → Answers (upload_chunks H chunks total_size url w)
  upload_chunks-Answers w i =
      loop-Answers (rounds H chunks) beginning (beginning-IsPlaced chunks) (omega arith) w i
