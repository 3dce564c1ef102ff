-- ===== src/Graph/Upload/Session.antt =====
-- The whole upload, the creation of its session included.
use onesync.Prelude.{ℕ, ◌≡◌, ◌⊎◌, inl, inr, true, Option, List}
use onesync.Prelude.Tests.{is_some}
use onesync.Prelude.Text.{Text}
use onesync.Prelude.Outcome.{Outcome, ok, err, and_then, Returns}
use onesync.Protocol.Remote.{RemoteItem}
use onesync.Graph.Errors.{GraphInternalError}
use onesync.Graph.Http.{Http, Response, check_status}
use onesync.Graph.Upload.{
  Chunk, upload_chunks, sent, json, or_decode, created, checked, upload_session_with_base,
}
use onesync.Graph.Upload.Rounds.{Ends, Keeps, Answers, upload_chunks-Answers}

module _ (H : Http) (I : H.World → Type 0) (chunks : List Chunk) (total_size : ℕ)
    (keeps : Keeps H I chunks total_size) (token url : Text) where
  or_decode_step : (o : Text ⊎ Text) (w : H.World) → I w → Ends H I (or_decode H o w)
  or_decode_step (inl e) w i = i
  or_decode_step (inr a) w i = i

  created_step : (o : GraphInternalError ⊎ Response) (w : H.World) → I w → Ends H I (created H o w)
  created_step (inl e) w i = i
  created_step (inr passed) w i = or_decode_step (json H H.parse_session passed) w i

  post_step :
      (rid : Text) (o : Outcome Text H.World Response)
      → Ends H I o
      → Ends H I (and_then (sent H o) (checked H rid))
  post_step rid (ok resp w) i = created_step (check_status H resp rid) w i
  post_step rid (err e w) i = i

  chunks_step :
      (o : Outcome GraphInternalError H.World Text)
      → Ends H I o
      → Answers H I chunks total_size keeps url (and_then o (upload_chunks H chunks total_size))
  chunks_step (ok upload_url w) i = upload_chunks-Answers H I chunks total_size keeps upload_url w i
  chunks_step (err e w) i = i

  session-Answers :
      (w : H.World)
      → I w
      → Answers H I chunks total_size keeps url
          (upload_session_with_base H token url total_size chunks w)
  unfolding upload_session_with_base
  session-Answers w i =
      let (rid, v) = H.new_request_id w in
      chunks_step _ (
        post_step rid (H.post url token rid v)
          (keeps.post url token rid v (keeps.new_request_id w i)))

  ends_lem :
      (o : Outcome GraphInternalError H.World (Option RemoteItem))
      → Answers H I chunks total_size keeps url o
      → Ends H I o
  ends_lem (ok item w) h = h.1
  ends_lem (err e w) h = h

  -- Whatever fact about the server is kept by every `PUT` that sends bytes of the file from the offset
  -- its range starts with, with their number and the last one's position, and by the other requests:
  -- if it holds before the upload, it holds after it.
  pub upload_session_with_base-Ends :
      (w : H.World) → I w → Ends H I (upload_session_with_base H token url total_size chunks w)
  upload_session_with_base-Ends w i = ends_lem _ (session-Answers w i)

always-Ends : (H : Http) {E A : Type 0} (o : Outcome E H.World A) → Ends H (λ w. Unit) o
always-Ends H (ok a w) = tt
always-Ends H (err e w) = tt

always-Keeps :
    (H : Http) (chunks : List Chunk) (total_size : ℕ) → Keeps H (λ w. Unit) chunks total_size
always-Keeps H chunks total_size = record {
  new_request_id = λ w i. tt;
  post = λ url token rid w i. always-Ends H (H.post url token rid w);
  fetch = λ url w i. always-Ends H (H.fetch url w);
  put = λ url rid offset bytes w place i. always-Ends H (H.put url _ _ rid bytes w);
}

answered_lem :
    (H : Http) (chunks : List Chunk) (total_size : ℕ) (url : Text)
    (o : Outcome GraphInternalError H.World (Option RemoteItem))
    → Answers H (λ v. Unit) chunks total_size (always-Keeps H chunks total_size) url o
    → Returns (λ item. is_some item ≡ true) o
answered_lem H chunks total_size url (ok item w) h = h.0
answered_lem H chunks total_size url (err e w) h = tt

-- The upload ends with an item or with an error, whatever the server answers and whatever ranges it
-- asks for: six passes over the chunks are enough.
pub upload_session_with_base-answers :
    (H : Http) (token url : Text) (total_size : ℕ) (chunks : List Chunk) (w : H.World)
    → Returns (λ o. is_some o ≡ true) (upload_session_with_base H token url total_size chunks w)
upload_session_with_base-answers H token url total_size chunks w =
    answered_lem H chunks total_size url (upload_session_with_base H token url total_size chunks w)
      (session-Answers H (λ v. Unit) chunks total_size (always-Keeps H chunks total_size) token url
        w tt)
