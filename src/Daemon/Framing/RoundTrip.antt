-- ===== src/Daemon/Framing/RoundTrip.antt =====
-- Frames are read as they were written.
use onesync.Prelude.{ℕ, ◌<◌, ◌≡◌, refl, Bool, true, false, none, some, [], ◌∷◌, ◌++◌, arith}
use mathlib.Core.List.{append_assoc}
use onesync.Prelude.Equality.{nat_eq, beq_refl}
use onesync.Prelude.Lists.{length, length-append}
use onesync.Prelude.Text.{Text, has}
use onesync.Prelude.Outcome.{ok}
use onesync.Daemon.Framing.{
  ipc_frame_max_bytes, newline, carriage_return, read_line, strip_last, frame_of, read_frame,
  write_frame,
}

-- A text that can be a frame: one line, no carriage return at its end, and with its newline not over
-- the limit.
pub record IsFrame (json : Text) : Type 0 where
  pub one_line : has newline json ≡ false
  pub no_return : strip_last carriage_return json ≡ none
  pub short : length json < ipc_frame_max_bytes

line_lem :
    (json rest : Text)
    → has newline json ≡ false
    → read_line (json ++ (newline ∷ rest)) ≡ (json ++ (newline ∷ []), rest)
line_lem [] rest h = refl
line_lem (c ∷ json) rest h = ground (arith, line_lem json rest)

strip_last_lem : (b : ℕ) (s : Text) → strip_last b (s ++ (b ∷ [])) ≡ some s
strip_last_lem b [] = rw (beq_refl b) refl
strip_last_lem b (c ∷ []) = ground (arith, beq_refl b)
strip_last_lem b (c ∷ (d ∷ s)) = rw (strip_last_lem b (d ∷ s)) refl

frame_lem :
    (json rest : Text) → IsFrame json → frame_of (json ++ (newline ∷ [])) rest ≡ ok json rest
frame_lem json rest frame =
    rw (strip_last_lem newline json)
      (ground (arith, length-append json (newline ∷ []), frame.short, frame.no_return))

-- A frame that is written to an empty stream, with more bytes behind it, is read as it is, and the
-- bytes behind it stay in the stream, for every test of UTF-8 that the line passes.
pub read_frame-write_frame :
    (is_utf8 : Text → Bool) (invalid_data json rest : Text)
    → IsFrame json
    → is_utf8 (json ++ (newline ∷ [])) ≡ true
    → read_frame is_utf8 invalid_data (write_frame json [] ++ rest) ≡ ok json rest
unfolding read_frame write_frame
read_frame-write_frame is_utf8 invalid_data json rest frame utf8 =
    rw (append_assoc json (newline ∷ []) rest, line_lem json rest frame.one_line, utf8)
      (frame_lem json rest frame)
