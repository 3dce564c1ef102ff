-- ===== src/Daemon/Framing.antt =====
-- crates/onesync-daemon/src/ipc/framing.rs. A stream is the bytes that are still to come; the peer
-- closes it behind the last. Whether a line is UTF-8 is a parameter, and so is the text of an error.
pub mod RoundTrip
use onesync.Prelude.{ℕ, suc, ◌*◌, Bool, true, false, Option, none, some, List, [], ◌∷◌, ◌++◌}
use onesync.Prelude.Tests.{if◌then◌else◌, ltb}
use onesync.Prelude.Equality.{◌==◌, nat_eq}
use onesync.Prelude.Lists.{length}
use onesync.Prelude.Text.{Text}
use onesync.Prelude.Outcome.{Outcome, ok, err}
use onesync.Engine.Limits.{mib}

pub data FrameError : Type 0 where
  too_large closed : FrameError
  io : Text → FrameError

abbrev pub ipc_frame_max_bytes : ℕ
ipc_frame_max_bytes = mib

abbrev pub newline : ℕ
newline = 10

abbrev pub carriage_return : ℕ
carriage_return = 13

abbrev onto : ℕ → Text × Text → Text × Text
onto c (line, rest) = (c ∷ line, rest)

-- `AsyncBufReadExt::read_line`: the bytes up to a newline, which belongs to the line, or to the end.
abbrev pub read_line : Text → Text × Text
read_line [] = ([], [])
read_line (c ∷ s) = let more = onto c (read_line s) in if c == newline then (c ∷ [], s) else more

-- `line.ends_with(b)` and `line.pop()`: the text without its last byte if that is `b`.
abbrev pub strip_last : ℕ → Text → Option Text
strip_last b [] = none
strip_last b (c ∷ []) = if c == b then some [] else none
strip_last b (c ∷ (d ∷ s)) = elim (strip_last b (d ∷ s)) [ none ↦ none | some t ↦ some (c ∷ t) ]

abbrev pub or_same : Text → Option Text → Text
or_same line none = line
or_same line (some shorter) = shorter

abbrev pub strip_newline : Text → Option Text → Text
strip_newline line none = line
strip_newline line (some shorter) = or_same shorter (strip_last carriage_return shorter)

abbrev pub frame_of : Text → Text → Outcome FrameError Text Text
frame_of line rest =
    if length line == 0
    then err closed rest
    else if ltb ipc_frame_max_bytes (length line)
    then err too_large rest
    else ok (strip_newline line (strip_last newline line)) rest

module _ (is_utf8 : Text → Bool) (invalid_data : Text) where
  unfoldable pub read_frame : Text → Outcome FrameError Text Text
  read_frame stream =
      let (line, rest) = read_line stream in
      if is_utf8 line then frame_of line rest else err (io invalid_data) rest

-- What the writer puts behind what is in the stream already.
unfoldable pub write_frame : Text → Text → Text
write_frame json stream = stream ++ (json ++ (newline ∷ []))
