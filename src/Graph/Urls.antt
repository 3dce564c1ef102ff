-- ===== src/Graph/Urls.antt =====
-- crates/onesync-graph/src/urls.rs: percent-encoding of segments and paths, over bytes.
pub mod RoundTrip
use onesync.Prelude.{ℕ, ◌+◌, ◌/◌, ◌%◌, Bool, true, false, ◌&&◌, ◌||◌, List, [], ◌∷◌, ◌++◌}
use onesync.Prelude.Tests.{if◌then◌else◌, ltb, leb}
use onesync.Prelude.Equality.{◌==◌, nat_eq}
use onesync.Prelude.Text.{Text, split}

abbrev pub slash : ℕ
slash = b'/'

abbrev pub percent : ℕ
percent = b'%'

abbrev pub is_unreserved : ℕ → Bool
is_unreserved b =
    (leb 65 b && leb b 90)
    || (leb 97 b && leb b 122)
    || (leb 48 b && leb b 57)
    || (b == 45 || b == 95 || b == 46 || b == 126)

-- A digit of `{:02X}`.
abbrev pub upper_digit : ℕ → ℕ
upper_digit n = if ltb n 10 then 48 + n else 55 + n

unfoldable pub encode_segment : Text → Text
encode_segment [] = []
encode_segment (byte ∷ s) =
    let out = encode_segment s in
    if is_unreserved byte
    then byte ∷ out
    else percent ∷ (upper_digit (byte / 16) ∷ (upper_digit (byte % 16) ∷ out))

-- The loop over the segments, with a slash in front of each but the first.
abbrev pub push_segments : Bool → List Text → Text
push_segments first [] = []
push_segments true (segment ∷ segments) = encode_segment segment ++ push_segments false segments
push_segments false (segment ∷ segments) =
    slash ∷ (encode_segment segment ++ push_segments false segments)

unfoldable pub encode_path : Text → Text
encode_path s = push_segments true (split slash s)
