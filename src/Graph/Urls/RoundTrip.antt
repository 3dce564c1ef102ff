-- ===== src/Graph/Urls/RoundTrip.antt =====
-- Decoding what was encoded.
use onesync.Prelude.{
  ℕ, ◌+◌, ◌*◌, ◌/◌, ◌%◌, ◌<◌, ◌≡◌, refl, sym, ap, ◌∙◌, inl, inr, true, false, Option, none, some,
  List, [], ◌∷◌, ◌++◌, map, arith,
}
use onesync.Prelude.Tests.{if◌then◌else◌, Bool-cases}
use onesync.Prelude.Equality.{◌==◌, nat_eq, beq_refl}
use onesync.Prelude.Lists.{All}
use onesync.Prelude.Text.{Text, split, has}
use mathlib.Core.List.{append-nil}
use onesync.Protocol.Hash.{decode_nibble}
use onesync.Graph.Urls.{
  slash, percent, is_unreserved, upper_digit, encode_segment, push_segments, encode_path,
}

-- What a decoder has read of an escape.
pub data Escape : Type 0 where
  plain : Escape
  opened : Escape
  half : ℕ → Escape

abbrev pub cons_to : ℕ → Option Text → Option Text
cons_to b none = none
cons_to b (some s) = some (b ∷ s)

-- The decoder of RFC 3986: an escape of two hexadecimal digits is their byte, and all else is itself.
abbrev pub digit_to : (ℕ → Option Text) → Option ℕ → Option Text
digit_to f none = none
digit_to f (some d) = f d

abbrev pub decode_from : Escape → Text → Option Text
decode_from plain [] = some []
decode_from opened [] = none
decode_from (half hi) [] = none
decode_from plain (c ∷ s) =
    let inside = decode_from opened s in
    let outside = cons_to c (decode_from plain s) in if c == percent then inside else outside
decode_from opened (c ∷ s) = digit_to (λ d. decode_from (half d) s) (decode_nibble c)
decode_from (half hi) (c ∷ s) =
    let rest = decode_from plain s in digit_to (λ d. cons_to (hi * 16 + d) rest) (decode_nibble c)

unfoldable pub percent_decode : Text → Option Text
percent_decode = decode_from plain

abbrev pub IsByte : ℕ → Type 0
IsByte b = b < 256

nibble_lem : (n : ℕ) → n < 16 → decode_nibble (upper_digit n) ≡ some n
nibble_lem n h = ground arith

escape_lem :
    (b : ℕ) (s : Text)
    → IsByte b
    → decode_from plain (percent ∷ (upper_digit (b / 16) ∷ (upper_digit (b % 16) ∷ s)))
      ≡ cons_to b (decode_from plain s)
escape_lem b s h =
    let whole : b / 16 * 16 + b % 16 ≡ b = omega arith in
    rw (nibble_lem (b / 16) (omega (arith, h)), nibble_lem (b % 16) (omega arith), whole) refl

unreserved_lem : (b : ℕ) → is_unreserved b ≡ true → (b == percent) ≡ false
unreserved_lem b h = ground (arith, h)

-- What follows an encoded segment is decoded behind the segment.
abbrev prepend : Text → Option Text → Option Text
prepend s none = none
prepend s (some t) = some (s ++ t)

cons_prepend : (b : ℕ) (s : Text) (o : Option Text) → cons_to b (prepend s o) ≡ prepend (b ∷ s) o
cons_prepend b s none = refl
cons_prepend b s (some t) = refl

prepend_nothing : (o : Option Text) → o ≡ prepend [] o
prepend_nothing none = refl
prepend_nothing (some t) = refl

decode-encode_segment :
    (s rest : Text)
    → All IsByte s
    → decode_from plain (encode_segment s ++ rest) ≡ prepend s (decode_from plain rest)
unfolding encode_segment
decode-encode_segment [] rest a = prepend_nothing (decode_from plain rest)
decode-encode_segment (b ∷ s) rest a =
    let tail = ap (cons_to b) (decode-encode_segment s rest a.1) ∙ cons_prepend b s _ in
    elim (Bool-cases (is_unreserved b)) [
      | inl e ↦ rw (e, unreserved_lem b e) tail
      | inr e ↦ rw e (escape_lem b (encode_segment s ++ rest) a.0 ∙ tail)
    ]

has-encode_segment : (s : Text) → All IsByte s → has slash (encode_segment s) ≡ false
unfolding encode_segment
has-encode_segment [] a = refl
has-encode_segment (b ∷ s) a = ground (arith, has-encode_segment s a.1, a.0)

-- A text without the separator is the first part of what goes on with a separator.
split_part :
    (sep : ℕ) (part rest : Text)
    → has sep part ≡ false
    → split sep (part ++ (sep ∷ rest)) ≡ part ∷ split sep rest
split_part sep [] rest h = rw (beq_refl sep) refl
split_part sep (c ∷ part) rest h =
    let (other, later) : ((c == sep) ≡ false) × (has sep part ≡ false) = ground (arith, h) in
    rw (other, split_part sep part rest later) refl

split_whole : (sep : ℕ) (part : Text) → has sep part ≡ false → split sep (part ++ []) ≡ part ∷ []
split_whole sep [] h = refl
split_whole sep (c ∷ part) h =
    let (other, later) : ((c == sep) ≡ false) × (has sep part ≡ false) = ground (arith, h) in
    rw (other, split_whole sep part later) refl

abbrev AreBytes : List Text → Type 0
AreBytes = All (All IsByte)

-- The parts with the separator between them.
abbrev joined : ℕ → Text → List Text → Text
joined sep part [] = part
joined sep part (next ∷ parts) = part ++ (sep ∷ joined sep next parts)

joined_cons :
    (sep c : ℕ) (part : Text) (parts : List Text)
    → joined sep (c ∷ part) parts ≡ c ∷ joined sep part parts
joined_cons sep c part [] = refl
joined_cons sep c part (next ∷ parts) = refl

-- A text is its parts joined, and the parts have its bytes.
abbrev Splits : ℕ → Text → Type 0
Splits sep s =
    (part : Text) × (parts : List Text) × (split sep s ≡ part ∷ parts)
    × (joined sep part parts ≡ s)
    × (All IsByte s → All IsByte part × AreBytes parts)

split-Splits : (sep : ℕ) (s : Text) → Splits sep s
split-Splits sep [] = ([], [], refl, refl, λ a. (tt, tt))
split-Splits sep (c ∷ s) =
    let (part, parts, e, j, bytes) = split-Splits sep s in
    elim (Bool-cases (c == sep)) [
      | inl same ↦ ([], part ∷ parts, rw (same, e) refl, ground (arith, j), λ a. (tt, bytes a.1))
      | inr other ↦ (
        c ∷ part,
        parts,
        rw (other, e) refl,
        joined_cons sep c part parts ∙ ap (λ t. c ∷ t) j,
        λ a. ((a.0, (bytes a.1).0), (bytes a.1).1),
      )
    ]

split_pushed :
    (segment : Text) (segments : List Text)
    → All IsByte segment
    → AreBytes segments
    → split slash (encode_segment segment ++ push_segments false segments)
      ≡ encode_segment segment ∷ map encode_segment segments
split_pushed segment [] a rest =
    split_whole slash (encode_segment segment) (has-encode_segment segment a)
split_pushed segment (next ∷ segments) a rest =
    split_part slash (encode_segment segment) _ (has-encode_segment segment a)
    ∙ ap (λ parts. encode_segment segment ∷ parts) (split_pushed next segments rest.0 rest.1)

decode_pushed :
    (segment : Text) (segments : List Text)
    → All IsByte segment
    → AreBytes segments
    → decode_from plain (encode_segment segment ++ push_segments false segments)
      ≡ some (joined slash segment segments)
decode_pushed segment [] a rest = decode-encode_segment segment [] a ∙ ap some (append-nil segment)
decode_pushed segment (next ∷ segments) a rest =
    decode-encode_segment segment _ a
    ∙ ap (λ o. prepend segment (cons_to slash o)) (decode_pushed next segments rest.0 rest.1)

-- An encoded segment has no slash, and decoding it gives the segment back.
pub percent_decode-encode_segment :
    (s : Text)
    → All IsByte s
    → (has slash (encode_segment s) ≡ false) × (percent_decode (encode_segment s) ≡ some s)
unfolding percent_decode
percent_decode-encode_segment s a = (
  has-encode_segment s a,
  ap (decode_from plain) (sym (append-nil (encode_segment s)))
      ∙ decode-encode_segment s [] a
      ∙ ap some (append-nil s),
)

-- The segments of an encoded path are the encoded segments of the path, empty ones included, and
-- decoding the encoded path gives the path back.
pub percent_decode-encode_path :
    (s : Text)
    → All IsByte s
    → (split slash (encode_path s) ≡ map encode_segment (split slash s))
      × (percent_decode (encode_path s) ≡ some s)
unfolding encode_path percent_decode
percent_decode-encode_path s a =
    let (part, parts, e, j, bytes) = split-Splits slash s in
    let (a0, rest) = bytes a in
    (rw e (split_pushed part parts a0 rest), rw e (decode_pushed part parts a0 rest ∙ ap some j))
