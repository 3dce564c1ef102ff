-- ===== src/Protocol/Hash.antt =====
-- The printer and the parser of `ContentHash` in crates/onesync-protocol/src/primitives.rs.
pub mod RoundTrip
use onesync.Prelude.{
  ℕ, ◌+◌, ◌-◌, ◌*◌, ◌/◌, ◌%◌, ◌&&◌, Bool, not, Option, none, some, List, [], ◌∷◌, ◌⊎◌, inl, inr,
}
use onesync.Prelude.Tests.{if◌then◌else◌, ltb, leb}
use onesync.Prelude.Equality.{◌==◌, nat_eq}
use onesync.Prelude.Lists.{length}
use onesync.Prelude.Text.{Text}
use onesync.Protocol.FileSide.{ContentHash}

pub data ContentHashParseError : Type 0 where
  wrong_length non_hex : ℕ → ContentHashParseError

abbrev pub decode_nibble : ℕ → Option ℕ
decode_nibble b =
    if leb 48 b && leb b 57
    then some (b - 48)
    else if leb 97 b && leb b 102
    then some (b - 97 + 10)
    else if leb 65 b && leb b 70
    then some (b - 65 + 10)
    else none

-- `(hi << 4) | lo` of two digits, and the rest of the bytes.
abbrev pub join_nibbles :
    ℕ → ℕ → ContentHashParseError ⊎ ContentHash → ContentHashParseError ⊎ ContentHash
join_nibbles hi lo (inl e) = inl e
join_nibbles hi lo (inr bytes) = inr ((hi * 16 + lo) ∷ bytes)

abbrev pub decode_pair :
    ℕ
    → Option ℕ
    → Option ℕ
    → ContentHashParseError ⊎ ContentHash
    → ContentHashParseError ⊎ ContentHash
decode_pair i none lo rest = inl (non_hex (i * 2))
decode_pair i (some hi) none rest = inl (non_hex (i * 2 + 1))
decode_pair i (some hi) (some lo) rest = join_nibbles hi lo rest

-- The chunks of two from the one at `i` on; with 64 bytes no chunk is shorter.
abbrev pub decode_chunks : ℕ → Text → ContentHashParseError ⊎ ContentHash
decode_chunks i [] = inr []
decode_chunks i (a ∷ []) = inl (non_hex (i * 2 + 1))
decode_chunks i (a ∷ (b ∷ s)) =
    decode_pair i (decode_nibble a) (decode_nibble b) (decode_chunks (i + 1) s)

-- `ContentHash::from_str`.
unfoldable pub hash_from_str : Text → ContentHashParseError ⊎ ContentHash
hash_from_str s = if not (length s == 64) then inl (wrong_length (length s)) else decode_chunks 0 s

-- A digit of `{:02x}`.
abbrev pub hex_digit : ℕ → ℕ
hex_digit n = if ltb n 10 then 48 + n else 87 + n

-- `Display`.
abbrev pub hash_to_string : ContentHash → Text
hash_to_string [] = []
hash_to_string (b ∷ bytes) = hex_digit (b / 16) ∷ (hex_digit (b % 16) ∷ hash_to_string bytes)
