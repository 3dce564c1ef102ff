-- ===== src/Protocol/Hash/RoundTrip.antt =====
-- Printing a content hash and parsing it again.
use onesync.Prelude.{ℕ, ◌+◌, ◌*◌, ◌/◌, ◌%◌, ◌<◌, ◌≡◌, refl, some, [], ◌∷◌, inr, arith}
use onesync.Prelude.Equality.{nat_eq}
use onesync.Prelude.Lists.{length, All}
use onesync.Protocol.FileSide.{ContentHash}
use onesync.Protocol.Hash.{decode_nibble, decode_chunks, hash_from_str, hex_digit, hash_to_string}

abbrev pub IsByte : ℕ → Type 0
IsByte b = b < 256

nibble_lem : (n : ℕ) → n < 16 → decode_nibble (hex_digit n) ≡ some n
nibble_lem n h = ground arith

length-hash_to_string : (h : ContentHash) → length (hash_to_string h) ≡ 2 * length h
length-hash_to_string [] = refl
length-hash_to_string (b ∷ h) = omega (arith, length-hash_to_string h)

decode_chunks-hash_to_string :
    (i : ℕ) (h : ContentHash) → All IsByte h → decode_chunks i (hash_to_string h) ≡ inr h
decode_chunks-hash_to_string i [] a = refl
decode_chunks-hash_to_string i (b ∷ h) a =
    let e : b / 16 * 16 + b % 16 ≡ b = omega arith in
    rw
      (
        nibble_lem (b / 16) (omega (arith, a.0)),
        nibble_lem (b % 16) (omega arith),
        decode_chunks-hash_to_string (i + 1) h a.1,
        e,
      )
      refl

-- Parsing the printed form of a hash of 32 bytes gives the hash back.
pub hash_from_str-hash_to_string :
    (h : ContentHash) → length h ≡ 32 → All IsByte h → hash_from_str (hash_to_string h) ≡ inr h
unfolding hash_from_str
hash_from_str-hash_to_string h l a =
    ground (arith, l, length-hash_to_string h, decode_chunks-hash_to_string 0 h a)
