-- ===== src/Graph/Download.antt =====
-- crates/onesync-graph/src/download.rs: the body is hashed while it streams in, in blocks. SHA-1 and
-- base64 come from other crates and are parameters; QuickXorHash is written out in the source. The
-- redirect is followed by the client, which a single call stands for.

pub mod Streaming
use Prim.Native.Nat.{bit_xor}
use onesync.Prelude.{
  ℕ, zero, suc, ◌+◌, ◌-◌, ◌*◌, ◌/◌, ◌%◌, ◌^◌, Bool, true, false, Option, none, some, List, [], ◌∷◌,
  ◌++◌, ◌⊎◌, inl, inr,
}
use onesync.Prelude.Tests.{if◌then◌else◌, ltb, leb}
use onesync.Prelude.Equality.{◌==◌, nat_eq, list_eq}
use onesync.Prelude.Lists.{length, drop}
use onesync.Prelude.Sorting.{take}
use onesync.Prelude.Text.{Text, codes, to_ascii_lowercase}
use onesync.Prelude.Outcome.{Outcome, ok, err, and_then, Action}
use onesync.Protocol.Remote.{FileHashes}
use onesync.Graph.Errors.{cause, GraphInternalError, network, hash_mismatch}
use onesync.Graph.Http.{Http, Response, check_status}

abbrev pub hash_block_bytes : ℕ
hash_block_bytes = 1048576

pub record Sha1 : Type 1 where
  pub State : Type 0
  pub new : State
  pub update : List ℕ → State → State
  pub finalize : State → List ℕ

pub record QuickXorHasher : Type 0 where
  pub state : List ℕ
  pub length_so_far : ℕ
  pub shift : ℕ

abbrev zeros : ℕ → List ℕ
zeros zero = []
zeros (suc n) = 0 ∷ zeros n

-- `QuickXorHasher::new`.
unfoldable pub new_hasher : QuickXorHasher
new_hasher = record { state = zeros 20; length_so_far = 0; shift = 0 }

-- `data[i] ^= v`.
abbrev pub xor_at : ℕ → ℕ → List ℕ → List ℕ
xor_at i v [] = []
xor_at zero v (b ∷ bs) = bit_xor b v ∷ bs
xor_at (suc i) v (b ∷ bs) = b ∷ xor_at i v bs

-- One byte, spread over two bytes of the state; `<<` on `u8` drops what is shifted out.
abbrev pub spread : ℕ → QuickXorHasher → QuickXorHasher
spread b h =
    let bit_index = h.shift % 160 in
    let byte_index = bit_index / 8 in
    let bit_in_byte = bit_index % 8 in
    let first = xor_at byte_index (b * 2 ^ bit_in_byte % 256) h.state in
    record h {
      state =
          if ltb 0 bit_in_byte
          then xor_at ((byte_index + 1) % 20) (b / 2 ^ (8 - bit_in_byte)) first
          else first;
      shift = (h.shift + 11) % 160;
    }

abbrev pub spread_all : List ℕ → QuickXorHasher → QuickXorHasher
spread_all [] h = h
spread_all (b ∷ bs) h = spread_all bs (spread b h)

-- `QuickXorHasher::update`.
unfoldable pub update : List ℕ → QuickXorHasher → QuickXorHasher
update input h =
    let after = spread_all input h in
    record after { length_so_far = h.length_so_far + length input }

-- The bytes of the length, the lowest first, go into the last eight bytes of the state.
abbrev xor_length : ℕ → ℕ → ℕ → List ℕ → List ℕ
xor_length zero i n state = state
xor_length (suc k) i n state = xor_length k (i + 1) (n / 256) (xor_at (12 + i) (n % 256) state)

unfoldable pub finalize : QuickXorHasher → List ℕ
finalize h = xor_length 8 0 h.length_so_far h.state

-- A digit of `{:02x}`.
abbrev hex_digit : ℕ → ℕ
hex_digit n = if ltb n 10 then 48 + n else 87 + n

unfoldable pub hex_encode : List ℕ → Text
hex_encode [] = []
hex_encode (b ∷ bs) = hex_digit (b / 16) ∷ (hex_digit (b % 16) ∷ hex_encode bs)

module _ (sha1 : Sha1) (base64 : List ℕ → Text) where
  -- The two hashers and the bytes so far.
  pub record Received : Type 0 where
    pub sha1_hasher : sha1.State
    pub qxh : QuickXorHasher
    pub all_bytes : List ℕ

  abbrev pub started : Received
  started = record { sha1_hasher = sha1.new; qxh = new_hasher; all_bytes = [] }

  abbrev pub feed : List ℕ → Received → Received
  feed block r = record {
    sha1_hasher = sha1.update block r.sha1_hasher;
    qxh = update block r.qxh;
    all_bytes = r.all_bytes ++ block;
  }

  -- The inner loop: full blocks are taken from the front of the buffer. Each is at least one byte, so
  -- that a round for each byte is enough.
  abbrev pub drain_blocks : ℕ → ℕ → List ℕ → Received → List ℕ × Received
  drain_blocks zero block buffer r = (buffer, r)
  drain_blocks (suc fuel) block buffer r =
      let rest = drain_blocks fuel block (drop block buffer) (feed (take block buffer) r) in
      if leb block (length buffer) then rest else (buffer, r)

  -- The last block may be shorter.
  abbrev pub finish : List ℕ × Received → Received
  finish ([], r) = r
  finish (b ∷ bs, r) = feed (b ∷ bs) r

  abbrev pub receive : ℕ → List (Text ⊎ List ℕ) → List ℕ → Received → GraphInternalError ⊎ Received
  receive block [] buffer r = inr (finish (buffer, r))
  receive block (inl e ∷ chunks) buffer r = inl (network (cause e))
  receive block (inr chunk ∷ chunks) buffer r =
      let (left, fed) = drain_blocks (length (buffer ++ chunk)) block (buffer ++ chunk) r in
      receive block chunks left fed

  abbrev sha1_differs : Option Text → Received → Bool
  sha1_differs none r = false
  sha1_differs (some expected) r =
      if to_ascii_lowercase (hex_encode (sha1.finalize r.sha1_hasher))
        == to_ascii_lowercase expected
      then false
      else true

  abbrev qxh_differs : Option Text → Received → Bool
  qxh_differs none r = false
  qxh_differs (some expected) r = if base64 (finalize r.qxh) == expected then false else true

  unfoldable pub verify : Option FileHashes → Received → GraphInternalError ⊎ List ℕ
  verify none r = inr r.all_bytes
  verify (some hashes) r =
      if sha1_differs hashes.sha1_hash r
      then inl hash_mismatch
      else if qxh_differs hashes.quick_xor_hash r
      then inl hash_mismatch
      else inr r.all_bytes

  abbrev pub verified :
      Option FileHashes → GraphInternalError ⊎ Received → GraphInternalError ⊎ List ℕ
  verified expected (inl e) = inl e
  verified expected (inr r) = verify expected r

  module _ (H : Http)
      (get : Text → Text → Text → Action Text H.World (Response × List (Text ⊎ List ℕ))) where
    abbrev pub ended :
        GraphInternalError ⊎ List ℕ → H.World → Outcome GraphInternalError H.World (List ℕ)
    ended (inl e) w = err e w
    ended (inr bytes) w = ok bytes w

    abbrev pub checked :
        GraphInternalError ⊎ Response
        → ℕ
        → Option FileHashes
        → List (Text ⊎ List ℕ)
        → GraphInternalError ⊎ List ℕ
    checked (inl e) block expected chunks = inl e
    checked (inr resp) block expected chunks = verified expected (receive block chunks [] started)

    abbrev pub answered :
        Text
        → Option FileHashes
        → Outcome Text H.World (Response × List (Text ⊎ List ℕ))
        → Outcome GraphInternalError H.World (List ℕ)
    answered request_id expected (err e w) = err (network (cause e)) w
    answered request_id expected (ok (resp, chunks) w) =
        ended (checked (check_status H resp request_id) hash_block_bytes expected chunks) w

    unfoldable pub download_from_url :
        Text → Text → Option FileHashes → Action GraphInternalError H.World (List ℕ)
    download_from_url token url expected w =
        let (request_id, v) = H.new_request_id w in
        answered request_id expected (get url token request_id v)

    unfoldable pub download :
        Text → Text → Text → Option FileHashes → Action GraphInternalError H.World (List ℕ)
    unfolding download_from_url
    download token drive_id item_id expected =
        download_from_url token
          (codes "https://graph.microsoft.com/v1.0/drives/"
            ++ (drive_id ++ (codes "/items/" ++ (item_id ++ codes "/content"))))
          expected
