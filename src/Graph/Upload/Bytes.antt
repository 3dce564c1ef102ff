-- ===== src/Graph/Upload/Bytes.antt =====
-- The bytes of a slice as bytes of the file.
use onesync.Prelude.{
  ℕ, zero, suc, ◌+◌, ◌-◌, ◌≤◌, ◌≡◌, refl, sym, ap, ◌∙◌, some, List, [], ◌∷◌, ◌++◌, arith,
}
use onesync.Prelude.Lists.{length, drop}
use onesync.Graph.Upload.{Chunk, Progress, chunk_at, slice}
use onesync.Graph.Upload.Chunks.{joined, start_at}
use onesync.Graph.Upload.Places.{IsPlaced, inside_lem}

-- The bytes are those of the file from the offset on.
abbrev pub IsInPlace : List Chunk → ℕ → List ℕ → Type 0
IsInPlace chunks offset bytes = (rest : List ℕ) × (drop offset (joined chunks) ≡ bytes ++ rest)

slice_within :
    (n : ℕ) (bytes more : List ℕ)
    → n ≤ length bytes
    → drop n (bytes ++ more) ≡ slice n bytes ++ more
slice_within zero bytes more h = refl
slice_within (suc n) [] more h = absurd (omega (arith, h))
slice_within (suc n) (b ∷ bytes) more h = slice_within n bytes more (omega (arith, h))

slice_past : (n : ℕ) (bytes more : List ℕ) → drop (length bytes + n) (bytes ++ more) ≡ drop n more
slice_past n [] more = let plain : 0 + n ≡ n = omega arith in ap (λ k. drop k more) plain
slice_past n (b ∷ bytes) more =
    let next : suc (length bytes) + n ≡ suc (length bytes + n) = omega arith in
    ap (λ k. drop k (b ∷ (bytes ++ more))) next ∙ slice_past n bytes more

slice_joined :
    (chunks : List Chunk) (i offset : ℕ) (chunk : Chunk)
    → chunk_at i chunks ≡ some chunk
    → offset ≤ length chunk
    → IsInPlace chunks (start_at i chunks + offset) (slice offset chunk)
slice_joined [] i offset chunk h le = absurd (ground arith)
slice_joined (c ∷ chunks) zero offset chunk h le =
    let same : c ≡ chunk = ground (arith, h) in
    let plain : 0 + offset ≡ offset = omega arith in
    (
      joined chunks,
      ap (λ k. drop k (c ++ joined chunks)) plain
          ∙ (rw same (slice_within offset chunk (joined chunks) le)),
    )
slice_joined (c ∷ chunks) (suc i) offset chunk h le =
    let (rest, e) = slice_joined chunks i offset chunk h le in
    let assoc : length c + start_at i chunks + offset ≡ length c + (start_at i chunks + offset) =
      omega arith in
    (
      rest,
      ap (λ k. drop k (c ++ joined chunks)) assoc
          ∙ slice_past (start_at i chunks + offset) c (joined chunks)
          ∙ e,
    )

-- What a round sends is in place.
pub placed-IsInPlace :
    (chunks : List Chunk) (p : Progress) (chunk : Chunk)
    → IsPlaced chunks p
    → chunk_at p.chunk_index chunks ≡ some chunk
    → IsInPlace chunks p.offset (slice (p.offset - p.chunk_start) chunk)
placed-IsInPlace chunks p chunk placed here =
    let within =
      inside_lem p.offset p.chunk_start chunk (chunk_at p.chunk_index chunks) placed.inside here in
    let (rest, e) =
      slice_joined chunks p.chunk_index (p.offset - p.chunk_start) chunk here
        (omega (arith, within, placed.behind)) in
    let same : start_at p.chunk_index chunks + (p.offset - p.chunk_start) ≡ p.offset =
      omega (arith, placed.starts, placed.behind) in
    (rest, ap (λ k. drop k (joined chunks)) (sym same) ∙ e)
