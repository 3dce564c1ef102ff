-- ===== src/Graph/Upload/Chunks.antt =====
-- The positions of chunks in the file.
use onesync.Prelude.{
  ℕ, zero, suc, ◌+◌, ◌-◌, ◌≤◌, ◌<◌, ◌≡◌, refl, ap, inl, inr, Option, none, some, List, [], ◌∷◌,
  ◌++◌, arith,
}
use onesync.Prelude.Tests.{ltb, Bool-cases}
use onesync.Prelude.Lists.{length}
use onesync.Graph.Upload.{Chunk, find_from, find_chunk_index, chunk_at}

-- The file's bytes.
abbrev pub joined : List Chunk → List ℕ
joined [] = []
joined (chunk ∷ chunks) = chunk ++ joined chunks

-- Where chunk `i` starts; the length of the file past the last chunk.
abbrev pub start_at : ℕ → List Chunk → ℕ
start_at i [] = 0
start_at zero (chunk ∷ chunks) = 0
start_at (suc i) (chunk ∷ chunks) = length chunk + start_at i chunks

-- The offset lies in front of the chunk's end.
abbrev pub IsBefore : ℕ → ℕ → Option Chunk → Type 0
IsBefore target start none = Unit
IsBefore target start (some chunk) = target < start + length chunk

-- What is promised of an index and a start: the chunk starts there, the offset is not in front of it,
-- and in front of its end; past the last chunk, the offset is at the file's end or behind it.
abbrev pub IsPlace : List Chunk → ℕ → ℕ × ℕ → Type 0
IsPlace chunks target (i, start) =
    (start ≡ start_at i chunks)
    × (start ≤ target)
    × IsBefore target start (chunk_at i chunks)
    × (i ≤ length chunks)

shift-IsBefore :
    (target start size : ℕ) (o : Option Chunk)
    → size ≤ target
    → IsBefore (target - size) start o
    → IsBefore target (size + start) o
shift-IsBefore target start size none h b = tt
shift-IsBefore target start size (some chunk) h b = omega (arith, b)

next-IsPlace :
    (chunk : Chunk) (chunks : List Chunk) (target j : ℕ)
    → length chunk ≤ target
    → IsPlace chunks (target - length chunk) (j, start_at j chunks)
    → IsPlace (chunk ∷ chunks) target (suc j, start_at (suc j) (chunk ∷ chunks))
next-IsPlace chunk chunks target j h (same, le, before, bound) = (
  refl,
  omega (arith, le),
  shift-IsBefore target (start_at j chunks) (length chunk) (chunk_at j chunks) h before,
  omega (arith, bound),
)

find_from-IsPlace :
    (i cum_off : ℕ) (chunks : List Chunk) (target : ℕ)
    → (j : ℕ) × (find_from i cum_off chunks (cum_off + target)
        ≡ (i + j, cum_off + start_at j chunks))
      × IsPlace chunks target (j, start_at j chunks)
find_from-IsPlace i cum_off [] target = (0, ground arith, ground arith)
find_from-IsPlace i cum_off (chunk ∷ chunks) target =
    elim (Bool-cases (ltb (cum_off + target) (cum_off + length chunk))) [
      | inl inside ↦ (0, rw inside (ground arith), ground arith)
      | inr beyond ↦
          let (j, e, place) =
            find_from-IsPlace (suc i) (cum_off + length chunk) chunks (target - length chunk) in
          let same : cum_off + length chunk + (target - length chunk) ≡ cum_off + target =
            ground (arith, beyond) in
          (
            suc j,
            rw beyond
                (ground (arith, e, ap (find_from (suc i) (cum_off + length chunk) chunks) same)),
            next-IsPlace chunk chunks target j (ground (arith, beyond)) place,
          )
    ]

find_chunk_index-start :
    (chunks : List Chunk) (target : ℕ)
    → (j : ℕ) × (find_chunk_index chunks target ≡ (j, start_at j chunks))
      × IsPlace chunks target (j, start_at j chunks)
unfolding find_chunk_index
find_chunk_index-start chunks target =
    let (j, e, place) = find_from-IsPlace 0 0 chunks target in
    let plain : 0 + target ≡ target = omega arith in
    (j, ground (arith, e, ap (find_from 0 0 chunks) plain), place)

-- For every list of chunks and every offset, the index and the start that the search returns are a
-- chunk with its first byte's position, such that the offset lies in that chunk, or the number of
-- chunks with the file's length, and then the offset is not inside the file.
pub find_chunk_index-IsPlace :
    (chunks : List Chunk) (target : ℕ) → IsPlace chunks target (find_chunk_index chunks target)
find_chunk_index-IsPlace chunks target =
    let (j, e, place) = find_chunk_index-start chunks target in rw e place
