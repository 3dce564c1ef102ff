-- ===== src/Graph/Upload/Places.antt =====
-- The invariant of the upload's loop: its variables name a chunk, that chunk's start, and an offset
-- in the chunk.
use onesync.Prelude.{
  ℕ, zero, suc, ◌+◌, ◌-◌, ◌*◌, ◌≤◌, ◌<◌, ◌≡◌, refl, ap, Option, none, some, List, [], ◌∷◌, arith,
}
use onesync.Prelude.Lists.{length}
use onesync.Engine.Limits.{retry_max_attempts}
use onesync.Graph.Upload.{
  Chunk, Progress, beginning, chunk_at, slice, advance, resume_at, find_chunk_index,
}
use onesync.Graph.Upload.Chunks.{start_at, IsBefore, find_chunk_index-IsPlace}

abbrev pub IsInside : ℕ → ℕ → Option Chunk → Type 0
IsInside offset start none = Unit
IsInside offset start (some chunk) = offset ≤ start + length chunk

pub record IsPlaced (chunks : List Chunk) (p : Progress) : Type 0 where
  pub starts : p.chunk_start ≡ start_at p.chunk_index chunks
  pub behind : p.chunk_start ≤ p.offset
  pub inside : IsInside p.offset p.chunk_start (chunk_at p.chunk_index chunks)
  pub bounded : p.chunk_index ≤ length chunks
  pub budget : p.resume_attempts ≤ retry_max_attempts

-- The rounds left: a pass over the chunks for each resumption left, and the rest of this one.
abbrev pub left : List Chunk → Progress → ℕ
left chunks p =
    (retry_max_attempts - p.resume_attempts) * (length chunks + 1) + (length chunks - p.chunk_index)

pub beginning-IsPlaced : (chunks : List Chunk) → IsPlaced chunks beginning
beginning-IsPlaced [] = record {
  starts = refl;
  behind = omega arith;
  inside = tt;
  bounded = omega arith;
  budget = omega arith;
}
beginning-IsPlaced (chunk ∷ chunks) = record {
  starts = refl;
  behind = omega arith;
  inside = omega arith;
  bounded = omega arith;
  budget = omega arith;
}

pub length-slice : (n : ℕ) (bytes : List ℕ) → length (slice n bytes) ≡ length bytes - n
length-slice zero bytes = omega arith
length-slice (suc n) [] = omega arith
length-slice (suc n) (b ∷ bytes) = omega (arith, length-slice n bytes)

-- The chunk behind one starts where that one ends.
pub start_at-suc :
    (i : ℕ) (chunks : List Chunk) (chunk : Chunk)
    → chunk_at i chunks ≡ some chunk
    → (start_at (suc i) chunks ≡ start_at i chunks + length chunk) × (i < length chunks)
start_at-suc i [] chunk h = absurd (ground arith)
start_at-suc zero (c ∷ []) chunk h = ground arith
start_at-suc zero (c ∷ (d ∷ chunks)) chunk h = ground arith
start_at-suc (suc i) (c ∷ chunks) chunk h = ground (arith, start_at-suc i chunks chunk h)

before-IsInside :
    (target start : ℕ) (o : Option Chunk) → IsBefore target start o → IsInside target start o
before-IsInside target start none h = tt
before-IsInside target start (some chunk) h = omega (arith, h)

start-IsInside : (start : ℕ) (o : Option Chunk) → IsInside start start o
start-IsInside start none = tt
start-IsInside start (some chunk) = omega arith

pub inside_lem :
    (offset start : ℕ) (chunk : Chunk) (o : Option Chunk)
    → IsInside offset start o
    → o ≡ some chunk
    → offset ≤ start + length chunk
inside_lem offset start chunk none h e = absurd (ground arith)
inside_lem offset start chunk (some c) h e = ground (arith, h, e)

-- The loop's variables at a chunk's start.
abbrev pub at_chunk : ℕ → ℕ → ℕ → Progress
at_chunk start index attempts = record {
  offset = start;
  chunk_index = index;
  chunk_start = start;
  resume_attempts = attempts;
}

one_pass_less :
    (attempts m k j : ℕ)
    → attempts + 1 ≤ 5
    → (5 - (attempts + 1)) * (m + 1) + (m - k) < (5 - attempts) * (m + 1) + j
one_pass_less zero m k j h = omega arith
one_pass_less (suc zero) m k j h = omega arith
one_pass_less (suc (suc zero)) m k j h = omega arith
one_pass_less (suc (suc (suc zero))) m k j h = omega arith
one_pass_less (suc (suc (suc (suc zero)))) m k j h = omega arith
one_pass_less (suc (suc (suc (suc (suc a))))) m k j h = absurd (omega arith)

module _ (chunks : List Chunk) (p : Progress) (placed : IsPlaced chunks p) where
  module _ (chunk : Chunk) (here : chunk_at p.chunk_index chunks ≡ some chunk) where
    -- The slice sent is the rest of the chunk.
    pub slice_to_end :
        p.offset + length (slice (p.offset - p.chunk_start) chunk) ≡ p.chunk_start + length chunk
    slice_to_end = omega (
      arith,
      length-slice (p.offset - p.chunk_start) chunk,
      inside_lem p.offset p.chunk_start chunk (chunk_at p.chunk_index chunks) placed.inside here,
      placed.behind,
    )

    abbrev pub next_place : Progress
    next_place = at_chunk (p.chunk_start + length chunk) (p.chunk_index + 1) p.resume_attempts

    -- After an acknowledged slice the next round is at the next chunk.
    pub advance-next :
        advance p chunk (length (slice (p.offset - p.chunk_start) chunk)) ≡ next_place
    advance-next = ground (arith, slice_to_end)

    pub next-IsPlaced : IsPlaced chunks next_place
    next-IsPlaced =
        let (same, less) = start_at-suc p.chunk_index chunks chunk here in
        let plus : p.chunk_index + 1 ≡ suc p.chunk_index = omega arith in
        record {
          starts = ground (arith, same, ap (λ i. start_at i chunks) plus, placed.starts);
          behind = omega arith;
          inside =
              start-IsInside (p.chunk_start + length chunk) (chunk_at (p.chunk_index + 1) chunks);
          bounded = omega (arith, less);
          budget = placed.budget;
        }

    pub left-next : left chunks next_place < left chunks p
    left-next = omega (arith, start_at-suc p.chunk_index chunks chunk here)

  abbrev pub counted : Progress
  counted = record p { resume_attempts = p.resume_attempts + 1 }

  pub resume-IsPlaced :
      (new_offset : ℕ)
      → p.resume_attempts + 1 ≤ retry_max_attempts
      → IsPlaced chunks (resume_at chunks counted new_offset)
  resume-IsPlaced new_offset h =
      let (index, start) = find_chunk_index chunks new_offset in
      let (starts, behind, before, bounded) = find_chunk_index-IsPlace chunks new_offset in
      record {
        starts = starts;
        behind = behind;
        inside = before-IsInside new_offset start (chunk_at index chunks) before;
        bounded = bounded;
        budget = h;
      }

  pub left-resume :
      (new_offset : ℕ)
      → p.resume_attempts + 1 ≤ retry_max_attempts
      → left chunks (resume_at chunks counted new_offset) < left chunks p
  left-resume new_offset h =
      one_pass_less p.resume_attempts (length chunks) (find_chunk_index chunks new_offset).0
        (length chunks - p.chunk_index) h
