-- ===== src/FsLocal/Scan/Complete.antt =====
-- A scan of a disk that can be read, whose directories form a finite tree of at most 65536.
use onesync.Prelude.{
  ℕ, zero, suc, ◌+◌, ◌≤◌, ◌≡◌, refl, ◌∙◌, Bool, List, [], ◌∷◌, ◌++◌, ◌⊎◌, inl, inr, arith,
}
use mathlib.Core.List.{append-nil, append_assoc}
use onesync.Prelude.Lists.{length, All, All-append}
use onesync.Prelude.Text.{Text}
use onesync.FsLocal.Scan.{
  DirEntry, LocalFileMeta, Walk, Scanned, done, then_walk, or_io, visit_all, scan_dirs,
  scan_with_skips,
}
use onesync.FsLocal.Scan.Visits.{Found, found_in_all, extended, nothing}
use onesync.FsLocal.Scan.Reads.{Readable, visit_all-extended}

-- A disk: what reading a directory yields.
module _ (is_utf8 : Text → Bool) (read_dir : Text → Text ⊎ List (Text ⊎ DirEntry)) where
  abbrev children_of : Text ⊎ List (Text ⊎ DirEntry) → Found is_utf8
  children_of (inl e) = nothing is_utf8
  children_of (inr es) = found_in_all is_utf8 es

  -- What is found in a directory.
  abbrev pub children : Text → Found is_utf8
  children dir = children_of (read_dir dir)

  abbrev pub ReadableDir : Text ⊎ List (Text ⊎ DirEntry) → Type 0
  ReadableDir (inl e) = ⊥
  ReadableDir (inr es) = All (Readable is_utf8) es

  abbrev pub total : (Text → ℕ) → List Text → ℕ
  total weight [] = 0
  total weight (d ∷ ds) = weight d + total weight ds

  -- Every directory and entry can be read, and the directories form finite trees: `weight` counts at
  -- least the directory itself and what its subdirectories count.
  pub record IsTree (weight : Text → ℕ) : Type 0 where
    pub readable : (dir : Text) → ReadableDir (read_dir dir)
    pub finite : (dir : Text) → total weight (children dir).dirs + 1 ≤ weight dir

  -- The directories in the order in which they are taken from the queue: first in, first out.
  abbrev pub visits : ℕ → List Text → List Text
  visits fuel [] = []
  visits zero (dir ∷ queue) = []
  visits (suc fuel) (dir ∷ queue) = dir ∷ visits fuel (queue ++ (children dir).dirs)

  abbrev pub listed_in : List Text → List LocalFileMeta
  listed_in [] = []
  listed_in (d ∷ ds) = (children d).listed ++ listed_in ds

  abbrev pub links_in : List Text → List Text
  links_in [] = []
  links_in (d ∷ ds) = (children d).links ++ links_in ds

  total-append :
      (weight : Text → ℕ) (xs ys : List Text)
      → total weight (xs ++ ys) ≡ total weight xs + total weight ys
  total-append weight [] ys = omega arith
  total-append weight (x ∷ xs) ys = omega (arith, total-append weight xs ys)

  length-total : (weight : Text → ℕ) (ds : List Text) → IsTree weight → length ds ≤ total weight ds
  length-total weight [] t = omega arith
  length-total weight (d ∷ ds) t = omega (arith, length-total weight ds t, t.finite d)

  read_lem :
      (r : Text ⊎ List (Text ⊎ DirEntry)) (w : Walk) {B : Type 0} (k : Walk → Scanned B)
      → ReadableDir r
      → length w.queue + length (children_of r).dirs ≤ 65536
      → or_io r (λ es. then_walk (visit_all is_utf8 es w) k)
        ≡ k (extended is_utf8 w (children_of r))
  read_lem (inl e) w k h room = absurd h
  read_lem (inr es) w k h room = rw (visit_all-extended is_utf8 es w h room) refl

  scan_dirs-visits :
      (weight : Text → ℕ)
      → IsTree weight
      → (fuel : ℕ) (queue : List Text) (w : Walk) → total weight queue ≤ fuel
      → total weight queue ≤ 65536
      → scan_dirs is_utf8 read_dir fuel queue w
        ≡ done (w.out ++ listed_in (visits fuel queue), w.symlinks ++ links_in (visits fuel queue))
  scan_dirs-visits weight t fuel [] w enough room =
      ground (arith, append-nil w.out, append-nil w.symlinks)
  scan_dirs-visits weight t zero (d ∷ queue) w enough room = absurd (omega (arith, t.finite d))
  scan_dirs-visits weight t (suc fuel) (d ∷ queue) w enough room =
      let found = children d in
      let weighed = total-append weight queue found.dirs in
      let next = extended is_utf8 (record w { queue = queue }) found in
      read_lem (read_dir d) (record w { queue = queue })
        (λ v. scan_dirs is_utf8 read_dir fuel v.queue v) (t.readable d)
        (omega
          (arith, room, t.finite d, length-total weight queue t, length-total weight found.dirs t))
      ∙ scan_dirs-visits weight t fuel (queue ++ found.dirs) next
          (omega (arith, enough, weighed, t.finite d)) (omega (arith, room, weighed, t.finite d))
      ∙ rw
          (
            append_assoc w.out found.listed (listed_in (visits fuel (queue ++ found.dirs))),
            append_assoc w.symlinks found.links (links_in (visits fuel (queue ++ found.dirs))),
          )
          refl

  abbrev pub Among : Text → List Text → Type 0
  Among x [] = ⊥
  Among x (y ∷ ys) = (x ≡ y) ⊎ Among x ys

  -- Every directory found in one of the directories is one of them.
  abbrev pub Closed : List Text → List Text → Type 0
  Closed vs = All (λ d. All (λ c. Among c vs) (children d).dirs)

  All-weaken :
      (v : Text) (vs xs : List Text) → All (λ c. Among c vs) xs → All (λ c. Among c (v ∷ vs)) xs
  All-weaken v vs [] h = tt
  All-weaken v vs (x ∷ xs) h = (inr h.0, All-weaken v vs xs h.1)

  All-split : (P : Text → Type 0) (xs ys : List Text) → All P (xs ++ ys) → All P xs × All P ys
  All-split P [] ys h = (tt, h)
  All-split P (x ∷ xs) ys h = let (a, b) = All-split P xs ys h.1 in ((h.0, a), b)

  Closed-weaken : (v : Text) (vs ds : List Text) → Closed vs ds → Closed (v ∷ vs) ds
  Closed-weaken v vs [] h = tt
  Closed-weaken v vs (d ∷ ds) h = (All-weaken v vs (children d).dirs h.0, Closed-weaken v vs ds h.1)

  visits-Closed :
      (weight : Text → ℕ)
      → IsTree weight
      → (fuel : ℕ) (queue : List Text) → total weight queue ≤ fuel
      → All (λ c. Among c (visits fuel queue)) queue
        × Closed (visits fuel queue) (visits fuel queue)
  visits-Closed weight t fuel [] enough = (tt, tt)
  visits-Closed weight t zero (d ∷ queue) enough = absurd (omega (arith, t.finite d))
  visits-Closed weight t (suc fuel) (d ∷ queue) enough =
      let found = (children d).dirs in
      let vs = visits fuel (queue ++ found) in
      let (queued, closed) =
        visits-Closed weight t fuel (queue ++ found)
          (omega (arith, enough, total-append weight queue found, t.finite d)) in
      let (waiting, below) = All-split (λ c. Among c vs) queue found queued in
      (
        (inl refl, All-weaken d vs queue waiting),
        (All-weaken d vs found below, Closed-weaken d vs vs closed),
      )

  -- A directory that is reached from the root through directories that are not skipped.
  pub data Reached (root : Text) : Text → Type 0 where
    at_root : Reached root root
    below : {d c : Text} → Reached root d → Among c (children d).dirs → Reached root c

  All-below :
      (root d : Text) (cs : List Text)
      → Reached root d
      → ((c : Text) → Among c cs → Among c (children d).dirs)
      → All (Reached root) cs
  All-below root d [] r h = tt
  All-below root d (c ∷ cs) r h =
      (below r (h c (inl refl)), All-below root d cs r (λ x m. h x (inr m)))

  visits-Reached :
      (root : Text) (fuel : ℕ) (queue : List Text)
      → All (Reached root) queue
      → All (Reached root) (visits fuel queue)
  visits-Reached root fuel [] h = tt
  visits-Reached root zero (d ∷ queue) h = tt
  visits-Reached root (suc fuel) (d ∷ queue) h = (
    h.0,
    visits-Reached root fuel (queue ++ (children d).dirs) (
        All-append (Reached root) queue (children d).dirs h.1
          (All-below root d (children d).dirs h.0 (λ c m. m))),
  )

  -- The disk can be read and the directories below the root are a finite tree of at most 65536; the fuel
  -- is their number at least. Then the scan succeeds, and lists and skips exactly what is found in some
  -- directories, in the order in which the queue gives them: the root is one of them, with a directory
  -- every directory found in it is one of them, and each is reached from the root. Found in a directory
  -- are its links, and its files and directories, with paths of any length, but those whose names are
  -- no UTF-8, begin with `._`, or are one of `.DS_Store`, `Icon` with a return, and `.localized`.
  pub scan_with_skips-Complete :
      (weight : Text → ℕ)
      → IsTree weight
      → (fuel : ℕ) (root : Text) → weight root ≤ fuel
      → weight root ≤ 65536
      → (vs : List Text) × (scan_with_skips is_utf8 read_dir fuel root
          ≡ done (listed_in vs, links_in vs))
        × Among root vs
        × Closed vs vs
        × All (Reached root) vs
  unfolding scan_with_skips
  scan_with_skips-Complete weight t fuel root enough room =
      let (queued, closed) = visits-Closed weight t fuel (root ∷ []) (omega (arith, enough)) in
      (
        visits fuel (root ∷ []),
        scan_dirs-visits weight t fuel (root ∷ []) _ (omega (arith, enough)) (omega (arith, room)),
        queued.0,
        closed,
        visits-Reached root fuel (root ∷ []) (at_root, tt),
      )
