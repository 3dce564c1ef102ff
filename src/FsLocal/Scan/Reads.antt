-- ===== src/FsLocal/Scan/Reads.antt =====
-- A directory whose entries can be read: the scan takes in all of it.
use onesync.Prelude.{
  ℕ, ◌+◌, ◌≤◌, ◌≡◌, sym, ap, Bool, false, Option, none, some, List, [], ◌∷◌, ◌++◌, ◌⊎◌, inl, inr,
  arith,
}
use mathlib.Core.Path.{subst}
use onesync.Prelude.Tests.{leb}
use onesync.Prelude.Lists.{length, length-append, All}
use onesync.Prelude.Text.{Text}
use onesync.Protocol.FileSide.{Timestamp}
use onesync.FsLocal.Scan.{
  FileType, symlink_type, dir_type, file_type, other_type, Metadata, DirEntry, SkipReason, Walk,
  Scanned, done, failed, unfinished, or_io, classify_skip, skip_type, taken, classified, visit,
  visit_all,
}
use onesync.FsLocal.Scan.Visits.{
  Found, found_in, found_in_all, extended, nothing, of_type, of_meta, or_skipped, timed, timed_lem,
  Extends, visit-Extends, visit_all-Extends,
}

module _ (is_utf8 : Text → Bool) where
  abbrev Succeeded : Text ⊎ Timestamp → Type 0
  Succeeded (inl e) = ⊥
  Succeeded (inr t) = Unit

  abbrev HasMetadata : Text ⊎ Metadata → Type 0
  HasMetadata (inl e) = ⊥
  HasMetadata (inr meta) = Succeeded meta.modified

  -- Neither the entry nor its metadata nor its time fails to be read.
  abbrev pub Readable : Text ⊎ DirEntry → Type 0
  Readable (inl e) = ⊥
  Readable (inr entry) = HasMetadata entry.metadata

  abbrev IsDone : Scanned Walk → Type 0
  IsDone (done w) = Unit
  IsDone (failed e) = ⊥
  IsDone unfinished = ⊥

  -- The queue has room for the directories that are found.
  abbrev Fits : Walk → Found is_utf8 → Type 0
  Fits w f = length w.queue + length f.dirs ≤ 65536

  taken-IsDone :
      (t : FileType) (entry : DirEntry) (len : ℕ) (mtime : Timestamp) (w : Walk)
      → Fits w (of_type is_utf8 t entry len mtime)
      → IsDone (taken is_utf8 t entry len mtime w)
  taken-IsDone symlink_type entry len mtime w h = tt
  taken-IsDone other_type entry len mtime w h = tt
  taken-IsDone file_type entry len mtime w h = tt
  taken-IsDone dir_type entry len mtime w h = rw (room_lem (length w.queue) h) tt
    where
      room_lem : (n : ℕ) → n + 1 ≤ 65536 → leb 65536 n ≡ false
      room_lem n k = ground (arith, k)

  classified-IsDone :
      (reason : Option SkipReason) (entry : DirEntry) (t : FileType) (len : ℕ)
      (modified : Text ⊎ Timestamp) (w : Walk)
      → let meta : Metadata = record { file_type = t; len = len; modified = modified } in
        Succeeded modified
        → Fits w (or_skipped is_utf8 reason entry (timed is_utf8 t entry len modified))
        → IsDone (classified is_utf8 reason entry meta w)
  classified-IsDone (some reason) entry t len modified w r h = tt
  classified-IsDone none entry t len (inl e) w r h = absurd r
  classified-IsDone none entry t len (inr mtime) w r h = taken-IsDone t entry len mtime w h

  metadata-IsDone :
      (metadata : Text ⊎ Metadata) (entry : DirEntry) (w : Walk)
      → HasMetadata metadata
      → Fits w (elim metadata [
        | inl e ↦ nothing is_utf8
        | inr meta ↦ of_meta is_utf8 entry meta.file_type meta.len meta.modified
      ])
      → IsDone (
          or_io metadata
            (λ meta. classified is_utf8 (classify_skip is_utf8 entry.file_name meta) entry meta w))
  unfolding classify_skip
  metadata-IsDone (inl e) entry w r h = absurd r
  metadata-IsDone (inr meta) entry w r h =
      classified-IsDone (skip_type is_utf8 meta.file_type entry.file_name) entry meta.file_type
        meta.len meta.modified w r
        (subst (Fits w) (sym (timed_lem is_utf8 meta.file_type entry meta.len meta.modified)) h)

  visit-IsDone :
      (read : Text ⊎ DirEntry) (w : Walk)
      → Readable read
      → Fits w (found_in is_utf8 read)
      → IsDone (visit is_utf8 read w)
  unfolding visit
  visit-IsDone (inl e) w r h = absurd r
  visit-IsDone (inr entry) w r h = metadata-IsDone entry.metadata entry w r h

  settled :
      (w : Walk) (f : Found is_utf8) (o : Scanned Walk)
      → Extends is_utf8 w f o
      → IsDone o
      → o ≡ done (extended is_utf8 w f)
  settled w f (done v) e h = ap done e
  settled w f (failed x) e h = absurd h
  settled w f unfinished e h = absurd h

  visit-extended :
      (read : Text ⊎ DirEntry) (w : Walk)
      → Readable read
      → Fits w (found_in is_utf8 read)
      → visit is_utf8 read w ≡ done (extended is_utf8 w (found_in is_utf8 read))
  visit-extended read w r h = settled w _ _ (visit-Extends is_utf8 read w) (visit-IsDone read w r h)

  visit_all-IsDone :
      (es : List (Text ⊎ DirEntry)) (w : Walk)
      → All Readable es
      → Fits w (found_in_all is_utf8 es)
      → IsDone (visit_all is_utf8 es w)
  unfolding visit_all
  visit_all-IsDone [] w r h = tt
  visit_all-IsDone (e ∷ es) w r h =
      let f = found_in is_utf8 e in
      let g = found_in_all is_utf8 es in
      let split : length (f.dirs ++ g.dirs) ≡ length f.dirs + length g.dirs =
        length-append f.dirs g.dirs in
      rw (visit-extended e w r.0 (omega (arith, h, split))) (
        visit_all-IsDone es (extended is_utf8 w f) r.1
          (omega (arith, h, split, length-append w.queue f.dirs)))

  -- A directory whose entries can be read adds what was found in it.
  pub visit_all-extended :
      (es : List (Text ⊎ DirEntry)) (w : Walk)
      → All Readable es
      → Fits w (found_in_all is_utf8 es)
      → visit_all is_utf8 es w ≡ done (extended is_utf8 w (found_in_all is_utf8 es))
  visit_all-extended es w r h =
      settled w _ _ (visit_all-Extends is_utf8 es w) (visit_all-IsDone es w r h)
