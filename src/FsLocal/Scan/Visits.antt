-- ===== src/FsLocal/Scan/Visits.antt =====
-- The scan against a description of its visits: which directories it takes from the queue, in which
-- order, and what each contributes.
use onesync.Prelude.{
  ℕ, ◌≡◌, refl, ap, ◌∙◌, Bool, true, false, not, ◌||◌, Option, none, some, List, [], ◌∷◌, ◌++◌, ◌⊎◌,
  inl, inr, arith,
}
use mathlib.Core.Path.{subst}
use mathlib.Core.List.{append-nil, append_assoc}
use onesync.Prelude.Tests.{if◌then◌else◌, leb, Bool-cases, is_some}
use onesync.Prelude.Equality.{◌==◌, nat_eq, list_eq}
use onesync.Prelude.Lists.{length}
use onesync.Prelude.Sorting.{take}
use onesync.Prelude.Text.{Text, codes, strip_prefix}
use onesync.Protocol.Enums.{file, directory}
use onesync.Protocol.FileSide.{Timestamp}
use onesync.FsLocal.Scan.{
  FileType, symlink_type, dir_type, file_type, other_type, Metadata, DirEntry, LocalFileMeta,
  SkipReason, symlink, resource_fork, deny_listed, non_utf8, Walk, Scanned, done, failed,
  unfinished, then_walk, or_io, classify_skip, skip_name, skip_type, skipped, taken, classified,
  visit, visit_all,
}

module _ (is_utf8 : Text → Bool) where
  -- What an entry that could be read adds: listed entries, directories to visit, links skipped.
  pub record Found : Type 0 where
    pub listed : List LocalFileMeta
    pub dirs : List Text
    pub links : List Text

  abbrev pub nothing : Found
  nothing = record { listed = []; dirs = []; links = [] }

  abbrev pub of_type : FileType → DirEntry → ℕ → Timestamp → Found
  of_type dir_type entry len mtime = record {
    listed = record { path = entry.path; kind = directory; size_bytes = 0; mtime = mtime } ∷ [];
    dirs = entry.path ∷ [];
    links = [];
  }
  of_type file_type entry len mtime = record {
    listed = record { path = entry.path; kind = file; size_bytes = len; mtime = mtime } ∷ [];
    dirs = [];
    links = [];
  }
  of_type symlink_type entry len mtime = nothing
  of_type other_type entry len mtime = nothing

  -- A name that a scan leaves out: no UTF-8, the side file of a resource fork, or one of three.
  abbrev pub left_out : Text → Bool
  left_out name =
      not (is_utf8 name)
      || (take 2 name == codes "._"
          || (codes ".DS_Store" == name
              || (codes "Icon" ++ (13 ∷ []) == name || codes ".localized" == name)))

  abbrev named : Bool → Found → Found
  named true f = nothing
  named false f = f

  abbrev pub of_meta : DirEntry → FileType → ℕ → Text ⊎ Timestamp → Found
  of_meta entry symlink_type len modified = record {
    listed = [];
    dirs = [];
    links = entry.path ∷ [];
  }
  of_meta entry t len (inl e) = nothing
  of_meta entry t len (inr mtime) = named (left_out entry.file_name) (of_type t entry len mtime)

  -- A link is reported whatever its name, and a file or a directory is listed unless its name is left
  -- out; other kinds are not.
  abbrev pub found_in : Text ⊎ DirEntry → Found
  found_in (inl e) = nothing
  found_in (inr entry) = elim entry.metadata [
    | inl e ↦ nothing
    | inr meta ↦ of_meta entry meta.file_type meta.len meta.modified
  ]

  abbrev pub both : Found → Found → Found
  both f g = record {
    listed = f.listed ++ g.listed;
    dirs = f.dirs ++ g.dirs;
    links = f.links ++ g.links;
  }

  abbrev pub found_in_all : List (Text ⊎ DirEntry) → Found
  found_in_all [] = nothing
  found_in_all (e ∷ es) = both (found_in e) (found_in_all es)

  abbrev pub extended : Walk → Found → Walk
  extended w f = record {
    queue = w.queue ++ f.dirs;
    out = w.out ++ f.listed;
    symlinks = w.symlinks ++ f.links;
  }

  -- A walk that goes on is the walk extended by what was found.
  abbrev pub Extends : Walk → Found → Scanned Walk → Type 0
  Extends w f (done v) = v ≡ extended w f
  Extends w f (failed e) = Unit
  Extends w f unfinished = ⊥

  extended-nothing : (w : Walk) → w ≡ extended w nothing
  extended-nothing w = ground (arith, append-nil w.queue, append-nil w.out, append-nil w.symlinks)

  extended-both : (w : Walk) (f g : Found) → extended (extended w f) g ≡ extended w (both f g)
  extended-both w f g =
      rw
        (
          append_assoc w.queue f.dirs g.dirs,
          append_assoc w.out f.listed g.listed,
          append_assoc w.symlinks f.links g.links,
        )
        refl

  taken-Extends :
      (t : FileType) (entry : DirEntry) (len : ℕ) (mtime : Timestamp) (w : Walk)
      → Extends w (of_type t entry len mtime) (taken is_utf8 t entry len mtime w)
  taken-Extends symlink_type entry len mtime w = extended-nothing w
  taken-Extends other_type entry len mtime w = extended-nothing w
  taken-Extends file_type entry len mtime w =
      ground (arith, append-nil w.queue, append-nil w.symlinks)
  taken-Extends dir_type entry len mtime w = elim (Bool-cases (leb 65536 (length w.queue))) [
    | inl full ↦ rw full tt
    | inr room ↦ rw room (ground (arith, append-nil w.symlinks))
  ]

  abbrev of_skip : SkipReason → DirEntry → Found
  of_skip symlink entry = record { listed = []; dirs = []; links = entry.path ∷ [] }
  of_skip resource_fork entry = nothing
  of_skip deny_listed entry = nothing
  of_skip non_utf8 entry = nothing

  abbrev pub or_skipped : Option SkipReason → DirEntry → Found → Found
  or_skipped none entry f = f
  or_skipped (some reason) entry f = of_skip reason entry

  skipped-Extends :
      (reason : SkipReason) (entry : DirEntry) (w : Walk)
      → skipped is_utf8 reason entry w ≡ extended w (of_skip reason entry)
  skipped-Extends symlink entry w = ground (arith, append-nil w.queue, append-nil w.out)
  skipped-Extends resource_fork entry w = extended-nothing w
  skipped-Extends deny_listed entry w = extended-nothing w
  skipped-Extends non_utf8 entry w = extended-nothing w

  abbrev pub timed : FileType → DirEntry → ℕ → Text ⊎ Timestamp → Found
  timed t entry len (inl e) = nothing
  timed t entry len (inr mtime) = of_type t entry len mtime

  classified-Extends :
      (reason : Option SkipReason) (entry : DirEntry) (meta : Metadata) (w : Walk)
      → Extends w
          (or_skipped reason entry (timed meta.file_type entry meta.len meta.modified))
          (classified is_utf8 reason entry meta w)
  classified-Extends (some reason) entry meta w = skipped-Extends reason entry w
  classified-Extends none entry meta w = of_time meta.modified
    where
      of_time :
          (modified : Text ⊎ Timestamp)
          → Extends w
              (timed meta.file_type entry meta.len modified)
              (or_io modified (λ mtime. taken is_utf8 meta.file_type entry meta.len mtime w))
      of_time (inl e) = tt
      of_time (inr mtime) = taken-Extends meta.file_type entry meta.len mtime w

  prefix_lem :
      (name : Text) → is_some (strip_prefix (codes "._") name) ≡ (take 2 name == codes "._")
  prefix_lem [] = refl
  prefix_lem (a ∷ []) = ground arith
  prefix_lem (a ∷ (b ∷ name)) = ground arith

  tests_lem :
      (utf8 fork a b c : Bool) (entry : DirEntry) (f : Found)
      → or_skipped
          (if utf8
            then if fork
              then some resource_fork
              else if a || (b || (c || false))
              then some deny_listed
              else none
            else some non_utf8)
          entry
          f
        ≡ named (not utf8 || (fork || (a || (b || c)))) f
  tests_lem false fork a b c entry f = refl
  tests_lem true true a b c entry f = refl
  tests_lem true false true b c entry f = refl
  tests_lem true false false true c entry f = refl
  tests_lem true false false false true entry f = refl
  tests_lem true false false false false entry f = refl

  -- The tests of `classify_skip` on a name, against the description.
  name_lem :
      (entry : DirEntry) (f : Found)
      → or_skipped (skip_name is_utf8 entry.file_name) entry f ≡ named (left_out entry.file_name) f
  name_lem entry f =
      let name = entry.file_name in
      rw (prefix_lem name) (
        tests_lem (is_utf8 name) (take 2 name == codes "._") (codes ".DS_Store" == name)
          (codes "Icon" ++ (13 ∷ []) == name) (codes ".localized" == name) entry f)

  named-nothing : (b : Bool) → named b nothing ≡ nothing
  named-nothing true = refl
  named-nothing false = refl

  pub timed_lem :
      (t : FileType) (entry : DirEntry) (len : ℕ) (modified : Text ⊎ Timestamp)
      → or_skipped (skip_type is_utf8 t entry.file_name) entry (timed t entry len modified)
        ≡ of_meta entry t len modified
  timed_lem symlink_type entry len modified = refl
  timed_lem dir_type entry len (inl e) =
      name_lem entry nothing ∙ named-nothing (left_out entry.file_name)
  timed_lem dir_type entry len (inr mtime) = name_lem entry _
  timed_lem file_type entry len (inl e) =
      name_lem entry nothing ∙ named-nothing (left_out entry.file_name)
  timed_lem file_type entry len (inr mtime) = name_lem entry _
  timed_lem other_type entry len (inl e) =
      name_lem entry nothing ∙ named-nothing (left_out entry.file_name)
  timed_lem other_type entry len (inr mtime) = name_lem entry _

  metadata-Extends :
      (entry : DirEntry) (meta : Metadata) (w : Walk)
      → Extends w
          (of_meta entry meta.file_type meta.len meta.modified)
          (classified is_utf8 (classify_skip is_utf8 entry.file_name meta) entry meta w)
  unfolding classify_skip
  metadata-Extends entry meta w =
      subst
        (λ f.
          Extends w f
            (classified is_utf8 (classify_skip is_utf8 entry.file_name meta) entry meta w))
        (timed_lem meta.file_type entry meta.len meta.modified)
        (classified-Extends (classify_skip is_utf8 entry.file_name meta) entry meta w)

  pub visit-Extends :
      (read : Text ⊎ DirEntry) (w : Walk) → Extends w (found_in read) (visit is_utf8 read w)
  unfolding visit
  visit-Extends (inl e) w = tt
  visit-Extends (inr entry) w = with_metadata entry.metadata
    where
      with_metadata :
          (metadata : Text ⊎ Metadata)
          → Extends w
              (elim metadata [
                | inl e ↦ nothing
                | inr meta ↦ of_meta entry meta.file_type meta.len meta.modified
              ])
              (or_io metadata (λ meta.
                classified is_utf8 (classify_skip is_utf8 entry.file_name meta) entry meta w))
      with_metadata (inl e) = tt
      with_metadata (inr meta) = metadata-Extends entry meta w

  then-Extends :
      (w : Walk) (f g : Found) (o : Scanned Walk) (k : Walk → Scanned Walk)
      → Extends w f o
      → ((v : Walk) → Extends v g (k v))
      → Extends w (both f g) (then_walk o k)
  then-Extends w f g (done v) k h next = again (k v) (next v)
    where
      again : (o : Scanned Walk) → Extends v g o → Extends w (both f g) o
      again (done u) e = e ∙ ap (λ (t : Walk). extended t g) h ∙ extended-both w f g
      again (failed e) u = tt
      again unfinished u = u
  then-Extends w f g (failed e) k h next = tt
  then-Extends w f g unfinished k h next = h

  pub visit_all-Extends :
      (es : List (Text ⊎ DirEntry)) (w : Walk)
      → Extends w (found_in_all es) (visit_all is_utf8 es w)
  unfolding visit_all
  visit_all-Extends [] w = extended-nothing w
  visit_all-Extends (e ∷ es) w =
      then-Extends w (found_in e) (found_in_all es) (visit is_utf8 e w) (visit_all is_utf8 es)
        (visit-Extends e w) (visit_all-Extends es)
