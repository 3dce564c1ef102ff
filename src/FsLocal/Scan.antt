-- ===== src/FsLocal/Scan.antt =====
-- crates/onesync-fs-local/src/scan.rs. The disk is a function from a directory to what reading it
-- yields, the same during one scan; names and paths are bytes, and the standard library's reading of
-- a name as UTF-8 is a parameter. The loop takes fuel, one unit for each directory taken from the queue.
pub mod Visits
pub mod Reads
pub mod Complete
use onesync.Prelude.{
  ℕ, zero, suc, ◌+◌, Bool, true, false, Option, none, some, List, [], ◌∷◌, ◌++◌, ◌⊎◌, inl, inr,
}
use onesync.Prelude.Tests.{if◌then◌else◌, leb, is_some}
use onesync.Prelude.Equality.{◌==◌, nat_eq, list_eq}
use onesync.Prelude.Lists.{length, any}
use onesync.Prelude.Text.{Text, codes, strip_prefix}
use onesync.Protocol.Enums.{FileKind, file, directory}
use onesync.Protocol.FileSide.{Timestamp}

pub data FileType : Type 0 where
  symlink_type dir_type file_type other_type : FileType

-- What `entry.metadata()` gives, which does not follow links; `modified` may fail.
pub record Metadata : Type 0 where
  pub file_type : FileType
  pub len : ℕ
  pub modified : Text ⊎ Timestamp

pub record DirEntry : Type 0 where
  pub path : Text
  pub file_name : Text
  pub metadata : Text ⊎ Metadata

pub data LocalFsAdapterError : Type 0 where
  io : Text → LocalFsAdapterError
  scan_queue_overflow : Text → LocalFsAdapterError

pub record LocalFileMeta : Type 0 where
  pub path : Text
  pub kind : FileKind
  pub size_bytes : ℕ
  pub mtime : Timestamp

pub data SkipReason : Type 0 where
  symlink resource_fork deny_listed non_utf8 : SkipReason

abbrev scan_queue_depth_max : ℕ
scan_queue_depth_max = 65536

abbrev skip_names : List Text
skip_names = codes ".DS_Store" ∷ ((codes "Icon" ++ (13 ∷ [])) ∷ (codes ".localized" ∷ []))

-- The three collections of the scan.
pub record Walk : Type 0 where
  pub queue : List Text
  pub out : List LocalFileMeta
  pub symlinks : List Text

pub data Scanned (A : Type 0) : Type 0 where
  done : A → Scanned A
  failed : LocalFsAdapterError → Scanned A
  unfinished : Scanned A

abbrev pub then_walk : {A B : Type 0} → Scanned A → (A → Scanned B) → Scanned B
then_walk (done a) f = f a
then_walk (failed e) f = failed e
then_walk unfinished f = unfinished

abbrev pub or_io : {A B : Type 0} → Text ⊎ A → (A → Scanned B) → Scanned B
or_io (inl e) f = failed (io e)
or_io (inr a) f = f a

module _ (is_utf8 : Text → Bool) where
  abbrev pub skip_name : Text → Option SkipReason
  skip_name name =
      if is_utf8 name
      then if is_some (strip_prefix (codes "._") name)
        then some resource_fork
        else if any (λ s. s == name) skip_names
        then some deny_listed
        else none
      else some non_utf8

  abbrev pub skip_type : FileType → Text → Option SkipReason
  skip_type symlink_type name = some symlink
  skip_type dir_type name = skip_name name
  skip_type file_type name = skip_name name
  skip_type other_type name = skip_name name

  unfoldable pub classify_skip : Text → Metadata → Option SkipReason
  classify_skip name meta = skip_type meta.file_type name

  abbrev pub skipped : SkipReason → DirEntry → Walk → Walk
  skipped symlink entry w = record w { symlinks = w.symlinks ++ (entry.path ∷ []) }
  skipped resource_fork entry w = w
  skipped deny_listed entry w = w
  skipped non_utf8 entry w = w

  abbrev pub meta_of : DirEntry → FileKind → ℕ → Timestamp → LocalFileMeta
  meta_of entry kind size mtime = record {
    path = entry.path;
    kind = kind;
    size_bytes = size;
    mtime = mtime;
  }

  -- An entry that is not skipped.
  abbrev pub taken : FileType → DirEntry → ℕ → Timestamp → Walk → Scanned Walk
  taken dir_type entry len mtime w =
      if leb scan_queue_depth_max (length w.queue)
      then failed (scan_queue_overflow entry.path)
      else done (record w {
        queue = w.queue ++ (entry.path ∷ []);
        out = w.out ++ (meta_of entry directory 0 mtime ∷ []);
      })
  taken file_type entry len mtime w =
      done (record w { out = w.out ++ (meta_of entry file len mtime ∷ []) })
  taken symlink_type entry len mtime w = done w
  taken other_type entry len mtime w = done w

  abbrev pub classified : Option SkipReason → DirEntry → Metadata → Walk → Scanned Walk
  classified (some reason) entry meta w = done (skipped reason entry w)
  classified none entry meta w =
      or_io meta.modified (λ mtime. taken meta.file_type entry meta.len mtime w)

  -- One entry of a directory.
  unfoldable pub visit : Text ⊎ DirEntry → Walk → Scanned Walk
  visit read w = or_io read (λ entry.
      or_io entry.metadata (λ meta. classified (classify_skip entry.file_name meta) entry meta w))

  unfoldable pub visit_all : List (Text ⊎ DirEntry) → Walk → Scanned Walk
  visit_all [] w = done w
  visit_all (e ∷ es) w = then_walk (visit e w) (visit_all es)

  module _ (read_dir : Text → Text ⊎ List (Text ⊎ DirEntry)) where
    abbrev pub scan_dirs : ℕ → List Text → Walk → Scanned (List LocalFileMeta × List Text)
    scan_dirs fuel [] w = done (w.out, w.symlinks)
    scan_dirs zero (dir ∷ queue) w = unfinished
    scan_dirs (suc fuel) (dir ∷ queue) w = or_io (read_dir dir) (λ entries.
        then_walk (visit_all entries (record w { queue = queue })) (λ v. scan_dirs fuel v.queue v))

    -- `scan_with_skips`.
    unfoldable pub scan_with_skips : ℕ → Text → Scanned (List LocalFileMeta × List Text)
    scan_with_skips fuel root =
        scan_dirs fuel (root ∷ []) (record { queue = []; out = []; symlinks = [] })

    abbrev entries_of : List LocalFileMeta × List Text → Scanned (List LocalFileMeta)
    entries_of r = done r.0

    -- `scan`.
    unfoldable pub scan : ℕ → Text → Scanned (List LocalFileMeta)
    scan fuel root = then_walk (scan_with_skips fuel root) entries_of
