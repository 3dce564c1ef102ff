-- ===== src/Protocol/FileSide.antt =====
-- crates/onesync-protocol/src/file_side.rs and the newtypes of primitives.rs and id.rs that it and
-- the entities hold. Identifiers and timestamps are only stored, compared and subtracted: an id is
-- the number of its ULID, a timestamp its nanoseconds since the earliest representable instant.
use onesync.Prelude.{ℕ, Bool, ◌&&◌, Option, List}
use onesync.Prelude.Equality.{◌==◌, nat_eq, list_eq, option_eq}
use onesync.Prelude.Text.{Text}
use onesync.Protocol.Enums.{FileKind, kind_eq}

abbrev pub Timestamp : Type 0
Timestamp = ℕ

abbrev pub ContentHash : Type 0
ContentHash = List ℕ

abbrev pub Etag : Type 0
Etag = Text

abbrev pub DriveItemId : Type 0
DriveItemId = Text

pub record FileSide : Type 0 where
  pub kind : FileKind
  pub size_bytes : ℕ
  pub content_hash : Option ContentHash
  pub mtime : Timestamp
  pub etag : Option Etag
  pub remote_item_id : Option DriveItemId

-- `FileSide::identifies_same_content_as`; its debug assertion is not compiled into a release.
unfoldable pub identifies_same_content_as : FileSide → FileSide → Bool
identifies_same_content_as a b =
    a.kind == b.kind && (a.size_bytes == b.size_bytes && a.content_hash == b.content_hash)
