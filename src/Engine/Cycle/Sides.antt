-- ===== src/Engine/Cycle/Sides.antt =====
-- The pure helpers of cycle.rs: the path of a delta item, the path of a scanned file, the snapshot
-- of a remote item, the row of an observation, and the test for a diverged local file.
use onesync.Prelude.{ℕ, Bool, true, false, not, Option, none, some, [], ◌∷◌, ◌++◌}
use onesync.Prelude.Tests.{if◌then◌else◌}
use onesync.Prelude.Equality.{◌==◌, nat_eq, list_eq}
use onesync.Prelude.Text.{Text, split_first, trim_start, strip_prefix, is_empty}
use onesync.Protocol.Enums.{FileKind, file, directory, kind_beq, pending_download}
use onesync.Protocol.FileSide.{FileSide, Timestamp, ContentHash}
use onesync.Protocol.Path.{RelPath, AbsPath, parse_rel, parse_abs, ok, slash}
use onesync.Protocol.Remote.{RemoteItem, ParentReference, is_folder}
use onesync.Protocol.Entities.{RowId, FileEntry}

abbrev pub colon : ℕ
colon = b':'

-- "/drive/root:/Documents/Sub" becomes "Documents/Sub".
abbrev below_root : Text → Text
below_root path = elim (split_first colon path) [
  | some (before, after) ↦ trim_start slash after
  | none ↦ trim_start slash path
]

abbrev reference_dir : Option ParentReference → Text
reference_dir none = []
reference_dir (some parent) = elim parent.path [ some path ↦ below_root path | none ↦ [] ]

abbrev pub full_path : RemoteItem → Text
full_path item =
    let dir = reference_dir item.parent_reference in
    if is_empty dir then item.name else dir ++ (slash ∷ item.name)

unfoldable pub build_rel_path_from_item : (Text → Text) → RemoteItem → Option RelPath
build_rel_path_from_item nfc item = ok (parse_rel nfc (full_path item))

abbrev pub item_kind : RemoteItem → FileKind
item_kind item = if is_folder item then directory else file

unfoldable pub remote_side_from_item : RemoteItem → Timestamp → FileSide
remote_side_from_item item now = record {
  kind = item_kind item;
  size_bytes = item.size;
  content_hash = none;
  mtime = now;
  etag = item.e_tag;
  remote_item_id = some item.id;
}

-- `epoch` is 1970-01-01 on the scale of timestamps.
unfoldable pub synthetic_remote_side : Timestamp → FileSide
synthetic_remote_side epoch = record {
  kind = file;
  size_bytes = 0;
  content_hash = none;
  mtime = epoch;
  etag = none;
  remote_item_id = none;
}

abbrev relative : Option Text → (Text → Text) → Option RelPath
relative none nfc = none
relative (some rest) nfc =
    let rel = trim_start slash rest in if is_empty rel then none else ok (parse_rel nfc rel)

-- `none` also for a scanned path that is not UTF-8.
unfoldable pub rel_from_abs : (Text → Text) → AbsPath → Option Text → Option RelPath
rel_from_abs nfc root none = none
rel_from_abs nfc root (some abs) = relative (strip_prefix root.as_str abs) nfc

unfoldable pub join_abs : AbsPath → RelPath → Option AbsPath
join_abs root rel = ok (parse_abs (root.as_str ++ (slash ∷ rel.as_str)))

abbrev hashes_differ : Option ContentHash → Option ContentHash → Bool
hashes_differ (some a) (some b) = not (a == b)
hashes_differ _ _ = true

unfoldable pub local_diverges_from_synced : FileSide → Option FileSide → Bool
local_diverges_from_synced side none = true
local_diverges_from_synced side (some synced) =
    if not (kind_beq side.kind synced.kind)
    then true
    else if kind_beq side.kind directory
    then false
    else if not (side.size_bytes == synced.size_bytes)
    then true
    else if side.size_bytes == 0
    then false
    else hashes_differ side.content_hash synced.content_hash

unfoldable pub build_remote_observation :
    RowId
    → RelPath
    → Option FileEntry
    → Option RemoteItem
    → Option FileSide
    → Timestamp
    → Option FileEntry
build_remote_observation pair_id rel_path (some existing) item new_remote now =
    some (record existing { remote = new_remote; updated_at = now })
build_remote_observation pair_id rel_path none none new_remote now = none
build_remote_observation pair_id rel_path none (some item) new_remote now = some (record {
  pair_id = pair_id;
  relative_path = rel_path;
  kind = item_kind item;
  sync_state = pending_download;
  local = none;
  remote = new_remote;
  synced = none;
  pending_op_id = none;
  updated_at = now;
})
