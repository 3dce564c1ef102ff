-- ===== src/Engine/Reconcile/Safety.antt =====
-- What a decision of reconcile.rs says about the two sides, against descriptions of "unchanged" and
-- "equal" that do not mention the tests the code makes.
use onesync.Prelude.{◌↔◌, ◌≡◌, ◌⊎◌, Bool, true, false, Option, none, some, arith}
use onesync.Prelude.Equality.{list_beq_iff, option_beq_iff, list_eq, nat_eq, option_eq}
use onesync.Prelude.Text.{Text}
use onesync.Protocol.Enums.{directory, file, kind_beq_iff}
use onesync.Protocol.FileSide.{FileSide, identifies_same_content_as}
use onesync.Protocol.Remote.{RemoteItem, is_folder}
use onesync.Protocol.Entities.{FileEntry}
use onesync.Engine.Types.{
  DecisionKind, upload, download, local_mkdir, remote_mkdir, no_op, conflict_detected,
}
use onesync.Engine.Reconcile.{
  bool_beq, differs_by_etag, differs_by_size, etags_agree, is_directory, is_action_blocking,
  local_equals_remote, remote_differs_from_synced, local_differs_from_synced,
}

-- The local side is what was last synced: kind, size and content hash.
abbrev pub LocalUnchanged : Option FileSide → Option FileSide → Type 0
LocalUnchanged none none = Unit
LocalUnchanged none (some s) = ⊥
LocalUnchanged (some l) none = ⊥
LocalUnchanged (some l) (some s) =
    (l.kind ≡ s.kind) × (l.size_bytes ≡ s.size_bytes) × (l.content_hash ≡ s.content_hash)

-- Two texts that are both there and the same.
abbrev pub SameTag : Option Text → Option Text → Type 0
SameTag (some a) (some b) = a ≡ b
SameTag _ _ = ⊥

-- One of two texts is not there.
abbrev pub NoTagPair : Option Text → Option Text → Type 0
NoTagPair (some a) (some b) = ⊥
NoTagPair _ _ = Unit

-- The remote item is what was last synced: the kind agrees, and so do the etags, or in want of a
-- pair of etags both are empty.
abbrev pub RemoteUnchanged : RemoteItem → Option FileSide → Type 0
RemoteUnchanged item none = ⊥
RemoteUnchanged item (some s) =
    (is_directory s.kind ≡ is_folder item)
    × (SameTag s.etag item.e_tag
        ⊎ (NoTagPair s.etag item.e_tag × (s.size_bytes ≡ 0) × (item.size ≡ 0)))

-- The local side and the remote item hold the same: two directories, two empty files, or two files
-- of one size and one etag.
abbrev pub SameContent : Option FileSide → RemoteItem → Type 0
SameContent none item = ⊥
SameContent (some l) item =
    (is_directory l.kind ≡ is_folder item)
    × ((is_directory l.kind ≡ true)
        ⊎ ((l.size_bytes ≡ item.size) × ((l.size_bytes ≡ 0) ⊎ SameTag l.etag item.e_tag)))

bool_beq_iff : (a b : Bool) → (bool_beq a b ≡ true) ↔ (a ≡ b)
bool_beq_iff true b = ground arith
bool_beq_iff false true = ground arith
bool_beq_iff false false = ground arith

differs_by_etag_iff :
    (a b : Option Text) (rest : Bool)
    → (differs_by_etag a b rest ≡ false) ↔ (SameTag a b ⊎ (NoTagPair a b × (rest ≡ false)))
differs_by_etag_iff none b rest = ground arith
differs_by_etag_iff (some a) none rest = ground arith
differs_by_etag_iff (some a) (some b) rest = ground (arith, list_beq_iff a b)

etags_agree_iff : (a b : Option Text) → (etags_agree a b ≡ true) ↔ SameTag a b
etags_agree_iff none b = ground arith
etags_agree_iff (some a) none = ground arith
etags_agree_iff (some a) (some b) = list_beq_iff a b

pub local_differs_iff :
    (l s : Option FileSide) → (local_differs_from_synced l s ≡ false) ↔ LocalUnchanged l s
unfolding local_differs_from_synced identifies_same_content_as
local_differs_iff none none = ground arith
local_differs_iff none (some s) = ground arith
local_differs_iff (some l) none = ground arith
local_differs_iff (some l) (some s) =
    ground (arith, kind_beq_iff l.kind s.kind, option_beq_iff l.content_hash s.content_hash)

pub remote_differs_iff :
    (item : RemoteItem) (s : Option FileSide)
    → (remote_differs_from_synced item s ≡ false) ↔ RemoteUnchanged item s
unfolding remote_differs_from_synced
remote_differs_iff item none = ground arith
remote_differs_iff item (some s) = ground (
  arith,
  bool_beq_iff (is_directory s.kind) (is_folder item),
  differs_by_etag_iff s.etag item.e_tag (differs_by_size s item),
)

pub local_equals_remote_iff :
    (l : FileSide) (item : RemoteItem)
    → (local_equals_remote l item ≡ true) ↔ SameContent (some l) item
unfolding local_equals_remote
local_equals_remote_iff l item =
    ground (
      arith,
      bool_beq_iff (is_directory l.kind) (is_folder item),
      etags_agree_iff l.etag item.e_tag,
    )

-- What must hold of the two sides for a decision to be right.
abbrev pub Justified : FileEntry → RemoteItem → DecisionKind → Type 0
Justified e item no_op =
    (is_action_blocking e.sync_state ≡ true)
    ⊎ ((LocalUnchanged e.local e.synced × RemoteUnchanged item e.synced) ⊎ SameContent e.local item)
Justified e item download =
    LocalUnchanged e.local e.synced × (¬ RemoteUnchanged item e.synced) × (is_folder item ≡ false)
Justified e item local_mkdir =
    LocalUnchanged e.local e.synced × (¬ RemoteUnchanged item e.synced) × (is_folder item ≡ true)
Justified e item upload =
    RemoteUnchanged item e.synced × (¬ LocalUnchanged e.local e.synced) × (e.kind ≡ file)
Justified e item remote_mkdir =
    RemoteUnchanged item e.synced × (¬ LocalUnchanged e.local e.synced) × (e.kind ≡ directory)
Justified e item conflict_detected =
    (¬ LocalUnchanged e.local e.synced)
    × (¬ RemoteUnchanged item e.synced)
    × (¬ SameContent e.local item)
Justified _ _ _ = ⊥
