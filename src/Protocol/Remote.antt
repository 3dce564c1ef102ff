-- ===== src/Protocol/Remote.antt =====
-- crates/onesync-protocol/src/remote.rs: a `driveItem` of a delta page.
use onesync.Prelude.{ℕ, Bool, Option, List}
use onesync.Prelude.Tests.{is_some}
use onesync.Prelude.Text.{Text}

pub record FileHashes : Type 0 where
  pub sha1_hash : Option Text
  pub quick_xor_hash : Option Text

pub record FileFacet : Type 0 where
  pub hashes : FileHashes

pub record FolderFacet : Type 0 where
  pub child_count : ℕ

pub data DeletedFacet : Type 0 where
  deleted_facet : DeletedFacet

pub record ParentReference : Type 0 where
  pub id : Option Text
  pub drive_id : Option Text
  pub path : Option Text

pub record RemoteItem : Type 0 where
  pub id : Text
  pub name : Text
  pub size : ℕ
  pub e_tag : Option Text
  pub c_tag : Option Text
  pub last_modified_date_time : Option Text
  pub folder : Option FolderFacet
  pub file : Option FileFacet
  pub deleted : Option DeletedFacet
  pub parent_reference : Option ParentReference

abbrev pub is_deleted : RemoteItem → Bool
is_deleted item = is_some item.deleted

abbrev pub is_folder : RemoteItem → Bool
is_folder item = is_some item.folder

abbrev pub DeltaCursor : Type 0
DeltaCursor = Text

pub record DeltaPage : Type 0 where
  pub items : List RemoteItem
  pub next_link : Option Text
  pub delta_token : Option DeltaCursor
