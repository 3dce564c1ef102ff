-- ===== src/Engine/CaseCollision.antt =====
-- crates/onesync-core/src/engine/case_collision.rs. `short_hash` stands for the first seven hex
-- digits of the BLAKE3 digest, `nfc` and `to_lowercase` for Unicode normalisation and case mapping.
use onesync.Prelude.{Bool, none, some, [], ◌∷◌, ◌++◌}
use onesync.Prelude.Tests.{if◌then◌else◌}
use onesync.Prelude.Equality.{◌==◌, nat_eq, list_eq}
use onesync.Prelude.Text.{Text, codes, split_last, is_empty}
use onesync.Protocol.Path.{RelPath, slash}
use onesync.Engine.Conflict.{dot}

-- The parent keeps its slash.
abbrev pub parent_and_basename : Text → Text × Text
parent_and_basename s = elim (split_last slash s) [
  | some (dir, base) ↦ (dir ++ (slash ∷ []), base)
  | none ↦ ([], s)
]

-- A dot in front, as in `.bashrc`, begins no extension.
abbrev pub stem_and_ext : Text → Text × Text
stem_and_ext basename = elim (split_last dot basename) [
  | some (stem, ext) ↦ if is_empty stem then (basename, []) else (stem, dot ∷ ext)
  | none ↦ (basename, [])
]

module _ (short_hash : Text → Text) where
  unfoldable pub case_collision_rename_target : RelPath → Text
  case_collision_rename_target original =
      let (parent, basename) = parent_and_basename original.as_str in
      let (stem, ext) = stem_and_ext basename in
      parent
      ++ (stem ++ (codes " (case-collision-" ++ (short_hash original.as_str ++ (codes ")" ++ ext))))

module _ (nfc to_lowercase : Text → Text) where
  unfoldable pub case_fold_key : Text → Text
  case_fold_key s = to_lowercase (nfc s)

  unfoldable pub case_folds_equal : RelPath → RelPath → Bool
  unfolding case_fold_key
  case_folds_equal a b = case_fold_key a.as_str == case_fold_key b.as_str
