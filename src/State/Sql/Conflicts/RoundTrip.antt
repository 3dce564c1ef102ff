-- ===== src/State/Sql/Conflicts/RoundTrip.antt =====
-- A conflict read from the row that was written for it.
use onesync.Prelude.{◌≡◌, refl, ap, ◌∙◌, Option, none, some, arith}
use onesync.Prelude.Equality.{nat_eq, list_eq}
use onesync.Prelude.Text.{Text, codes}
use onesync.Protocol.Enums.{ConflictSide, ConflictResolution, auto, manual}
use onesync.Protocol.FileSide.{Timestamp}
use onesync.Protocol.Entities.{Conflict}
use onesync.State.Sql.{Columns, good, transposed}
use onesync.State.Sql.Tables.{ConflictRow, mapped}
use onesync.State.Sql.Conflicts.{
  conflict_side_to_str, conflict_side_from_str, conflict_resolution_to_str,
  conflict_resolution_from_str, conflict_row, conflict_row_of, row_to_conflict,
}
use onesync.State.Sql.Faithful.{
  IsFaithful, IsParsed, PlainIfSome, read_id-id_text, read_rel-as_str, parse_timestamp-to_rfc3339,
  transposed-to_rfc3339, read_json-side,
}

side_from-to : (s : ConflictSide) → conflict_side_from_str (conflict_side_to_str s) ≡ good s
unfolding conflict_side_from_str conflict_side_to_str
side_from-to ConflictSide.local = refl
side_from-to ConflictSide.remote = refl

resolution_from-to :
    (r : Option ConflictResolution)
    → transposed conflict_resolution_from_str (mapped conflict_resolution_to_str r) ≡ good r
unfolding conflict_resolution_from_str conflict_resolution_to_str
resolution_from-to none = refl
resolution_from-to (some auto) = refl
resolution_from-to (some manual) = refl

module _ (C : Columns) (Plain : Timestamp → Type 0) (F : IsFaithful C Plain) where
  -- A conflict whose paths were parsed and whose instants have four-digit years.
  pub record IsStorable (c : Conflict) : Type 0 where
    pub path : IsParsed C Plain F c.relative_path
    pub loser_path : IsParsed C Plain F c.loser_relative_path
    pub detected : Plain c.detected_at
    pub resolved : PlainIfSome C Plain F c.resolved_at

  -- The row that `insert` writes for the conflict.
  pub record Stands (c : Conflict) (r : ConflictRow) : Type 0 where
    pub storable : IsStorable c
    pub local : C.side_to_json c.local_side ≡ some r.local_side_json
    pub remote : C.side_to_json c.remote_side ≡ some r.remote_side_json
    pub row : r ≡ conflict_row C c r.local_side_json r.remote_side_json

  written_lem :
      (c : Conflict) (local remote : Text)
      → IsStorable c
      → C.side_to_json c.local_side ≡ some local
      → C.side_to_json c.remote_side ≡ some remote
      → row_to_conflict C (conflict_row C c local remote) ≡ good c
  unfolding row_to_conflict
  written_lem c local remote s l r =
      rw
        (
          read_id-id_text C Plain F (codes "cfl") c.id refl,
          read_id-id_text C Plain F (codes "pair") c.pair_id refl,
          read_rel-as_str C Plain F c.relative_path s.path,
          side_from-to c.winner,
          read_rel-as_str C Plain F c.loser_relative_path s.loser_path,
          read_json-side C Plain F c.local_side local l,
          read_json-side C Plain F c.remote_side remote r,
          parse_timestamp-to_rfc3339 C Plain F c.detected_at s.detected,
          transposed-to_rfc3339 C Plain F c.resolved_at s.resolved,
          resolution_from-to c.resolution,
        )
        refl

  pub row_to_conflict-Stands :
      (c : Conflict) (r : ConflictRow) → Stands c r → row_to_conflict C r ≡ good c
  row_to_conflict-Stands c r h =
      ap (row_to_conflict C) h.row
      ∙ written_lem c r.local_side_json r.remote_side_json h.storable h.local h.remote

  pub conflict_row_of-Stands :
      (c : Conflict) (r : ConflictRow) → IsStorable c → conflict_row_of C c ≡ some r → Stands c r
  unfolding conflict_row_of
  conflict_row_of-Stands c r s h = ground (arith, h)
