-- ===== src/State/Sql/Conflicts.antt =====
-- crates/onesync-state/src/queries/conflicts.rs.
pub mod RoundTrip
pub mod Memory
use onesync.Prelude.{Bool, ◌&&◌, not, Option, none, some, List, [], ◌∷◌, ◌++◌}
use onesync.Prelude.Tests.{if◌then◌else◌, is_some}
use onesync.Prelude.Equality.{◌==◌, nat_eq, list_eq}
use onesync.Prelude.Lists.{any, find, keep}
use onesync.Prelude.Sorting.{sort_by, text_leb}
use onesync.Prelude.Text.{Text, codes}
use onesync.Prelude.Outcome.{Outcome, ok, err, Action}
use onesync.Protocol.Enums.{ConflictSide, ConflictResolution, auto, manual}
use onesync.Protocol.FileSide.{Timestamp}
use onesync.Protocol.Entities.{RowId, Conflict}
use onesync.Engine.Ports.{StateError}
use onesync.State.Sql.{
  Columns, SqlCause, unique_failed, foreign_key_failed, encode_failed, Decoded, good, bad,
  invalid_column_type, ◌>>=◌, transposed, collect, id_text, read_id, read_rel, parse_timestamp,
  read_json,
}
use onesync.State.Sql.Tables.{
  Database, ConflictRow, mapped, coalesce, has_pair, update_where, sqlite, answer,
}

unfoldable pub conflict_side_to_str : ConflictSide → Text
conflict_side_to_str ConflictSide.local = codes "local"
conflict_side_to_str ConflictSide.remote = codes "remote"

unfoldable pub conflict_side_from_str : Text → Decoded ConflictSide
conflict_side_from_str s =
    if s == codes "local"
    then good ConflictSide.local
    else if s == codes "remote"
    then good ConflictSide.remote
    else bad (invalid_column_type 3 s)

unfoldable pub conflict_resolution_to_str : ConflictResolution → Text
conflict_resolution_to_str auto = codes "auto"
conflict_resolution_to_str manual = codes "manual"

unfoldable pub conflict_resolution_from_str : Text → Decoded ConflictResolution
conflict_resolution_from_str s =
    if s == codes "auto"
    then good auto
    else if s == codes "manual"
    then good manual
    else bad (invalid_column_type 9 s)

module _ (C : Columns) where
  abbrev pub conflict_row : Conflict → Text → Text → ConflictRow
  conflict_row c local remote = record {
    id = id_text C (codes "cfl") c.id;
    pair_id = id_text C (codes "pair") c.pair_id;
    relative_path = c.relative_path.as_str;
    winner = conflict_side_to_str c.winner;
    loser_relative_path = c.loser_relative_path.as_str;
    local_side_json = local;
    remote_side_json = remote;
    detected_at = C.to_rfc3339 c.detected_at;
    resolved_at = mapped C.to_rfc3339 c.resolved_at;
    resolution = mapped conflict_resolution_to_str c.resolution;
    note = c.note;
  }

  -- The values of the `INSERT`; `none` is a side that `encode_side` refuses.
  unfoldable pub conflict_row_of : Conflict → Option ConflictRow
  conflict_row_of c = elim (C.side_to_json c.local_side) [
    | none ↦ none
    | some local ↦ mapped (conflict_row c local) (C.side_to_json c.remote_side)
  ]

  abbrev pub has_conflict : Text → List ConflictRow → Bool
  has_conflict id = any (λ (r : ConflictRow). r.id == id)

  abbrev pub inserted : Option ConflictRow → Action StateError Database (Unit {0})
  inserted none db = err (sqlite C encode_failed) db
  inserted (some row) db =
      if has_conflict row.id db.conflicts
      then err (sqlite C unique_failed) db
      else if has_pair row.pair_id db
      then ok tt (record db { conflicts = db.conflicts ++ (row ∷ []) })
      else err (sqlite C foreign_key_failed) db

  unfoldable pub insert : Conflict → Action StateError Database (Unit {0})
  insert c = inserted (conflict_row_of c)

  abbrev pub resolved_row : Text → Text → Option Text → ConflictRow → ConflictRow
  resolved_row resolution resolved_at note row = record row {
    resolved_at = some resolved_at;
    resolution = some resolution;
    note = coalesce note row.note;
  }

  unfoldable pub resolve :
      RowId → ConflictResolution → Timestamp → Option Text → Action StateError Database (Unit {0})
  resolve id resolution resolved_at note db = ok tt (record db {
    conflicts =
        update_where (λ (r : ConflictRow). r.id == id_text C (codes "cfl") id)
          (resolved_row (conflict_resolution_to_str resolution) (C.to_rfc3339 resolved_at) note)
          db.conflicts;
  })

  unfoldable pub row_to_conflict : ConflictRow → Decoded Conflict
  row_to_conflict row = read_id C (codes "cfl") row.id >>= λ id.
      read_id C (codes "pair") row.pair_id >>= λ pair_id. read_rel C row.relative_path >>= λ path.
      conflict_side_from_str row.winner >>= λ winner.
      read_rel C row.loser_relative_path >>= λ loser_path.
      read_json C C.side_from_json row.local_side_json >>= λ local_side.
      read_json C C.side_from_json row.remote_side_json >>= λ remote_side.
      parse_timestamp C row.detected_at >>= λ detected_at.
      transposed (parse_timestamp C) row.resolved_at >>= λ resolved_at.
      transposed conflict_resolution_from_str row.resolution >>= λ resolution. good (record {
        id = id;
        pair_id = pair_id;
        relative_path = path;
        winner = winner;
        loser_relative_path = loser_path;
        local_side = local_side;
        remote_side = remote_side;
        detected_at = detected_at;
        resolved_at = resolved_at;
        resolution = resolution;
        note = row.note;
      })

  -- `query_row(…).optional()`.
  unfoldable pub get : RowId → Action StateError Database (Option Conflict)
  get id db =
      answer C
        (transposed row_to_conflict
          (find (λ (r : ConflictRow). r.id == id_text C (codes "cfl") id) db.conflicts))
        db

  abbrev pub is_open : Text → ConflictRow → Bool
  is_open pair row = row.pair_id == pair && not (is_some row.resolved_at)

  -- Rows with the same text in `detected_at` keep the order of the table.
  unfoldable pub unresolved : RowId → Action StateError Database (List Conflict)
  unresolved pair db =
      answer C
        (collect row_to_conflict (
          sort_by (λ (a b : ConflictRow). text_leb a.detected_at b.detected_at)
            (keep (is_open (id_text C (codes "pair") pair)) db.conflicts)))
        db
