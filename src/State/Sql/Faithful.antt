-- ===== src/State/Sql/Faithful.antt =====
-- What the columns rely on of the printers and parsers, and that a value read from the text that was
-- written for it is that value.
use onesync.Prelude.{◌≡◌, refl, ap, false, Option, none, some, inr, arith}
use onesync.Prelude.Tests.{leb}
use onesync.Prelude.Equality.{◌==◌, nat_eq, list_eq, beq_refl, list_beq_iff}
use onesync.Prelude.Sorting.{text_leb}
use onesync.Prelude.Text.{Text, has}
use onesync.Protocol.FileSide.{FileSide, Timestamp}
use onesync.Protocol.Path.{RelPath, valid, parse_rel}
use onesync.Protocol.Entities.{RowId, ErrorEnvelope, JsonMap}
use onesync.Protocol.Id.{underscore}
use onesync.Protocol.Id.RoundTrip.{id_from_str-id_to_string}
use onesync.State.Sql.{
  Columns, good, transposed, id_text, read_id, read_rel, parse_timestamp, read_json,
}
use onesync.State.Sql.Tables.{mapped}

-- A parser gives back what its printer wrote; RFC 3339 texts of instants within four-digit years, which
-- `Plain` stands for, are ordered as the instants are.
pub record IsFaithful (C : Columns) (Plain : Timestamp → Type 0) : Type 0 where
  pub ulid : (id : RowId) → C.parse_ulid (C.ulid id) ≡ inr id
  pub timestamp : (t : Timestamp) → Plain t → C.parse_rfc3339 (C.to_rfc3339 t) ≡ some t
  pub later :
      (s t : Timestamp) → Plain s → Plain t → text_leb (C.to_rfc3339 s) (C.to_rfc3339 t) ≡ leb s t
  pub side : (x : FileSide) (t : Text) → C.side_to_json x ≡ some t → C.side_from_json t ≡ some x
  pub error :
      (x : ErrorEnvelope) (t : Text) → C.error_to_json x ≡ some t → C.error_from_json t ≡ some x
  pub json_map : (x : JsonMap) (t : Text) → C.map_to_json x ≡ some t → C.map_from_json t ≡ some x

module _ (C : Columns) (Plain : Timestamp → Type 0) (F : IsFaithful C Plain) where
  -- A path that was parsed, so that it parses again.
  abbrev pub IsParsed : RelPath → Type 0
  IsParsed p = parse_rel C.nfc p.as_str ≡ valid p

  abbrev pub PlainIfSome : Option Timestamp → Type 0
  PlainIfSome none = Unit
  PlainIfSome (some t) = Plain t

  pub read_id-id_text :
      (prefix : Text) (id : RowId)
      → has underscore prefix ≡ false
      → read_id C prefix (id_text C prefix id) ≡ good id
  read_id-id_text prefix id h =
      rw (id_from_str-id_to_string C.ulid C.parse_ulid F.ulid prefix prefix h id, beq_refl prefix)
        refl

  -- Printed identifiers are compared as the identifiers are.
  pub id_text_beq :
      (prefix : Text) (m n : RowId)
      → has underscore prefix ≡ false
      → (id_text C prefix m == id_text C prefix n) ≡ (m == n)
  id_text_beq prefix m n h = ground (
    arith,
    list_beq_iff (id_text C prefix m) (id_text C prefix n),
    read_id-id_text prefix m h,
    read_id-id_text prefix n h,
    ap (read_id C prefix) {x = id_text C prefix m} {y = id_text C prefix n},
  )

  pub read_rel-as_str : (p : RelPath) → IsParsed p → read_rel C p.as_str ≡ good p
  read_rel-as_str p h = rw h refl

  pub parse_timestamp-to_rfc3339 :
      (t : Timestamp) → Plain t → parse_timestamp C (C.to_rfc3339 t) ≡ good t
  parse_timestamp-to_rfc3339 t h = rw (F.timestamp t h) refl

  pub transposed-to_rfc3339 :
      (t : Option Timestamp)
      → PlainIfSome t
      → transposed (parse_timestamp C) (mapped C.to_rfc3339 t) ≡ good t
  transposed-to_rfc3339 none h = refl
  transposed-to_rfc3339 (some t) h = rw (F.timestamp t h) refl

  pub read_json-side :
      (x : FileSide) (t : Text)
      → C.side_to_json x ≡ some t
      → read_json C C.side_from_json t ≡ good x
  read_json-side x t h = rw (F.side x t h) refl
