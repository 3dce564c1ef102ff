-- ===== src/State/Sql.antt =====
-- What the modules under crates/onesync-state/src/queries share: the texts of columns, the errors of
-- a row that does not decode, and the tables with their foreign keys, which the migrations under
-- crates/onesync-state/src/migrations declare and connection.rs switches on. The statements are
-- functions on lists of rows, in the order of insertion, which stands where an `ORDER BY` leaves rows
-- level; SQLite's printing and that of serde_json and chrono are parameters.
pub mod Tables
pub mod Accounts
pub mod FileOps
pub mod Conflicts
pub mod Faithful
pub mod Selects
pub mod Engine
use onesync.Prelude.{ℕ, Bool, true, false, Option, none, some, List, [], ◌∷◌, ◌⊎◌, inl, inr}
use onesync.Prelude.Text.{Text}
use onesync.Protocol.FileSide.{FileSide, Timestamp}
use onesync.Protocol.Path.{
  RelPath, AbsPath, PathParseError, Parsed, valid, invalid, parse_rel, parse_abs,
}
use onesync.Protocol.Entities.{RowId, ErrorEnvelope, JsonMap}
use onesync.Protocol.Id.{IdParseError, id_to_string, id_from_str}

-- `rusqlite::Error` of a row: a text that does not parse, or a column with an unknown word.
pub data RowError : Type 0 where
  bad_id : IdParseError → RowError
  bad_path : PathParseError → RowError
  bad_json bad_timestamp : Text → RowError
  invalid_column_type : ℕ → Text → RowError

pub data Decoded {ℓ} (A : Type ℓ) : Type ℓ where
  good : A → Decoded A
  bad : RowError → Decoded A

infixl 5 ◌>>=◌
abbrev pub ◌>>=◌ {ℓ κ} : {A : Type ℓ} {B : Type κ} → Decoded A → (A → Decoded B) → Decoded B
good a >>= f = f a
bad e >>= f = bad e

-- `Option::map(…).transpose()`.
abbrev pub transposed {ℓ κ} :
    {A : Type ℓ} {B : Type κ} → (A → Decoded B) → Option A → Decoded (Option B)
transposed f none = good none
transposed f (some a) = f a >>= λ b. good (some b)

-- `rows.map(…).collect()`: the first row that does not decode is the error.
abbrev pub collect {ℓ κ} : {R : Type ℓ} {A : Type κ} → (R → Decoded A) → List R → Decoded (List A)
collect f [] = good []
collect f (r ∷ rs) = f r >>= λ a. collect f rs >>= λ xs. good (a ∷ xs)

-- Why a statement fails: a constraint of the schema, a value that does not encode, a row that does
-- not decode.
pub data SqlCause : Type 0 where
  unique_failed foreign_key_failed encode_failed : SqlCause
  row_failed : RowError → SqlCause

-- The printers and parsers of other crates that the columns go through.
pub record Columns : Type 0 where
  pub ulid : RowId → Text
  pub parse_ulid : Text → Text ⊎ RowId
  pub to_rfc3339 : Timestamp → Text
  pub parse_rfc3339 : Text → Option Timestamp
  pub nfc : Text → Text
  pub sqlite_text : SqlCause → Text
  pub side_to_json : FileSide → Option Text
  pub side_from_json : Text → Option FileSide
  pub error_to_json : ErrorEnvelope → Option Text
  pub error_from_json : Text → Option ErrorEnvelope
  pub map_to_json : JsonMap → Option Text
  pub map_from_json : Text → Option JsonMap
  pub scopes_to_json : List Text → Option Text
  pub scopes_from_json : Text → Option (List Text)

module _ (C : Columns) where
  abbrev pub id_text : Text → RowId → Text
  id_text prefix id = id_to_string C.ulid C.parse_ulid prefix id

  abbrev id_result : IdParseError ⊎ RowId → Decoded RowId
  id_result (inl e) = bad (bad_id e)
  id_result (inr id) = good id

  abbrev pub read_id : Text → Text → Decoded RowId
  read_id prefix s = id_result (id_from_str C.ulid C.parse_ulid prefix s)

  abbrev path_result : {A : Type 0} → Parsed A → Decoded A
  path_result (valid p) = good p
  path_result (invalid e) = bad (bad_path e)

  abbrev pub read_rel : Text → Decoded RelPath
  read_rel s = path_result (parse_rel C.nfc s)

  abbrev pub read_abs : Text → Decoded AbsPath
  read_abs s = path_result (parse_abs s)

  abbrev some_or {ℓ} : {A : Type ℓ} → RowError → Option A → Decoded A
  some_or e none = bad e
  some_or e (some a) = good a

  -- `parse_timestamp`.
  abbrev pub parse_timestamp : Text → Decoded Timestamp
  parse_timestamp s = some_or (bad_timestamp s) (C.parse_rfc3339 s)

  abbrev pub read_json {ℓ} : {A : Type ℓ} → (Text → Option A) → Text → Decoded A
  read_json parse s = some_or (bad_json s) (parse s)
