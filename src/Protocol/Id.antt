-- ===== src/Protocol/Id.antt =====
-- The printer and the parser of `Id` in crates/onesync-protocol/src/id.rs. The ULID of the crate
-- ulid is a parameter: a type with its printer and its parser.
pub mod RoundTrip
use onesync.Prelude.{ℕ, ◌++◌, Option, none, some, ◌∷◌, ◌⊎◌, inl, inr}
use onesync.Prelude.Tests.{if◌then◌else◌}
use onesync.Prelude.Equality.{◌==◌, nat_eq, list_eq}
use onesync.Prelude.Text.{Text, split_first}

pub data IdParseError : Type 0 where
  missing_separator : IdParseError
  wrong_prefix : Text → Text → IdParseError
  malformed_ulid : Text → IdParseError

abbrev pub underscore : ℕ
underscore = b'_'

module _ {Ulid : Type 0} (print : Ulid → Text) (parse : Text → Text ⊎ Ulid) (prefix : Text) where
  -- `Display`.
  unfoldable pub id_to_string : Ulid → Text
  id_to_string ulid = prefix ++ (underscore ∷ print ulid)

  abbrev pub parse_body : Text ⊎ Ulid → IdParseError ⊎ Ulid
  parse_body (inl source) = inl (malformed_ulid source)
  parse_body (inr ulid) = inr ulid

  abbrev pub parse_parts : Option (Text × Text) → IdParseError ⊎ Ulid
  parse_parts none = inl missing_separator
  parse_parts (some (got, body)) =
      if got == prefix then parse_body (parse body) else inl (wrong_prefix got prefix)

  -- `from_str`.
  unfoldable pub id_from_str : Text → IdParseError ⊎ Ulid
  id_from_str s = parse_parts (split_first underscore s)
