-- ===== src/State/Sql/Accounts.antt =====
-- crates/onesync-state/src/queries/accounts.rs, on the table of accounts. Besides the primary key the
-- table has the unique index `accounts_upn_uq`, which the statement's `ON CONFLICT(id)` does not cover.
-- The cascades of `remove` into other tables are left out.
pub mod Names
use onesync.Prelude.{
  ◌≡◌, ◌≢◌, refl, ap, ◌∙◌, inl, inr, Bool, true, false, not, ◌&&◌, Option, none, some, List, [],
  ◌∷◌, ◌++◌, arith,
}
use onesync.Prelude.Tests.{if◌then◌else◌, Bool-cases, Option-cases}
use onesync.Prelude.Equality.{◌==◌, nat_eq, list_eq, beq_refl}
use onesync.Prelude.Lists.{any, find, keep}
use onesync.Prelude.Sorting.{sort_by, text_leb}
use onesync.Prelude.Text.{Text, codes, has}
use onesync.Prelude.Outcome.{Outcome, ok, err, Action}
use onesync.Protocol.Enums.{AccountKind, personal, business}
use onesync.Protocol.FileSide.{Timestamp}
use onesync.Protocol.Account.{Account}
use onesync.Protocol.Entities.{RowId}
use onesync.Engine.Ports.{StateError}
use onesync.State.Sql.{
  Columns, SqlCause, unique_failed, encode_failed, row_failed, Decoded, good, bad,
  invalid_column_type, ◌>>=◌, transposed, collect, id_text, read_id, parse_timestamp, read_json,
}
use onesync.State.Sql.Tables.{mapped, update_where, sqlite}

pub record AccountRow : Type 0 where
  pub id : Text
  pub kind : Text
  pub upn : Text
  pub tenant_id : Text
  pub drive_id : Text
  pub display_name : Text
  pub keychain_ref : Text
  pub scopes_json : Text
  pub created_at : Text
  pub updated_at : Text

abbrev pub kind_to_str : AccountKind → Text
kind_to_str personal = codes "personal"
kind_to_str business = codes "business"

abbrev pub kind_from_str : Text → Decoded AccountKind
kind_from_str s =
    if s == codes "personal"
    then good personal
    else if s == codes "business"
    then good business
    else bad (invalid_column_type 1 s)

module _ (C : Columns) where
  abbrev pub On : Type 0 → Type 0
  On A = Action StateError (List AccountRow) A

  abbrev answer : {A : Type 0} → Decoded A → On A
  answer (good a) rows = ok a rows
  answer (bad e) rows = err (sqlite C (row_failed e)) rows

  abbrev pub account_row_of : Account → Text → AccountRow
  account_row_of account scopes = record {
    id = id_text C (codes "acct") account.id;
    kind = kind_to_str account.kind;
    upn = account.upn;
    tenant_id = account.tenant_id;
    drive_id = account.drive_id;
    display_name = account.display_name;
    keychain_ref = account.keychain_ref;
    scopes_json = scopes;
    created_at = C.to_rfc3339 account.created_at;
    updated_at = C.to_rfc3339 account.updated_at;
  }

  -- `DO UPDATE`: the row keeps the time of its creation.
  abbrev replaced : AccountRow → AccountRow → AccountRow
  replaced new old = record new { id = old.id; created_at = old.created_at }

  -- Another account has the same name.
  abbrev pub name_taken : AccountRow → List AccountRow → Bool
  name_taken row = any (λ (r : AccountRow). r.upn == row.upn && not (r.id == row.id))

  abbrev upserted : Option AccountRow → On (Unit {0})
  upserted none rows = err (sqlite C encode_failed) rows
  upserted (some row) rows =
      if name_taken row rows
      then err (sqlite C unique_failed) rows
      else if any (λ (r : AccountRow). r.id == row.id) rows
      then ok tt (update_where (λ (r : AccountRow). r.id == row.id) (replaced row) rows)
      else ok tt (rows ++ (row ∷ []))

  unfoldable pub upsert : Account → On (Unit {0})
  upsert account = upserted (mapped (account_row_of account) (C.scopes_to_json account.scopes))

  unfoldable pub row_to_account : AccountRow → Decoded Account
  row_to_account row = read_id C (codes "acct") row.id >>= λ id. kind_from_str row.kind >>= λ kind.
      read_json C C.scopes_from_json row.scopes_json >>= λ scopes.
      parse_timestamp C row.created_at >>= λ created_at.
      parse_timestamp C row.updated_at >>= λ updated_at. good (record {
        id = id;
        kind = kind;
        upn = row.upn;
        tenant_id = row.tenant_id;
        drive_id = row.drive_id;
        display_name = row.display_name;
        keychain_ref = row.keychain_ref;
        scopes = scopes;
        created_at = created_at;
        updated_at = updated_at;
      })

  unfoldable pub list : On (List Account)
  list rows =
      answer (collect row_to_account (sort_by (λ (a b : AccountRow). text_leb a.id b.id) rows)) rows

  unfoldable pub remove : RowId → On (Unit {0})
  remove id rows = ok tt (keep (λ (r : AccountRow). not (r.id == id_text C (codes "acct") id)) rows)

  unfoldable pub get : RowId → On (Option Account)
  get id rows =
      answer
        (transposed row_to_account
          (find (λ (r : AccountRow). r.id == id_text C (codes "acct") id) rows))
        rows
