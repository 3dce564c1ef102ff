-- ===== src/State/Sql/Accounts/Names.antt =====
-- The unique index on the user's name, against the rows that `account.add_sharepoint` makes.
use onesync.Prelude.{
  ◌≡◌, ◌≢◌, refl, ◌∙◌, Bool, true, false, not, ◌&&◌, Option, some, List, [], ◌∷◌, ◌++◌, arith,
}
use onesync.Prelude.Equality.{◌==◌, nat_eq, list_eq, beq_refl}
use onesync.Prelude.Lists.{any}
use onesync.Prelude.Text.{Text, codes}
use onesync.Prelude.Outcome.{err}
use onesync.Protocol.FileSide.{Timestamp}
use onesync.Protocol.Account.{Account}
use onesync.Protocol.Entities.{RowId}
use onesync.State.Sql.{Columns, unique_failed}
use onesync.State.Sql.Tables.{sqlite}
use onesync.State.Sql.Faithful.{IsFaithful, id_text_beq}
use onesync.State.Sql.Accounts.{AccountRow, account_row_of, name_taken, upsert}
use onesync.Daemon.Accounts.{AccountServices, AddSharePointParams, sharepoint_row}

any_here {ℓ} :
    {A : Type ℓ} (p : A → Bool) (xs ys : List A) (x : A)
    → p x ≡ true
    → any p (xs ++ (x ∷ ys)) ≡ true
any_here p [] ys x h = ground (arith, h)
any_here p (z ∷ xs) ys x h = ground (arith, any_here p xs ys x h)

neq_false : (m n : RowId) → m ≢ n → (m == n) ≡ false
neq_false m n h = ground arith

module _ (C : Columns) (Plain : Timestamp → Type 0) (F : IsFaithful C Plain) where
  -- On a table that has the row of the base account, storing the account that `add_sharepoint` makes of
  -- it under another identifier is refused by the unique index, and the table stays as it is.
  pub upsert-sharepoint_row :
      (S : AccountServices) (base : Account) (scopes : Text) (front back : List AccountRow)
      (id : RowId) (drive_id : Text) (p : AddSharePointParams) (title : Option Text)
      (now : Timestamp)
      → C.scopes_to_json base.scopes ≡ some scopes
      → base.id ≢ id
      → let rows = front ++ (account_row_of C base scopes ∷ back) in
        upsert C (sharepoint_row S id base drive_id p title now) rows
        ≡ err (sqlite C unique_failed) rows
  unfolding upsert
  upsert-sharepoint_row S base scopes front back id drive_id p title now encoded other =
      let row = account_row_of C (sharepoint_row S id base drive_id p title now) scopes in
      let differs =
        id_text_beq C Plain F (codes "acct") base.id id refl ∙ neq_false base.id id other in
      let taken : name_taken C row (front ++ (account_row_of C base scopes ∷ back)) ≡ true =
        any_here (λ (r : AccountRow). r.upn == row.upn && not (r.id == row.id)) front back
          (account_row_of C base scopes) (rw (beq_refl base.upn, differs) refl) in
      rw (encoded, taken) refl
