-- ===== src/Content/Write/Removed/Rows.antt =====
-- `deleteContent`: what a deletion leaves in the tables, row by row.
use presslabz.Base.{
  ◌≡◌, ◌≢◌, refl, sym, ap, subst, ◌∙◌, Bool, true, Option, none, some, List, arith, Bool-cases, inl,
  inr, ◌==◌, ==_iff,
}
use presslabz.Access.Ownership.{Uuid}
use presslabz.Content.Rows.{ContentRow, Db}
use presslabz.Content.Database.{Postgres}
use presslabz.Content.Transaction.{ok}
use presslabz.Content.Tree.{find_row}
use presslabz.Content.Tree.Writes.{find_row-without_self}
use presslabz.Content.Write.Delete.{is_parent, orphan_children, delete_authorized, delete_content}
use presslabz.Content.Write.Removed.{delete_content-WasDeleted, after_removal, find_row-removed}

-- What a deletion that returned a row has done: the document was there, and whoever may be asked
-- allowed it; it is gone; its children are roots and otherwise as they were; no other document has
-- changed, and none has come.
pub record IsRemoved (id : Uuid) (authorize : Option (ContentRow → Bool)) (db : Db)
    (row : ContentRow) (db' : Db) : Type 0 where
  pub found : find_row id db.contents ≡ some row
  pub allowed : (asks : ContentRow → Bool) → authorize ≡ some asks → asks row ≡ true
  pub gone : find_row id db'.contents ≡ none
  pub made_roots :
      (x : Uuid) (r : ContentRow)
      → x ≢ id
      → find_row x db.contents ≡ some r
      → r.parent_id ≡ some id
      → find_row x db'.contents ≡ some (record r { parent_id = none })
  pub others :
      (x : Uuid) (r : ContentRow)
      → x ≢ id
      → find_row x db.contents ≡ some r
      → r.parent_id ≢ some id
      → find_row x db'.contents ≡ some r
  pub no_more : (x : Uuid) → find_row x db.contents ≡ none → find_row x db'.contents ≡ none

is_parent-eq : (id : Uuid) (p : Option Uuid) → is_parent id p ≡ true → p ≡ some id
is_parent-eq id none e = absurd (cc)
is_parent-eq id (some p) e = ap some ((==_iff p id).0 e)

authorized-asks :
    (row : ContentRow) (authorize : Option (ContentRow → Bool))
    → delete_authorized authorize row ≡ true
    → (asks : ContentRow → Bool) → authorize ≡ some asks
    → asks row ≡ true
authorized-asks row none e asks same = absurd (cc)
authorized-asks row (some f) e asks same = let eq : f ≡ asks = cc in subst (λ g. g row ≡ true) eq e

module _ (id : Uuid) (rows : List ContentRow) where
  child-removed :
      (x : Uuid) (r : ContentRow)
      → x ≢ id
      → find_row x rows ≡ some r
      → r.parent_id ≡ some id
      → find_row x (after_removal id rows) ≡ some (record r { parent_id = none })
  child-removed x r other found up =
      let child : is_parent id r.parent_id ≡ true = rw up ((==_iff id id).1 refl) in
      find_row-removed id rows x other ∙ rw (found, child) refl

  other-removed :
      (x : Uuid) (r : ContentRow)
      → x ≢ id
      → find_row x rows ≡ some r
      → r.parent_id ≢ some id
      → find_row x (after_removal id rows) ≡ some r
  other-removed x r other found apart = elim (Bool-cases (is_parent id r.parent_id)) [
    | inl child ↦ absurd (apart (is_parent-eq id r.parent_id child))
    | inr same ↦ find_row-removed id rows x other ∙ rw (found, same) refl
  ]

  none-removed : (x : Uuid) → find_row x rows ≡ none → find_row x (after_removal id rows) ≡ none
  none-removed x gone = elim (Bool-cases (x == id)) [
    | inl eq ↦
        subst (λ y. find_row y (after_removal id rows) ≡ none) (sym ((==_iff x id).0 eq))
          (find_row-without_self id (orphan_children id rows))
    | inr ne ↦ find_row-removed id rows x (λ eq. ground arith) ∙ rw gone refl
  ]

-- A deletion that returned a row found that document and was allowed by the rule that it was
-- given; the document is gone, its children are roots and otherwise as they were, no other
-- document has changed, and none has come.
pub delete_content-IsRemoved :
    (pg : Postgres) (id : Uuid) (authorize : Option (ContentRow → Bool)) (db : Db)
    {row : ContentRow} {db' : Db}
    → delete_content pg id authorize db ≡ ok (some row, db')
    → IsRemoved id authorize db row db'
delete_content-IsRemoved pg id authorize db {row = row} e =
    let r = delete_content-WasDeleted pg id authorize db e in
    let rows = db.contents in
    record {
      found = r.found;
      allowed = authorized-asks row authorize r.allowed;
      gone = ap (find_row id) r.rows ∙ find_row-without_self id (orphan_children id rows);
      made_roots =
          λ x c other found up. ap (find_row x) r.rows ∙ child-removed id rows x c other found up;
      others = λ x c other found apart.
          ap (find_row x) r.rows ∙ other-removed id rows x c other found apart;
      no_more = λ x none_there. ap (find_row x) r.rows ∙ none-removed id rows x none_there;
    }
