-- ===== src/Content/Write/Delete.antt =====
-- `deleteContent`
use presslabz.Base.{
  Bool, true, false, not, Option, none, some, List, ◌==◌, if◌then◌else◌, any, filter, map,
}
use presslabz.Access.Ownership.{Uuid}
use presslabz.Content.Rows.{ContentRow, document_forbidden, Db}
use presslabz.Content.Database.{Postgres}
use presslabz.Content.Transaction.{Tx, ok, forbidden, statement, pure, require, ◌>>◌}
use presslabz.Content.Tree.{find_row}

abbrev pub is_parent : Uuid → Option Uuid → Bool
is_parent id none = false
is_parent id (some p) = p == id

-- `update contents set parent_id = null where parent_id = …`
abbrev pub orphan_children : Uuid → List ContentRow → List ContentRow
orphan_children id rows =
    map (λ row. if is_parent id row.parent_id then record row { parent_id = none } else row) rows

-- `delete from contents where id = …`: the schema cascades to the history and to the mirror.
abbrev pub remove_content : Uuid → Db → Db
remove_content id db = record db {
  contents = filter (λ r. not (r.id == id)) db.contents;
  revisions = filter (λ v. not (v.content_id == id)) db.revisions;
  links = filter (λ l. not (l.content_id == id)) db.links;
}

abbrev pub delete_authorized : Option (ContentRow → Bool) → ContentRow → Bool
delete_authorized none current = true
delete_authorized (some authorize) current = authorize current

module _ (pg : Postgres) where
  unfoldable pub drop_group_if_empty : Uuid → Tx Unit
  unfolding statement
  drop_group_if_empty group_id db =
      if any (λ r. r.translation_group_id == group_id) db.contents
      then ok (tt, db)
      else statement pg (λ t. record t { groups = filter (λ g. not (g.id == group_id)) t.groups })
          db

  unfoldable pub delete_locked : ContentRow → Option (ContentRow → Bool) → Tx (Option ContentRow)
  unfolding drop_group_if_empty
  delete_locked current authorize = do
    require (delete_authorized authorize current) (forbidden document_forbidden)
    statement pg (λ db. record db { contents = orphan_children current.id db.contents })
    statement pg (remove_content current.id)
    drop_group_if_empty current.translation_group_id
    pure (some current)

  -- The first, unlocked read only names the group to lock, and both reads see one row here: a
  -- transaction is one step.
  unfoldable pub delete_content : Uuid → Option (ContentRow → Bool) → Tx (Option ContentRow)
  unfolding delete_locked
  delete_content id authorize db = elim (find_row id db.contents) [
    | none ↦ ok (none, db)
    | some current ↦ delete_locked current authorize db
  ]
