-- ===== src/Content/Write/Publish.antt =====
-- `publishDueContent`
pub mod Claimed
use presslabz.Base.{
  ℕ, suc, Bool, true, false, ◌&&◌, ◌||◌, Option, none, some, List, [], ◌∷◌, ltb, leb, ◌==◌,
  if◌then◌else◌, filter,
}
use presslabz.Access.Policy.{ContentStatus, scheduled, published}
use presslabz.Content.Rows.{ContentRow}
use presslabz.Content.Database.{Postgres}
use presslabz.Content.Transaction.{Tx, ok, no_row, statement, pure, throw, gets, ◌>>=◌, ◌>>◌}
use presslabz.Content.Tree.{find_row}
use presslabz.Content.History.{Draws, insert_content_revision, prune_revisions}
use presslabz.Content.Write.Update.{update_row}

abbrev pub is_scheduled : ContentStatus → Bool
is_scheduled scheduled = true
is_scheduled _ = false

abbrev pub has_come : ℕ → Option ℕ → Bool
has_come now none = false
has_come now (some at) = leb at now

-- The predicate `due`, and the two tests that the loop makes again.
abbrev pub is_due : ℕ → ContentRow → Bool
is_due now row = is_scheduled row.status && has_come now row.published_at

abbrev instant : Option ℕ → ℕ
instant none = 0
instant (some at) = at

-- `order by published_at, id`
abbrev pub goes_first : ContentRow → ContentRow → Bool
goes_first a b =
    ltb (instant a.published_at) (instant b.published_at)
    || instant a.published_at == instant b.published_at && ltb a.id b.id

unfoldable pub insert_due : ContentRow → List ContentRow → List ContentRow
insert_due r [] = r ∷ []
insert_due r (x ∷ xs) =
    let rest = insert_due r xs in if goes_first x r then x ∷ rest else r ∷ x ∷ xs

unfoldable pub sort_due : List ContentRow → List ContentRow
unfolding insert_due
sort_due [] = []
sort_due (r ∷ rs) = insert_due r (sort_due rs)

abbrev pub as_published : ℕ → ℕ → ContentRow → ContentRow
as_published now version row = record row {
  status = published;
  updated_at = now;
  version = version;
}

abbrev pub returned : Option ContentRow → Tx ContentRow
returned none = throw no_row
returned (some row) = pure row

module _ (pg : Postgres) (draws : Draws) where
  unfoldable pub publish_one : ContentRow → Tx ContentRow
  unfolding insert_content_revision prune_revisions statement
  publish_one current = do
    insert_content_revision pg draws current
    prune_revisions pg current.id
    statement pg λ db. record db {
      contents =
          update_row current.id (as_published draws.process_now (suc current.version)) db.contents;
    }
    row ← gets (λ db. find_row current.id db.contents)
    returned row

  -- The loop over what was claimed; a row that is no longer due is passed over.
  unfoldable pub publish_each : ℕ → List ContentRow → Tx (List ContentRow)
  unfolding publish_one
  publish_each now [] db = ok ([], db)
  publish_each now (current ∷ claimed) db =
      let skip = publish_each now claimed db in
      let publish =
        (do row ← publish_one current; rows ← publish_each now claimed; pure (row ∷ rows)) db in
      if is_due now current then publish else skip

  unfoldable pub publish_due_content : ℕ → Tx (List ContentRow)
  unfolding publish_each sort_due
  publish_due_content now db = publish_each now (sort_due (filter (is_due now) db.contents)) db
