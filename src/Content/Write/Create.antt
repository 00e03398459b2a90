-- ===== src/Content/Write/Create.antt =====
-- `createContent`, `openGroup` and `joinGroup`
use presslabz.Base.{
  ℕ, Bool, Option, none, some, List, [], ◌∷◌, ◌++◌, String, str_eq, ◌==◌, any, filter, find, not,
}
use presslabz.Access.Ownership.{Uuid}
use presslabz.Content.Rows.{
  TranslationGroup, ContentRow, ContentState, group_not_found, group_type_mismatch, group_forbidden,
  translation_exists,
}
use presslabz.Content.Database.{Postgres}
use presslabz.Content.Transaction.{
  Tx, conflict, forbidden, statement, pure, throw, gets, require, ◌>>=◌, ◌>>◌,
}
use presslabz.Content.Tree.{assert_usable_parent}
use presslabz.Content.References.{MediaIn, media_references_of, sync_media_references}
use presslabz.Content.History.{Draws}
use presslabz.Content.Write.{catch_error}
use presslabz.Content.Write.Update.{refuse_if}

-- `OpenGroupInput | JoinGroupInput`: a group's id never comes without the authorizer.
pub data GroupChoice : Type 0 where
  open_group : GroupChoice
  join_group : (translation_group_id : Uuid) (authorize_join : List ContentRow → Bool) → GroupChoice

pub record CreateContentInput : Type 0 where
  pub locale : String
  pub author_id : Option Uuid
  pub state : ContentState
  pub group : GroupChoice

abbrev pub find_group : Uuid → List TranslationGroup → Option TranslationGroup
find_group id groups = find (λ g. g.id == id) groups

abbrev pub members_of : Uuid → List ContentRow → List ContentRow
members_of group_id rows = filter (λ r. r.translation_group_id == group_id) rows

-- The locked group row, or the conflict that there is none.
abbrev locked_group : Option TranslationGroup → Tx TranslationGroup
locked_group none = throw (conflict group_not_found)
locked_group (some group) = pure group

abbrev pub check_parent : Option Uuid → String → String → Tx Unit
check_parent none type locale db = pure tt db
check_parent (some p) type locale db =
    refuse_if
      (assert_usable_parent db.contents
        (record { child_id = none; parent_id = p; type = type; locale = locale }))
      db

abbrev pub row_of : Uuid → String → String → Uuid → Option Uuid → ContentState → ℕ → ContentRow
row_of id type locale group_id author_id state now = record {
  id = id;
  type = type;
  locale = locale;
  translation_group_id = group_id;
  slug = state.slug;
  status = state.status;
  title = state.title;
  excerpt = state.excerpt;
  blocks = state.blocks;
  meta = state.meta;
  author_id = author_id;
  parent_id = state.parent_id;
  version = 1;
  published_at = state.published_at;
  updated_at = now;
}

module _ (pg : Postgres) (draws : Draws) (type : String) where
  -- The id comes back from the insert.
  unfoldable pub open_new_group : Tx Uuid
  unfolding statement
  open_new_group db =
      (statement pg (λ t. record t {
        groups = t.groups ++ record { id = draws.random_uuid db; type = type } ∷ [];
      })
          >> pure (draws.random_uuid db))
        db

  unfoldable pub join_existing_group : Uuid → (List ContentRow → Bool) → String → Tx Uuid
  join_existing_group group_id authorize_join locale = do
    found ← gets (λ db. find_group group_id db.groups)
    group ← locked_group found
    require (str_eq group.type type) (conflict group_type_mismatch)
    members ← gets (λ db. members_of group_id db.contents)
    require (authorize_join members) (forbidden group_forbidden)
    require (not (any (λ m. str_eq m.locale locale) members)) (conflict translation_exists)
    pure group_id

  abbrev pub group_for : GroupChoice → String → Tx Uuid
  group_for open_group locale = open_new_group
  group_for (join_group group_id authorize_join) locale =
      join_existing_group group_id authorize_join locale

  unfoldable pub insert_content : CreateContentInput → Uuid → Tx ContentRow
  unfolding statement
  insert_content input group_id db =
      let row =
        row_of (draws.random_uuid db) type input.locale group_id input.author_id input.state
          draws.transaction_now in
      (statement pg (λ t. record t { contents = t.contents ++ row ∷ [] }) >> pure row) db

  unfoldable pub create_in_group : MediaIn → CreateContentInput → Tx ContentRow
  unfolding open_new_group join_existing_group insert_content sync_media_references
  create_in_group media_in input = do
    group_id ← group_for input.group input.locale
    check_parent input.state.parent_id type input.locale
    created ← insert_content input group_id
    sync_media_references pg created.id
        (media_references_of media_in input.state.blocks input.state.meta)
    pure created

  unfoldable pub create_content : MediaIn → CreateContentInput → Tx ContentRow
  unfolding create_in_group
  create_content media_in input db =
      catch_error db (media_references_of media_in input.state.blocks input.state.meta)
        (create_in_group media_in input db)
