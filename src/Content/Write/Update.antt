-- ===== src/Content/Write/Update.antt =====
-- `updateContent`
pub mod Accepted
use presslabz.Base.{
  ℕ, suc, Bool, true, false, Option, none, some, List, [], ◌==◌, if◌then◌else◌, map,
}
use presslabz.Access.Ownership.{Uuid}
use presslabz.Content.Rows.{
  ContentRow, ContentState, RawState, Patch, stale_version, document_forbidden,
  ContentConflictReason, Db,
}
use presslabz.Content.Database.{Postgres}
use presslabz.Content.Transaction.{
  Tx, ok, err, conflict, forbidden, invalid_state, statement, pure, throw, gets, require, ◌>>◌,
  ◌>>=◌,
}
use presslabz.Content.Tree.{find_row, assert_usable_parent}
use presslabz.Content.Schema.{ContentSchema, parse_state, to_state, merge_patch}
use presslabz.Content.References.{MediaIn, media_references_of, sync_media_references}
use presslabz.Content.History.{Draws, insert_content_revision, prune_revisions}
use presslabz.Content.Write.{catch_error}

pub data ExpectedVersion : Type 0 where
  any_version : ExpectedVersion
  exactly : ℕ → ExpectedVersion

pub record UpdateContentOptions : Type 0 where
  pub derive : Option (ContentRow → RawState → RawState)
  pub authorize : Option (ContentRow → ContentState → Bool)
  pub expected_version : ExpectedVersion

abbrev pub version_matches : ExpectedVersion → ℕ → Bool
version_matches any_version version = true
version_matches (exactly expected) version = expected == version

abbrev pub derived : Option (ContentRow → RawState → RawState) → ContentRow → RawState → RawState
derived none current merged = merged
derived (some derive) current merged = derive current merged

abbrev pub authorized : Option (ContentRow → ContentState → Bool) → ContentRow → ContentState → Bool
authorized none current next = true
authorized (some authorize) current next = authorize current next

-- The columns of `toColumns(next)`, with the new version and modification time.
abbrev pub with_state : ContentState → ℕ → ℕ → ContentRow → ContentRow
with_state next now version row = record row {
  slug = next.slug;
  title = next.title;
  excerpt = next.excerpt;
  status = next.status;
  blocks = next.blocks;
  meta = next.meta;
  published_at = next.published_at;
  parent_id = next.parent_id;
  updated_at = now;
  version = version;
}

-- `update contents set … where id = …`
abbrev pub update_row : Uuid → (ContentRow → ContentRow) → List ContentRow → List ContentRow
update_row id f rows = map (λ row. if row.id == id then f row else row) rows

abbrev pub same_parent : Option Uuid → Option Uuid → Bool
same_parent none none = true
same_parent none (some q) = false
same_parent (some p) none = false
same_parent (some p) (some q) = p == q

abbrev pub parsed : Option ContentState → Tx ContentState
parsed none = throw invalid_state
parsed (some next) = pure next

abbrev pub refuse_if : Option ContentConflictReason → Tx Unit
refuse_if none = pure tt
refuse_if (some reason) = throw (conflict reason)

-- Only when it moves.
abbrev pub check_move : ContentRow → Option Uuid → Tx Unit
check_move current none db = pure tt db
check_move current (some p) db =
    (if same_parent (some p) current.parent_id
        then pure tt
        else refuse_if (
            assert_usable_parent db.contents (record {
              child_id = some current.id;
              parent_id = p;
              type = current.type;
              locale = current.locale;
            })))
      db

module _ (pg : Postgres) (draws : Draws) (schema : ContentSchema) (media_in : MediaIn) where
  -- The transaction up to the merge that was accepted.
  unfoldable pub judge : ContentRow → Patch → UpdateContentOptions → Tx ContentState
  unfolding parse_state to_state merge_patch
  judge current patch options = do
    require (version_matches options.expected_version current.version) (conflict stale_version)
    next ←
        parsed (
          parse_state schema
            (derived options.derive current (merge_patch (to_state current) patch)))
    require (authorized options.authorize current next) (forbidden document_forbidden)
    check_move current next.parent_id
    pure next

  -- The revision, and the row.
  unfoldable pub write_state : ContentRow → ContentState → Tx (Option ContentRow)
  unfolding insert_content_revision prune_revisions statement
  write_state current next = do
    insert_content_revision pg draws current
    prune_revisions pg current.id
    statement pg λ db. record db {
      contents =
          update_row current.id (with_state next draws.process_now (suc current.version))
            db.contents;
    }
    gets (λ db. find_row current.id db.contents)

  -- From where the references are known, an error is translated with them.
  unfoldable pub finish : Db → ContentRow → ContentState → Tx (Option ContentRow)
  unfolding write_state sync_media_references
  finish before current next db = elim (write_state current next db) [
    | err e ↦ catch_error before [] (err e)
    | ok (row, db₁) ↦ catch_error before (media_references_of media_in next.blocks next.meta) (
        (sync_media_references pg current.id (media_references_of media_in next.blocks next.meta)
            >> pure row)
          db₁)
  ]

  unfoldable pub update_locked : ContentRow → Patch → UpdateContentOptions → Tx (Option ContentRow)
  unfolding judge finish
  update_locked current patch options db = elim (judge current patch options db) [
    | err e ↦ catch_error db [] (err e)
    | ok (next, db₁) ↦ finish db current next db₁
  ]

  unfoldable pub update_content : Uuid → Patch → UpdateContentOptions → Tx (Option ContentRow)
  unfolding update_locked
  update_content id patch options db = elim (find_row id db.contents) [
    | none ↦ ok (none, db)
    | some current ↦ update_locked current patch options db
  ]
