-- ===== src/Content/History.antt =====
-- The history of a document: `insertContentRevision`, `pruneRevisions` and `listRevisions` of
-- packages/db/src/repositories/contents.ts. Revisions of one document that were captured at one
-- instant with one version do not occur, so the order of the query decides which are kept.
pub mod Pruning
use presslabz.Base.{
  ℕ, Bool, not, ◌&&◌, ◌||◌, List, [], ◌∷◌, ◌++◌, ltb, ◌==◌, min, max, if◌then◌else◌, any, filter,
  take,
}
use presslabz.Access.Ownership.{Uuid}
use presslabz.Content.Rows.{ContentRow, RevisionRow, Db}
use presslabz.Content.Database.{Postgres}
use presslabz.Content.Transaction.{Tx, statement}

abbrev pub revision_limit : ℕ
revision_limit = 50

-- What a transaction takes from outside: the process's `new Date()`, the transaction's `now()`,
-- which is one instant throughout, and the ids that `gen_random_uuid()` draws.
pub record Draws : Type 0 where
  pub process_now : ℕ
  pub transaction_now : ℕ
  pub random_uuid : Db → Uuid

abbrev pub revision_of : ContentRow → Uuid → ℕ → RevisionRow
revision_of current id now = record {
  id = id;
  content_id = current.id;
  slug = current.slug;
  title = current.title;
  excerpt = current.excerpt;
  status = current.status;
  blocks = current.blocks;
  meta = current.meta;
  author_id = current.author_id;
  parent_id = current.parent_id;
  published_at = current.published_at;
  version = current.version;
  created_at = now;
}

-- `order by created_at desc, version desc`
abbrev pub is_newer : RevisionRow → RevisionRow → Bool
is_newer a b =
    ltb b.created_at a.created_at || a.created_at == b.created_at && ltb b.version a.version

-- `order by version desc`
abbrev pub has_later_version : RevisionRow → RevisionRow → Bool
has_later_version a b = ltb b.version a.version

-- A stable sort by insertion: `x` goes before the first element that it comes before.
unfoldable pub insert_by :
    (RevisionRow → RevisionRow → Bool) → RevisionRow → List RevisionRow → List RevisionRow
insert_by before x [] = x ∷ []
insert_by before x (y ∷ ys) =
    let rest = insert_by before x ys in if before y x then y ∷ rest else x ∷ y ∷ ys

unfoldable pub order_by : (RevisionRow → RevisionRow → Bool) → List RevisionRow → List RevisionRow
unfolding insert_by
order_by before [] = []
order_by before (x ∷ xs) = insert_by before x (order_by before xs)

abbrev pub revisions_of : Uuid → List RevisionRow → List RevisionRow
revisions_of content_id revisions = filter (λ v. v.content_id == content_id) revisions

-- The rows of the subquery of `pruneRevisions`.
unfoldable pub kept_revisions : Uuid → List RevisionRow → List RevisionRow
unfolding order_by
kept_revisions content_id revisions =
    take revision_limit (order_by is_newer (revisions_of content_id revisions))

unfoldable pub pruned : Uuid → List RevisionRow → List RevisionRow
unfolding kept_revisions
pruned content_id revisions =
    filter
      (λ v. not (
        v.content_id == content_id
        && not (any (λ k. k.id == v.id) (kept_revisions content_id revisions))))
      revisions

module _ (pg : Postgres) (draws : Draws) where
  unfoldable pub insert_content_revision : ContentRow → Tx Unit
  insert_content_revision current = statement pg λ db. record db {
    revisions =
        db.revisions ++ revision_of current (draws.random_uuid db) draws.transaction_now ∷ [];
  }

module _ (pg : Postgres) where
  unfoldable pub prune_revisions : Uuid → Tx Unit
  unfolding pruned
  prune_revisions content_id =
      statement pg (λ db. record db { revisions = pruned content_id db.revisions })

unfoldable pub list_revisions : Uuid → ℕ → List RevisionRow → List RevisionRow
unfolding order_by
list_revisions content_id limit revisions =
    take (min revision_limit (max 1 limit))
      (order_by has_later_version (revisions_of content_id revisions))
