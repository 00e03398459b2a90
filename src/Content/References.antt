-- ===== src/Content/References.antt =====
-- `mediaReferencesOf` of packages/core/src/content-types.ts, and `syncMediaReferences` and
-- `absentMedia` of packages/db/src/repositories/contents.ts: the mirror of the assets that a
-- document names.
pub mod Mirror
use presslabz.Base.{
  Bool, true, false, not, ◌&&◌, ◌||◌, List, [], ◌∷◌, ◌++◌, String, ltb, ◌==◌, if◌then◌else◌, any,
  filter, map,
}
use presslabz.Access.Ownership.{Uuid}
use presslabz.Blocks.Vocabulary.{Blocks, BlockMediaReference, media_references_in_blocks}
use presslabz.Content.Rows.{
  Meta, Source, block, meta, block_at, meta_at, ContentMediaReference, MediaLink,
}
use presslabz.Content.Database.{Postgres, same_source}
use presslabz.Content.Transaction.{Tx, statement, pure, gets, ◌>>=◌, ◌>>◌}

pub record MetaMediaReference : Type 0 where
  pub media_id : Uuid
  pub at : String

abbrev pub MediaIn : Type 0
MediaIn = Meta → List MetaMediaReference

-- The key `${source}:${mediaId}` of the map.
abbrev pub same_reference : ContentMediaReference → ContentMediaReference → Bool
same_reference a b = a.media_id == b.media_id && same_source a.source b.source

-- The map keeps the first reference of a key, in the order of insertion.
abbrev pub add_reference :
    List ContentMediaReference → ContentMediaReference → List ContentMediaReference
add_reference found r = if any (same_reference r) found then found else found ++ r ∷ []

unfoldable pub add_all :
    List ContentMediaReference → List ContentMediaReference → List ContentMediaReference
add_all found [] = found
add_all found (r ∷ rs) = add_all (add_reference found r) rs

abbrev pub of_block : BlockMediaReference → ContentMediaReference
of_block r = record { media_id = r.media_id; source = block; at = block_at r.block_id }

abbrev pub of_meta : MetaMediaReference → ContentMediaReference
of_meta r = record { media_id = r.media_id; source = meta; at = meta_at r.at }

abbrev source_before : Source → Source → Bool
source_before block meta = true
source_before _ _ = false

-- The comparison of the sort: by asset, then `block` before `meta`.
abbrev sorts_before : ContentMediaReference → ContentMediaReference → Bool
sorts_before a b =
    ltb a.media_id b.media_id || a.media_id == b.media_id && source_before a.source b.source

unfoldable pub insert_sorted :
    ContentMediaReference → List ContentMediaReference → List ContentMediaReference
insert_sorted r [] = r ∷ []
insert_sorted r (x ∷ xs) =
    let rest = insert_sorted r xs in if sorts_before r x then r ∷ x ∷ xs else x ∷ rest

unfoldable pub sort_references : List ContentMediaReference → List ContentMediaReference
unfolding insert_sorted
sort_references [] = []
sort_references (r ∷ rs) = insert_sorted r (sort_references rs)

unfoldable pub media_references_of : MediaIn → Blocks → Meta → List ContentMediaReference
unfolding add_all sort_references media_references_in_blocks
media_references_of media_in blocks values =
    sort_references (
      add_all []
        (map of_block (media_references_in_blocks blocks) ++ map of_meta (media_in values)))

-- The rows of the mirror for one document.
abbrev pub links_of : Uuid → List MediaLink → List MediaLink
links_of content_id links = filter (λ l. l.content_id == content_id) links

abbrev pub names_link : MediaLink → ContentMediaReference → Bool
names_link l r = r.media_id == l.media_id && same_source r.source l.source

abbrev pub same_link : MediaLink → MediaLink → Bool
same_link a b =
    a.content_id == b.content_id && (a.media_id == b.media_id && same_source a.source b.source)

abbrev pub link_of : Uuid → ContentMediaReference → MediaLink
link_of content_id r = record { content_id = content_id; media_id = r.media_id; source = r.source }

module _ (pg : Postgres) where
  -- One `delete` statement for each row that is gone.
  unfoldable pub delete_links : List MediaLink → Tx Unit
  delete_links [] = pure tt
  delete_links (l ∷ ls) = do
    statement pg (λ db. record db { links = filter (λ x. not (same_link x l)) db.links })
    delete_links ls

  -- One `insert` statement for each reference that is new, in the order of the references.
  unfoldable pub insert_links : Uuid → List ContentMediaReference → Tx Unit
  insert_links content_id [] = pure tt
  insert_links content_id (r ∷ rs) = do
    statement pg (λ db. record db { links = db.links ++ link_of content_id r ∷ [] })
    insert_links content_id rs

  unfoldable pub sync_media_references : Uuid → List ContentMediaReference → Tx Unit
  unfolding delete_links insert_links
  sync_media_references content_id references = do
    current ← gets (λ db. links_of content_id db.links)
    delete_links (filter (λ l. not (any (names_link l) references)) current)
    insert_links content_id (filter (λ r. not (any (λ l. names_link l r) current)) references)

-- Asked after the rollback, of the assets as they then are.
unfoldable pub absent_media : List Uuid → List ContentMediaReference → List ContentMediaReference
absent_media media references = filter (λ r. not (any (λ m. m == r.media_id) media)) references
