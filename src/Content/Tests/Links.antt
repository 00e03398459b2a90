-- ===== src/Content/Tests/Links.antt =====
-- The mirror of a page that comes to name an asset.
use presslabz.Base.{List, ◌≡◌, refl, [], ◌∷◌, any, if◌then◌else◌, ◌==◌}
use presslabz.Content.Rows.{block, block_at, ContentMediaReference, MediaLink, Db}
use presslabz.Content.Database.{listed_order, satisfied}
use presslabz.Content.Transaction.{ok, statement}
use presslabz.Content.References.{names_link, sync_media_references}
use presslabz.Content.References.Mirror.{has_link, has_link-sync_media_references}
use presslabz.Content.Tests.{site, after_run}

abbrev gallery : Db
gallery = record site {
  media = 70 ∷ 71 ∷ [];
  links = record { content_id = 1; media_id = 71; source = block } ∷ [];
}

abbrev references : List ContentMediaReference
references = record { media_id = 70; source = block; at = block_at 5 } ∷ []

abbrev new_link : MediaLink
new_link = record { content_id = 1; media_id = 70; source = block }

abbrev synced : Db
synced = after_run (sync_media_references listed_order 1 references gallery)

syncs : sync_media_references listed_order 1 references gallery ≡ ok (tt, synced)
unfolding sync_media_references satisfied statement
syncs = refl

links_after : synced.links ≡ new_link ∷ []
unfolding sync_media_references satisfied statement
links_after = refl

has_link-sync_media_references_example : has_link new_link synced.links ≡ (
    if new_link.content_id == 1
    then any (names_link new_link) references
    else has_link new_link gallery.links)
has_link-sync_media_references_example =
    has_link-sync_media_references listed_order new_link 1 references gallery syncs
