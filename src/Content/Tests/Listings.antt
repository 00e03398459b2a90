-- ===== src/Content/Tests/Listings.antt =====
-- Listings of the site.
use mathlib.Core.Bool.{decide}
use presslabz.Base.{◌≡◌, ◌≢◌, ◌↔◌, ◌<◌, refl, true, false, none, some, arith, length}
use presslabz.Access.Capability.{content_update_own, author, subscriber, capabilities_for, includes}
use presslabz.Access.Ownership.{Actor, allows, owns}
use presslabz.Access.Policy.{
  scheduled, default_access, read, update, can_perform, can_read_document, is_public_status,
}
use presslabz.Content.Listing.{ListContentsQuery, matching, is_visible, visible_to, page_of}
use presslabz.Content.Listing.Pages.{page_of-next_cursor_iff, page_of-no_cursor}
use presslabz.Content.Listing.Visible.{
  resource_of, can_read_document-is_visible, is_visible-unreadable,
}
use presslabz.Content.Tests.{about, site}

abbrev query : ListContentsQuery
query = record {
  type = "page";
  locale = "en";
  statuses = none;
  visible_to = none;
  limit = none;
  after = none;
}

abbrev writer : Actor
writer = record { capabilities = capabilities_for author; id = some 7 }

abbrev reader : Actor
reader = record { capabilities = capabilities_for subscriber; id = some 7 }

page_of-next_cursor_iff_example :
    ((page_of query 1 site.contents).next_cursor ≢ none)
    ↔ (1 < length (matching query site.contents))
page_of-next_cursor_iff_example =
    page_of-next_cursor_iff query site.contents 1 (omega arith) (omega arith)

page_of-no_cursor_example : (page_of query 100 site.contents).next_cursor ≡ none
page_of-no_cursor_example = page_of-no_cursor query site.contents 100 refl

opens : can_read_document default_access writer (resource_of about) ≡ true
unfolding can_read_document is_public_status can_perform default_access allows owns includes
    capabilities_for decide
opens = refl

can_read_document-is_visible_example : is_visible (visible_to default_access writer) about ≡ true
can_read_document-is_visible_example =
    can_read_document-is_visible default_access writer about opens

may_read : can_perform default_access read writer none ≡ true
unfolding can_perform default_access allows owns includes capabilities_for decide
may_read = refl

declares : (default_access update).own ≡ some content_update_own
unfolding default_access
declares = refl

holds : includes writer.capabilities content_update_own ≡ true
unfolding includes capabilities_for decide
holds = refl

lists : is_visible (visible_to default_access writer) about ≡ true
unfolding is_visible visible_to can_perform default_access allows owns includes capabilities_for
    decide
lists = refl

may_not_update : can_perform default_access update reader (some 7) ≡ false
unfolding can_perform default_access allows owns includes capabilities_for decide
may_not_update = refl

not_public : is_public_status scheduled ≡ false
unfolding is_public_status
not_public = refl

is_visible-unreadable_example :
    (is_visible (visible_to default_access reader) about ≡ true)
    × (can_read_document default_access reader (resource_of about) ≡ false)
is_visible-unreadable_example =
    is_visible-unreadable default_access reader about 7 refl refl not_public may_not_update
