-- ===== src/Content/Listing.antt =====
-- The listing of documents: `listFilters`, `listContents` and `pageSize` of
-- packages/db/src/repositories/contents.ts, and the page that the route
-- apps/api/src/content/routes.ts makes of them. The cursor is opaque text to a client; here it is
-- what it decodes to. `limit` is the integer that the query's schema has let through.
pub mod Visible
pub mod Pages
use presslabz.Base.{
  ℕ, ◌+◌, Bool, true, false, ◌&&◌, ◌||◌, Option, none, some, List, [], ◌∷◌, String, str_eq, ltb,
  ◌==◌, min, max, if◌then◌else◌, any, filter, take, length,
}
use presslabz.Access.Ownership.{Uuid, Actor}
use presslabz.Access.Policy.{
  ContentStatus, draft, published, scheduled, archived, trash, AccessTable, update, can_perform,
  is_public_status,
}
use presslabz.Content.Rows.{ContentRow}

abbrev pub max_page_size : ℕ
max_page_size = 100

abbrev pub default_page_size : ℕ
default_page_size = 25

pub record Cursor : Type 0 where
  pub at : ℕ
  pub id : Uuid

pub record ListContentsQuery : Type 0 where
  pub type : String
  pub locale : String
  pub statuses : Option (List ContentStatus)
  pub visible_to : Option (Option Uuid)
  pub limit : Option ℕ
  pub after : Option Cursor

abbrev same_status : ContentStatus → ContentStatus → Bool
same_status draft draft = true
same_status published published = true
same_status scheduled scheduled = true
same_status archived archived = true
same_status trash trash = true
same_status _ _ = false

-- No statuses, or an empty list of them, filter nothing.
abbrev pub has_status : Option (List ContentStatus) → ContentStatus → Bool
has_status none status = true
has_status (some []) status = true
has_status (some (s ∷ ss)) status = any (same_status status) (s ∷ ss)

abbrev is_author : Uuid → Option Uuid → Bool
is_author id none = false
is_author id (some author) = author == id

-- Published, or written by the actor; an anonymous actor wrote nothing.
unfoldable pub is_visible : Option (Option Uuid) → ContentRow → Bool
unfolding is_public_status
is_visible none row = true
is_visible (some none) row = is_public_status row.status
is_visible (some (some author)) row = is_public_status row.status || is_author author row.author_id

unfoldable pub list_filters : ListContentsQuery → ContentRow → Bool
unfolding is_visible
list_filters query row =
    str_eq row.type query.type
    && str_eq row.locale query.locale
    && has_status query.statuses row.status
    && is_visible query.visible_to row

-- `(updated_at, id) < (at, id)`
abbrev pub is_after : Option Cursor → ContentRow → Bool
is_after none row = true
is_after (some c) row = ltb row.updated_at c.at || row.updated_at == c.at && ltb row.id c.id

-- `order by updated_at desc, id desc`
abbrev pub is_earlier : ContentRow → ContentRow → Bool
is_earlier a b = ltb b.updated_at a.updated_at || a.updated_at == b.updated_at && ltb b.id a.id

unfoldable pub insert_listed : ContentRow → List ContentRow → List ContentRow
insert_listed r [] = r ∷ []
insert_listed r (x ∷ xs) =
    let rest = insert_listed r xs in if is_earlier x r then x ∷ rest else r ∷ x ∷ xs

unfoldable pub sort_listed : List ContentRow → List ContentRow
unfolding insert_listed
sort_listed [] = []
sort_listed (r ∷ rs) = insert_listed r (sort_listed rs)

abbrev pub limit_of : Option ℕ → ℕ
limit_of none = default_page_size
limit_of (some limit) = limit

unfoldable pub page_size : Option ℕ → ℕ
page_size limit = min max_page_size (max 1 (limit_of limit))

unfoldable pub matching : ListContentsQuery → List ContentRow → List ContentRow
unfolding list_filters
matching query rows = filter (λ row. list_filters query row && is_after query.after row) rows

unfoldable pub list_contents : ListContentsQuery → List ContentRow → List ContentRow
unfolding matching sort_listed page_size
list_contents query rows = take (page_size query.limit) (sort_listed (matching query rows))

-- `page.at(-1)`
abbrev pub last : List ContentRow → Option ContentRow
last [] = none
last (x ∷ []) = some x
last (x ∷ y ∷ ys) = last (y ∷ ys)

pub record Page : Type 0 where
  pub items : List ContentRow
  pub next_cursor : Option Cursor

abbrev pub cursor_of : Option ContentRow → Option Cursor
cursor_of none = none
cursor_of (some row) = some (record { at = row.updated_at; id = row.id })

-- `visibleTo` is set unless the actor may update any document.
unfoldable pub visible_to : AccessTable → Actor → Option (Option Uuid)
unfolding can_perform
visible_to access actor = if can_perform access update actor none then none else some actor.id

-- The route asks for one row more than the page holds.
unfoldable pub page_of : ListContentsQuery → ℕ → List ContentRow → Page
unfolding list_contents
page_of query limit rows =
    let found = list_contents (record query { limit = some (limit + 1) }) rows in
    let page = take limit found in
    record {
      items = page;
      next_cursor = if ltb (length page) (length found) then cursor_of (last page) else none;
    }
