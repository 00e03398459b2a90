-- ===== src/Cache/Store.antt =====
-- packages/cache/src/store.ts: the scripts that look up, store and purge, and `createPageCache`
-- over them. Page keys are those that `pageKeyFor` returned and that do not end in `:tags`; `clear`,
-- which scans, is left out.
use Prim.Native.Nat.{Ordering}
use Prim.Native.String
use presslabz.Base.{
  ℕ, ◌+◌, Bool, true, false, Option, none, some, List, [], ◌∷◌, String, str_eq, leb, if◌then◌else◌,
  any, all,
}
use presslabz.Cache.Valkey.{
  PageKey, page_key, page_tags, tag_key, stamp_key, Value, payload, stamp, Entry, absent, get,
  smembers, Valkey,
}
use presslabz.Cache.Tags.{is_tag}

pub record CachedPage : Type 0 where
  pub body : String
  pub status : ℕ
  pub headers : List (String × String)

pub record StoredPage : Type 0 where
  pub page : CachedPage
  pub stored_at : ℕ

pub record StoreOptions : Type 0 where
  pub tags : List String
  pub rendered_from : ℕ

pub data PageLookup : Type 0 where
  hit : (page : CachedPage) (at : ℕ) → PageLookup
  missed : (at : ℕ) → PageLookup

abbrev pub at_of : PageLookup → ℕ
at_of (hit page at) = at
at_of (missed at) = at

pub record PageCacheOptions : Type 0 where
  pub ttl_seconds : Option ℕ
  pub purge_stamp_ttl_seconds : Option ℕ

-- `JSON.stringify` and `JSON.parse`; `none` is the error that it throws.
pub record Json : Type 0 where
  pub stringify : StoredPage → String
  pub parse : String → Option StoredPage

abbrev or_default : Option ℕ → ℕ → ℕ
or_default none d = d
or_default (some n) d = n

unfoldable pub ttl : PageCacheOptions → ℕ
ttl options = or_default options.ttl_seconds 3600

unfoldable pub stamp_ttl : PageCacheOptions → ℕ
stamp_ttl options = or_default options.purge_stamp_ttl_seconds 900

-- Tag sets outlive the pages in them.
unfoldable pub set_ttl : PageCacheOptions → ℕ
unfolding ttl stamp_ttl
set_ttl options = ttl options + stamp_ttl options

abbrev pub text_le : String → String → Bool
text_le a b = elim (Prim.Native.String.compare a b) [ Ordering.gt ↦ false | _ ↦ true ]

unfoldable pub insert_tag : String → List String → List String
insert_tag t [] = t ∷ []
insert_tag t (u ∷ us) = let rest = insert_tag t us in if text_le t u then t ∷ u ∷ us else u ∷ rest

-- `[...new Set(tags)].sort()`
unfoldable pub unique_tags : List String → List String
unfolding insert_tag
unique_tags [] = []
unique_tags (t ∷ ts) =
    let rest = unique_tags ts in if any (λ u. str_eq u t) ts then rest else insert_tag t rest

pub data Operation : Type 0 where
  stores : (key : PageKey) (page : CachedPage) (given : StoreOptions) → Operation
  purges : (tags : List String) → Operation
  elapses : (ms : ℕ) → Operation

-- `stamp and stamp >= renderedFrom`
abbrev pub is_stamped_since : ℕ → Option Value → Bool
is_stamped_since rendered_from (some (stamp ms)) = leb rendered_from ms
is_stamped_since rendered_from (some (payload text)) = false
is_stamped_since rendered_from none = false

module _ (valkey : Valkey) where
  open valkey use {Server, now, entry, set_ex, del, sadd, srem, expire, elapse}

  -- `STORE_LUA`, the loop over the previous tags.
  unfoldable pub leave_tags : String → List String → Server → Server
  leave_tags key [] s = s
  leave_tags key (t ∷ ts) s = leave_tags key ts (srem (tag_key t) key s)

  -- `STORE_LUA`, the loop over the tags.
  unfoldable pub join_tags : String → ℕ → List String → Server → Server
  join_tags key seconds [] s = s
  join_tags key seconds (t ∷ ts) s =
      let joined = expire (tag_key t) seconds (sadd (tag_key t) key s) in
      join_tags key seconds ts (sadd (page_tags key) t joined)

  -- `STORE_LUA`, when no tag of the page was purged meanwhile.
  unfoldable pub file_page : String → List String → String → ℕ → ℕ → Server → Server
  unfolding leave_tags join_tags
  file_page key tags text seconds set_seconds s =
      let left = leave_tags key (smembers (entry (page_tags key) s)) s in
      let written = set_ex (page_key key) (payload text) seconds (del (page_tags key) left) in
      expire (page_tags key) set_seconds (join_tags key set_seconds tags written)

  unfoldable pub is_purged_since : ℕ → List String → Server → Bool
  is_purged_since rendered_from tags s =
      any (λ t. is_stamped_since rendered_from (get (entry (stamp_key t) s))) tags

  unfoldable pub store_script : String → List String → String → ℕ → ℕ → ℕ → Server → Bool × Server
  unfolding file_page is_purged_since
  store_script key tags text seconds rendered_from set_seconds s =
      if is_purged_since rendered_from tags s
      then (false, s)
      else (true, file_page key tags text seconds set_seconds s)

  -- `DEL` returns how many keys it removed.
  abbrev removes : Entry → ℕ
  removes absent = 0
  removes _ = 1

  -- `PURGE_LUA`, one member: it leaves every tag that it has, and goes.
  unfoldable pub forget_page : String → Server → ℕ × Server
  unfolding leave_tags
  forget_page key s =
      let left = leave_tags key (smembers (entry (page_tags key) s)) s in
      let untagged = del (page_tags key) left in
      (removes (entry (page_key key) untagged), del (page_key key) untagged)

  unfoldable pub forget_pages : List String → Server → ℕ × Server
  unfolding forget_page
  forget_pages [] s = (0, s)
  forget_pages (key ∷ keys) s =
      let first = forget_page key s in
      let rest = forget_pages keys first.1 in (first.0 + rest.0, rest.1)

  -- `PURGE_LUA`, one tag: its members go, then its set, and the stamp is written whatever it had.
  unfoldable pub purge_tag : ℕ → String → Server → ℕ × Server
  unfolding forget_pages
  purge_tag seconds tag s =
      let forgotten = forget_pages (smembers (entry (tag_key tag) s)) s in
      let emptied = del (tag_key tag) forgotten.1 in
      (forgotten.0, set_ex (stamp_key tag) (stamp (now s)) seconds emptied)

  unfoldable pub purge_script : ℕ → List String → Server → ℕ × Server
  unfolding purge_tag
  purge_script seconds [] s = (0, s)
  purge_script seconds (t ∷ ts) s =
      let first = purge_tag seconds t s in
      let rest = purge_script seconds ts first.1 in (first.0 + rest.0, rest.1)

  module _ (json : Json) where
    abbrev pub found : ℕ → Option StoredPage → PageLookup
    found at none = missed at
    found at (some stored) = hit stored.page at

    -- A payload that does not parse is a miss.
    abbrev pub looked_up : ℕ → Option Value → PageLookup
    looked_up at (some (payload text)) = found at (json.parse text)
    looked_up at (some (stamp ms)) = missed at
    looked_up at none = missed at

    unfoldable pub look_up : PageKey → Server → PageLookup
    look_up key s = looked_up (now s) (get (entry (page_key key.text) s))

    module _ (options : PageCacheOptions) where
      -- `none` is the error of `assertTag`, before any command is sent.
      unfoldable pub store : PageKey → CachedPage → StoreOptions → Server → Option Bool × Server
      unfolding store_script unique_tags ttl set_ttl is_tag
      store key cached given s =
          let tags = unique_tags given.tags in
          let text = json.stringify (record { page = cached; stored_at = given.rendered_from }) in
          let run =
            store_script key.text tags text (ttl options) given.rendered_from (set_ttl options) s in
          if all is_tag tags then (some run.0, run.1) else (none, s)

      unfoldable pub purge_tags : List String → Server → Option ℕ × Server
      unfolding purge_script unique_tags stamp_ttl is_tag
      purge_tags given s =
          let tags = unique_tags given in
          let run = purge_script (stamp_ttl options) tags s in
          if all is_tag tags then (some run.0, run.1) else (none, s)

      -- What happens to the server between two looks at it.
      unfoldable pub perform : Operation → Server → Server
      unfolding store purge_tags
      perform (stores key cached given) s = (store key cached given s).1
      perform (purges tags) s = (purge_tags tags s).1
      perform (elapses ms) s = elapse ms s

      unfoldable pub perform_all : List Operation → Server → Server
      unfolding perform
      perform_all [] s = s
      perform_all (o ∷ os) s = perform_all os (perform o s)
