-- ===== src/Cache/Served.antt =====
-- packages/cache/src/store.ts: what a lookup finds after a store, and after a purge.
use presslabz.Base.{ℕ, ◌≡◌, refl, sym, ◌∙◌, subst, true, some, List, String, In, all}
use presslabz.Cache.Valkey.{
  PageKey, page_key, page_tags, Entry, payload, stamp, absent, holds, set_of, get, smembers, Valkey,
}
use presslabz.Cache.Filed.{file_page-page, file_page-own_In}
use presslabz.Cache.Coherence.{IsCoherent}
use presslabz.Cache.Scripts.{purge_script-Cleared}
use presslabz.Cache.Tags.{is_tag}
use presslabz.Cache.Tagging.{In-unique_tags}
use presslabz.Cache.Runs.{
  RoundTrips, IsEmpty, text, store-cases, perform-IsCoherent, perform_all-IsCoherent_from,
  perform_all-IsCoherent_empty,
}
use presslabz.Cache.Left.{Unstored, Live, perform_all-Left}
use presslabz.Cache.Refused.{purge_tags-sent}
use presslabz.Cache.Store.{
  Json, PageCacheOptions, StoreOptions, CachedPage, hit, missed, ttl, stamp_ttl, set_ttl,
  unique_tags, file_page, store, look_up, looked_up, Operation, stores, purges, perform,
  perform_all,
}

module _ (valkey : Valkey) (json : Json) (options : PageCacheOptions) (key : PageKey) where
  open valkey use {Server, now, entry}

  -- The page, while it is there, carries the tag.
  abbrev Carried : String → Server → Type 0
  Carried t s =
      (body : String) (u : ℕ)
      → Live valkey json options key s body u
      → In t (smembers (entry (page_tags key.text) s))

  abbrev Missing : Server → Type 0
  Missing s = (body : String) (u : ℕ) → Live valkey json options key s body u → ⊥

  looked_up-missed :
      (at : ℕ) (e : Entry)
      → ((body : String) (u : ℕ) → e ≡ holds (payload body) u → ⊥)
      → looked_up valkey json at (get e) ≡ missed at
  looked_up-missed at absent h = refl
  looked_up-missed at (set_of xs d) h = refl
  looked_up-missed at (holds (stamp ms) u) h = refl
  looked_up-missed at (holds (payload body) u) h = absurd (h body u refl)

  look_up-Missing : (s : Server) → Missing s → look_up valkey json key s ≡ missed (now s)
  unfolding look_up
  look_up-Missing s h = looked_up-missed (now s) (entry (page_key key.text) s) h

  purges-Missing :
      (tags : List String) (t : String) (s : Server)
      → IsCoherent valkey json options s
      → all is_tag tags ≡ true
      → In t tags
      → Carried t s
      → Missing (perform valkey json options (purges tags) s)
  unfolding perform
  purges-Missing tags t s c a m carried =
      subst (λ r. Missing r.1) (sym (purge_tags-sent valkey json options tags s a))
        (λ body u e.
          let cleared =
            purge_script-Cleared valkey json options (stamp_ttl options) (unique_tags tags) s c
              key.text body u e in
          cleared.untagged t (In-unique_tags t tags m) (
            subst (λ x. In t (smembers x)) (sym cleared.owned)
              (carried body u (sym cleared.page ∙ e))))

  module _ (cached : CachedPage) (given : StoreOptions) (s : Server) where
    -- A store that answers true filed the page.
    store-filed :
        (store valkey json options key cached given s).0 ≡ some true
        → (store valkey json options key cached given s).1
          ≡ file_page valkey key.text
              (unique_tags given.tags)
              (text valkey json options key cached given s)
              (ttl options)
              (set_ttl options)
              s
    store-filed =
        store-cases valkey json options key cached given s
          (λ r.
            r.0 ≡ some true
            → r.1
              ≡ file_page valkey key.text (unique_tags given.tags)
                  (text valkey json options key cached given s) (ttl options) (set_ttl options) s)
          (λ e. absurd (cc)) (λ e. absurd (cc)) (λ checked e. refl)

    store-Carried :
        (t : String)
        → In t given.tags
        → (store valkey json options key cached given s).0 ≡ some true
        → Carried t ((store valkey json options key cached given s).1)
    store-Carried t m e = subst (Carried t) (sym (store-filed e)) (λ body u d.
        file_page-own_In valkey key.text (unique_tags given.tags)
          (text valkey json options key cached given s) (ttl options) (set_ttl options) s t
          (In-unique_tags t given.tags m))

    performed-Carried :
        (t : String)
        → In t given.tags
        → (store valkey json options key cached given s).0 ≡ some true
        → Carried t (perform valkey json options (stores key cached given) s)
    unfolding perform
    performed-Carried t m e = store-Carried t m e

    filed-hit :
        RoundTrips json
        → look_up valkey json key (
            file_page valkey key.text
              (unique_tags given.tags)
              (text valkey json options key cached given s)
              (ttl options)
              (set_ttl options)
              s)
          ≡ hit cached (
              now (
                file_page valkey key.text
                  (unique_tags given.tags)
                  (text valkey json options key cached given s)
                  (ttl options)
                  (set_ttl options)
                  s))
    unfolding look_up
    filed-hit round =
        rw
          (file_page-page valkey key.text (unique_tags given.tags)
            (text valkey json options key cached given s) (ttl options) (set_ttl options) s)
          (rw (round (record { page = cached; stored_at = given.rendered_from })) refl)

    -- Where JSON round trips, a page that was stored is found right afterwards, as it was.
    pub look_up-store :
        RoundTrips json
        → (store valkey json options key cached given s).0 ≡ some true
        → look_up valkey json key ((store valkey json options key cached given s).1)
          ≡ hit cached (now ((store valkey json options key cached given s).1))
    look_up-store round e =
        subst (λ x. look_up valkey json key x ≡ hit cached (now x)) (sym (store-filed e))
          (filed-hit round)

  module _ (round : RoundTrips json) where
    Missing-perform_all :
        (os : List Operation) (s : Server)
        → Unstored key os
        → IsCoherent valkey json options s
        → Missing s
        → Missing (perform_all valkey json options os s)
    Missing-perform_all os s h c none_there body u e =
        let left = perform_all-Left valkey json options key round os s h c body u e in
        none_there left.body left.u left.live

    Carried-perform_all :
        (t : String) (os : List Operation) (s : Server)
        → Unstored key os
        → IsCoherent valkey json options s
        → Carried t s
        → Carried t (perform_all valkey json options os s)
    Carried-perform_all t os s h c carried body u e =
        let left = perform_all-Left valkey json options key round os s h c body u e in
        subst (In t) (sym left.owned) (carried left.body left.u left.live)

  -- A store, a purge after it, and anything before, between and behind.
  abbrev pub history :
      List Operation → Operation → List Operation → Operation → List Operation → Server → Server
  history first stored middle purge last s = perform_all valkey json options last (
      perform valkey json options purge (
        perform_all valkey json options middle
          (perform valkey json options stored (perform_all valkey json options first s))))

  -- Where JSON round trips, the namespace starts empty and no page's key ends in `:tags`: once a
  -- page is stored with a tag, and that tag is purged, no lookup finds the page until somebody
  -- stores it again, whatever other such pages are stored, whatever is purged and however much
  -- time passes, before the purge or after it.
  pub look_up-purged :
      (cached : CachedPage) (given : StoreOptions) (tags : List String) (t : String)
      (first middle last : List Operation) (s : Server)
      → RoundTrips json
      → IsEmpty valkey json options s
      → (store valkey json options key cached given (perform_all valkey json options first s)).0
        ≡ some true
      → Unstored key middle
      → Unstored key last
      → all is_tag tags ≡ true
      → In t given.tags
      → In t tags
      → let end = history first (stores key cached given) middle (purges tags) last s in
        look_up valkey json key end ≡ missed (now end)
  look_up-purged cached given tags t first middle last s round empty stored um ul a m n =
      let s0 = perform_all valkey json options first s in
      let s1 = perform valkey json options (stores key cached given) s0 in
      let s2 = perform_all valkey json options middle s1 in
      let s3 = perform valkey json options (purges tags) s2 in
      let c0 = perform_all-IsCoherent_empty valkey json options first s round empty in
      let c1 = perform-IsCoherent valkey json options round (stores key cached given) s0 c0 in
      let c2 = perform_all-IsCoherent_from valkey json options round middle s1 c1 in
      let c3 = perform-IsCoherent valkey json options round (purges tags) s2 c2 in
      look_up-Missing (perform_all valkey json options last s3) (
        Missing-perform_all round last s3 ul c3 (
          purges-Missing tags t s2 c2 a n (
            Carried-perform_all round t middle s1 um c1
              (performed-Carried cached given s0 t m stored))))
