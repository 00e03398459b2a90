-- ===== src/Cache/Refused.antt =====
-- packages/cache/src/store.ts: a render that a purge overtook is not stored.
use presslabz.Base.{
  ℕ, ◌+◌, ◌*◌, ◌≤◌, ◌<◌, ◌≡◌, refl, sym, ◌∙◌, ap, subst, true, false, Option, none, some, List, [],
  ◌∷◌, String, if◌then◌else◌, leb, In, arith, all, In-any,
}
use presslabz.Cache.Valkey.{
  PageKey, page_key, stamp_key, Value, payload, stamp, absent, holds, get, at_instant, Valkey,
}
use presslabz.Cache.Effects.{file_page-Spares}
use presslabz.Cache.Tags.{is_tag}
use presslabz.Cache.Tagging.{In-unique_tags, all-unique_tags}
use presslabz.Cache.Stamps.{
  Stamped, Stamped-next, purge_script-clock, purge_script-Stamped, purge_script-Stamped_next,
}
use presslabz.Cache.Runs.{text, store-cases, purge_tags-cases, perform-IsTyped, perform_all-IsTyped}
use presslabz.Cache.Kinds.Scripts.{IsTyped}
use presslabz.Cache.Store.{
  Json, PageCacheOptions, StoreOptions, StoredPage, CachedPage, at_of, ttl, stamp_ttl, set_ttl,
  unique_tags, purge_script, is_stamped_since, is_purged_since, store_script, store, purge_tags,
  look_up, found, looked_up, Operation, stores, purges, elapses, perform, perform_all,
}

module _ (valkey : Valkey) (json : Json) (options : PageCacheOptions) where
  open valkey use {Server, now, entry, elapse, entry-elapse, now-elapse}

  perform-clock : (o : Operation) (s : Server) → now s ≤ now (perform valkey json options o s)
  unfolding perform
  perform-clock (stores key cached given) s =
      store-cases valkey json options key cached given s (λ r. now s ≤ now (r.1)) (omega arith)
        (omega arith)
        (λ h.
          let c =
            (file_page-Spares valkey 0 key.text (unique_tags given.tags)
              (text valkey json options key cached given s) (ttl options) (set_ttl options) s
              (omega arith)).clock in
          omega (arith, c))
  perform-clock (purges tags) s =
      let c = purge_script-clock valkey (stamp_ttl options) (unique_tags tags) s in
      purge_tags-cases valkey json options tags s (λ r. now s ≤ now (r.1)) (omega arith)
        (omega (arith, c))
  perform-clock (elapses ms) s = let c = now-elapse ms s in omega (arith, c)

  perform_all-clock :
      (os : List Operation) (s : Server) → now s ≤ now (perform_all valkey json options os s)
  unfolding perform_all
  perform_all-clock [] s = omega arith
  perform_all-clock (o ∷ os) s =
      let a = perform-clock o s in
      let b = perform_all-clock os (perform valkey json options o s) in omega (arith, a, b)

  module _ (t : String) (p d : ℕ) where
    elapse-Stamped :
        (ms : ℕ) (s : Server)
        → now (elapse ms s) < d
        → Stamped valkey t p d s
        → Stamped valkey t p d (elapse ms s)
    elapse-Stamped ms s early h =
        let c = now-elapse ms s in
        let alive : leb h.until (now s + ms) ≡ false = ground (arith, early, h.kept, c) in
        record {
          ms = h.ms;
          until = h.until;
          held =
              entry-elapse ms s (stamp_key t)
              ∙ (ap (at_instant (now s + ms)) h.held
                  ∙ ap (λ b. if b then absent else holds (stamp h.ms) h.until) alive);
          since = h.since;
          kept = h.kept;
        }

    perform-Stamped :
        (o : Operation) (s : Server)
        → p ≤ now s
        → d ≤ now s + 1000 * stamp_ttl options
        → now (perform valkey json options o s) < d
        → Stamped valkey t p d s
        → Stamped valkey t p d (perform valkey json options o s)
    unfolding perform
    perform-Stamped (stores key cached given) s b k early h =
        store-cases valkey json options key cached given s (λ r. Stamped valkey t p d r.1) h h
          (λ checked.
            Stamped-next valkey t p d s _
              ((file_page-Spares valkey 0 key.text (unique_tags given.tags)
                  (text valkey json options key cached given s) (ttl options) (set_ttl options) s
                  (omega arith)).stamps
                t)
              h)
    perform-Stamped (purges tags) s b k early h =
        purge_tags-cases valkey json options tags s (λ r. Stamped valkey t p d r.1) h
          (purge_script-Stamped_next valkey p d (stamp_ttl options) (unique_tags tags) t s b k h)
    perform-Stamped (elapses ms) s b k early h = elapse-Stamped ms s early h

    perform_all-Stamped :
        (os : List Operation) (s : Server)
        → p ≤ now s
        → d ≤ now s + 1000 * stamp_ttl options
        → now (perform_all valkey json options os s) < d
        → Stamped valkey t p d s
        → Stamped valkey t p d (perform_all valkey json options os s)
    unfolding perform_all
    perform_all-Stamped [] s b k early h = h
    perform_all-Stamped (o ∷ os) s b k early h =
        let next = perform valkey json options o s in
        let later = perform_all-clock os next in
        let grows = perform-clock o s in
        perform_all-Stamped os next (omega (arith, b, grows)) (omega (arith, k, grows)) early
          (perform-Stamped o s b k (omega (arith, early, later)) h)

  at_of-found : (at : ℕ) (o : Option StoredPage) → at_of (found valkey json at o) ≡ at
  at_of-found at none = refl
  at_of-found at (some stored) = refl

  at_of-looked_up : (at : ℕ) (o : Option Value) → at_of (looked_up valkey json at o) ≡ at
  at_of-looked_up at none = refl
  at_of-looked_up at (some (stamp ms)) = refl
  at_of-looked_up at (some (payload body)) = at_of-found at (json.parse body)

  at_of-look_up : (key : PageKey) (s : Server) → at_of (look_up valkey json key s) ≡ now s
  unfolding look_up
  at_of-look_up key s = at_of-looked_up (now s) (get (entry (page_key key.text) s))

  Stamped-is_purged_since :
      (t : String) (tags : List String) (rendered_from p d : ℕ) (s : Server)
      → In t tags
      → rendered_from ≤ p
      → Stamped valkey t p d s
      → is_purged_since valkey rendered_from tags s ≡ true
  unfolding is_purged_since
  Stamped-is_purged_since t tags rendered_from p d s m b h =
      let late : leb rendered_from h.ms ≡ true = ground (arith, b, h.since) in
      In-any (λ x. is_stamped_since rendered_from (get (entry (stamp_key x) s))) m (rw h.held late)

  refused :
      (key : PageKey) (cached : CachedPage) (given : StoreOptions) (s : Server)
      → all is_tag given.tags ≡ true
      → is_purged_since valkey given.rendered_from (unique_tags given.tags) s ≡ true
      → store valkey json options key cached given s ≡ (some false, s)
  unfolding store store_script
  refused key cached given s a b = rw (all-unique_tags is_tag given.tags a) (rw b refl)

  pub purge_tags-sent :
      (tags : List String) (s : Server)
      → all is_tag tags ≡ true
      → purge_tags valkey json options tags s ≡ (
        some ((purge_script valkey (stamp_ttl options) (unique_tags tags) s).0),
        (purge_script valkey (stamp_ttl options) (unique_tags tags) s).1,
      )
  unfolding purge_tags
  purge_tags-sent tags s a = rw (all-unique_tags is_tag tags a) refl

  purges-Stamped :
      (t : String) (tags : List String) (s : Server)
      → all is_tag tags ≡ true
      → In t tags
      → Stamped valkey t
          (now s)
          (now s + 1000 * stamp_ttl options)
          (perform valkey json options (purges tags) s)
  unfolding perform
  purges-Stamped t tags s a m =
      subst (λ r. Stamped valkey t (now s) (now s + 1000 * stamp_ttl options) r.1)
        (sym (purge_tags-sent tags s a))
        (purge_script-Stamped valkey (stamp_ttl options) (unique_tags tags) t s
          (In-unique_tags t tags m))

  purges-clock :
      (tags : List String) (s : Server) → now (perform valkey json options (purges tags) s) ≡ now s
  unfolding perform
  purges-clock tags s =
      purge_tags-cases valkey json options tags s (λ r. now r.1 ≡ now s) refl
        (purge_script-clock valkey (stamp_ttl options) (unique_tags tags) s)

  -- On a namespace where each key holds its own type of value, and where no page's key ends in
  -- `:tags`: a page that is looked up, and whose render collects a tag that is purged after the
  -- lookup, is not stored, whatever else happens meanwhile, as long as the purge's stamp is kept.
  -- The store answers false and leaves the server as it was, and each key still holds its type.
  pub store-overtaken :
      (key : PageKey) (cached : CachedPage) (given : StoreOptions) (tags : List String) (t : String)
      (before after : List Operation) (s : Server)
      → IsTyped valkey s
      → all is_tag given.tags ≡ true
      → all is_tag tags ≡ true
      → In t given.tags
      → In t tags
      → given.rendered_from ≡ at_of (look_up valkey json key s)
      → now (
          perform_all valkey json options after
            (perform valkey json options (purges tags) (perform_all valkey json options before s)))
        < now (perform_all valkey json options before s) + 1000 * stamp_ttl options
      → let end =
          perform_all valkey json options after (
            perform valkey json options (purges tags) (perform_all valkey json options before s)) in
        (store valkey json options key cached given end ≡ (some false, end)) × IsTyped valkey end
  store-overtaken key cached given tags t before after s typed a b m n from early =
      let s1 = perform_all valkey json options before s in
      let s2 = perform valkey json options (purges tags) s1 in
      let s3 = perform_all valkey json options after s2 in
      let c : now s2 ≡ now s1 = purges-clock tags s1 in
      let stamped =
        perform_all-Stamped t (now s1) (now s1 + 1000 * stamp_ttl options) after s2
          (omega (arith, c)) (omega (arith, c)) early (purges-Stamped t tags s1 b n) in
      let earlier = perform_all-clock before s in
      (
        refused key cached given s3 a (
            Stamped-is_purged_since t (unique_tags given.tags) given.rendered_from (now s1)
              (now s1 + 1000 * stamp_ttl options) s3 (In-unique_tags t given.tags m)
              (omega (arith, from, at_of-look_up key s, earlier)) stamped),
        perform_all-IsTyped valkey json options after s2 (
            perform-IsTyped valkey json options (purges tags) s1
              (perform_all-IsTyped valkey json options before s typed)),
      )
