-- ===== src/Cache/Runs.antt =====
-- packages/cache/src/store.ts: the calls of `createPageCache` in any order, with time between them.
use presslabz.Base.{
  ℕ, ◌≡◌, sym, ◌∙◌, ap, subst, inl, inr, Bool, true, false, Option, none, some, List, [], ◌∷◌,
  String, Bool-cases, all,
}
use presslabz.Cache.Valkey.{PageKey, Key, page_key, tag_key, absent, Valkey}
use presslabz.Cache.Entries.{IsSetLike}
use presslabz.Cache.Instants.{gone}
use presslabz.Cache.Coherence.{IsCoherent, elapse-IsCoherent}
use presslabz.Cache.Scripts.{purge_script-IsCoherent, file_page-IsCoherent}
use presslabz.Cache.Kinds.{IsKind, absent-IsKind}
use presslabz.Cache.Kinds.Scripts.{IsTyped, file_page-IsTyped, purge_script-IsTyped, elapse-IsTyped}
use presslabz.Cache.Tags.{is_tag}
use presslabz.Cache.Store.{
  Json, PageCacheOptions, StoredPage, StoreOptions, CachedPage, ttl, stamp_ttl, set_ttl,
  unique_tags, is_purged_since, store, purge_tags, Operation, stores, purges, elapses, perform,
  perform_all, file_page, store_script, purge_script,
}

-- `JSON.parse` reads back what `JSON.stringify` wrote.
abbrev pub RoundTrips : Json → Type 0
RoundTrips json = (x : StoredPage) → json.parse (json.stringify x) ≡ some x

dated_by :
    (json : Json)
    → RoundTrips json
    → (x stored : StoredPage) → json.parse (json.stringify x) ≡ some stored
    → stored.stored_at ≡ x.stored_at
dated_by json round x stored e =
    let same : some x ≡ some stored = sym (round x) ∙ e in
    let eq : x ≡ stored = cc in ap (λ (y : StoredPage). y.stored_at) (sym eq)

module _ (valkey : Valkey) (json : Json) (options : PageCacheOptions) where
  open valkey use {Server, now, entry}

  module _ (key : PageKey) (cached : CachedPage) (given : StoreOptions) (s : Server) where
    abbrev pub text : String
    text = json.stringify (record { page = cached; stored_at = given.rendered_from })

    -- What a store does, in the three cases that it has.
    pub store-cases :
        (P : Option Bool × Server → Type 0)
        → P (none, s)
        → P (some false, s)
        → (is_purged_since valkey given.rendered_from (unique_tags given.tags) s ≡ false
            → P (
              some true,
              file_page valkey key.text
                  (unique_tags given.tags)
                  text
                  (ttl options)
                  (set_ttl options)
                  s,
            ))
        → P (store valkey json options key cached given s)
    unfolding store store_script
    store-cases P thrown refused written = elim (Bool-cases (all is_tag (unique_tags given.tags))) [
      | inr e ↦ rw e thrown
      | inl e ↦
          elim (Bool-cases
            (is_purged_since valkey given.rendered_from (unique_tags given.tags) s)) [
              | inl d ↦ rw e (rw d refused)
              | inr d ↦ rw e (rw d (written d))
            ]
    ]

    store-IsCoherent :
        RoundTrips json
        → IsCoherent valkey json options s
        → IsCoherent valkey json options ((store valkey json options key cached given s).1)
    store-IsCoherent round c =
        store-cases (λ r. IsCoherent valkey json options r.1) c c
          (λ checked.
            file_page-IsCoherent valkey json options key.text (unique_tags given.tags) text
              given.rendered_from s
              (dated_by json round (record { page = cached; stored_at = given.rendered_from }))
              checked c)

  pub purge_tags-cases :
      (tags : List String) (s : Server) (P : Option ℕ × Server → Type 0)
      → P (none, s)
      → P (
        some ((purge_script valkey (stamp_ttl options) (unique_tags tags) s).0),
        (purge_script valkey (stamp_ttl options) (unique_tags tags) s).1,
      )
      → P (purge_tags valkey json options tags s)
  unfolding purge_tags
  purge_tags-cases tags s P thrown done = elim (Bool-cases (all is_tag (unique_tags tags))) [
    | inl e ↦ rw e done
    | inr e ↦ rw e thrown
  ]

  pub perform-IsCoherent :
      RoundTrips json
      → (o : Operation) (s : Server) → IsCoherent valkey json options s
      → IsCoherent valkey json options (perform valkey json options o s)
  unfolding perform
  perform-IsCoherent round (stores key cached given) s c =
      store-IsCoherent key cached given s round c
  perform-IsCoherent round (purges tags) s c =
      purge_tags-cases tags s (λ r. IsCoherent valkey json options r.1) c
        (purge_script-IsCoherent valkey json options (stamp_ttl options) (unique_tags tags) s c)
  perform-IsCoherent round (elapses ms) s c = elapse-IsCoherent valkey json options ms s c

  pub perform_all-IsCoherent_from :
      RoundTrips json
      → (os : List Operation) (s : Server) → IsCoherent valkey json options s
      → IsCoherent valkey json options (perform_all valkey json options os s)
  unfolding perform_all
  perform_all-IsCoherent_from round [] s c = c
  perform_all-IsCoherent_from round (o ∷ os) s c =
      perform_all-IsCoherent_from round os (perform valkey json options o s)
        (perform-IsCoherent round o s c)

  store-IsTyped :
      (key : PageKey) (cached : CachedPage) (given : StoreOptions) (s : Server)
      → IsTyped valkey s
      → IsTyped valkey ((store valkey json options key cached given s).1)
  store-IsTyped key cached given s h =
      store-cases key cached given s (λ r. IsTyped valkey r.1) h h
        (λ checked.
          file_page-IsTyped valkey key.text key.plain (unique_tags given.tags)
            (text key cached given s) (ttl options) (set_ttl options) s h)

  pub perform-IsTyped :
      (o : Operation) (s : Server)
      → IsTyped valkey s
      → IsTyped valkey (perform valkey json options o s)
  unfolding perform
  perform-IsTyped (stores key cached given) s h = store-IsTyped key cached given s h
  perform-IsTyped (purges tags) s h =
      purge_tags-cases tags s (λ r. IsTyped valkey r.1) h
        (purge_script-IsTyped valkey (stamp_ttl options) (unique_tags tags) s h)
  perform-IsTyped (elapses ms) s h = elapse-IsTyped valkey ms s h

  pub perform_all-IsTyped :
      (os : List Operation) (s : Server)
      → IsTyped valkey s
      → IsTyped valkey (perform_all valkey json options os s)
  unfolding perform_all
  perform_all-IsTyped [] s h = h
  perform_all-IsTyped (o ∷ os) s h =
      perform_all-IsTyped os (perform valkey json options o s) (perform-IsTyped o s h)

  -- A server that has no key of the namespace.
  abbrev pub IsEmpty : Server → Type 0
  IsEmpty s = (k : Key) → entry k s ≡ absent

  empty-IsCoherent : (s : Server) → IsEmpty s → IsCoherent valkey json options s
  empty-IsCoherent s empty = record {
    filed = λ k text' u e. absurd (gone (sym (empty (page_key k)) ∙ e));
    sets = λ t. subst IsSetLike (sym (empty (tag_key t))) tt;
  }

  pub empty-IsTyped : (s : Server) → IsEmpty s → IsTyped valkey s
  empty-IsTyped s empty = λ k. subst (IsKind k) (sym (empty k)) (absent-IsKind k)

  pub perform_all-IsCoherent_empty :
      (os : List Operation) (s : Server)
      → RoundTrips json
      → IsEmpty s
      → IsCoherent valkey json options (perform_all valkey json options os s)
  perform_all-IsCoherent_empty os s round empty =
      perform_all-IsCoherent_from round os s (empty-IsCoherent s empty)

  -- Where JSON round trips, the namespace starts empty and no page's key ends in `:tags`: after
  -- any stores, purges and time, each page that is there is kept at most its ttl, is a member of
  -- each tag in its list, its list and those sets are kept as long as it is, and it was rendered
  -- from after the last purge of each of those tags that is still remembered; and each key holds
  -- a value of its own type, so that no command of a script fails for its type.
  pub perform_all-IsCoherent :
      (os : List Operation) (s : Server)
      → RoundTrips json
      → IsEmpty s
      → IsCoherent valkey json options (perform_all valkey json options os s)
        × IsTyped valkey (perform_all valkey json options os s)
  perform_all-IsCoherent os s round empty = (
    perform_all-IsCoherent_empty os s round empty,
    perform_all-IsTyped os s (empty-IsTyped s empty),
  )
