-- ===== src/Cache/Coherence.antt =====
-- packages/cache/src/store.ts: what every reachable state of the cache satisfies, page by page.
use presslabz.Base.{
  str_eq_eq, str_eq_swap, ℕ, ◌+◌, ◌*◌, ◌≤◌, ◌<◌, ◌≡◌, sym, ◌∙◌, ap, subst, inl, inr, false, some,
  List, [], ◌∷◌, String, str_eq, leb, In, Bool-cases, arith,
}
use presslabz.Cache.Valkey.{
  page_key, page_tags, tag_key, stamp_key, payload, stamp, holds, get, smembers, Valkey,
}
use presslabz.Cache.Entries.{Lasts, IsSetLike}
use presslabz.Cache.Instants.{
  at_instant-smembers, at_instant-Lasts, at_instant-holds, at_instant-IsSetLike, at_instant-get,
  gone,
}
use presslabz.Cache.Effects.{Spares, forget_page-Spares, forget_page-gone}
use presslabz.Cache.Filing.{Carries}
use presslabz.Cache.Store.{Json, PageCacheOptions, StoredPage, ttl, forget_page, forget_pages}

module _ (valkey : Valkey) (json : Json) (options : PageCacheOptions) where
  open valkey use {Server, now, entry, elapse, entry-elapse, now-elapse}

  -- The page with this text, kept until `u`: its set of tags is kept as long, it is a member of
  -- each of them, and it was rendered after the last purge of each that is remembered.
  pub record IsFiled (key text : String) (u : ℕ) (s : Server) : Type 0 where
    pub bound : u ≤ now s + 1000 * ttl options
    pub lasts : Lasts u (entry (page_tags key) s)
    pub carries :
        (t : String) → In t (smembers (entry (page_tags key) s)) → Carries valkey key u t s
    pub fresh :
        (t : String)
        → In t (smembers (entry (page_tags key) s))
        → (ms : ℕ) → get (entry (stamp_key t) s) ≡ some (stamp ms)
        → (stored : StoredPage) → json.parse text ≡ some stored
        → ms < stored.stored_at

  pub record IsCoherent (s : Server) : Type 0 where
    pub filed :
        (key text : String) (u : ℕ)
        → entry (page_key key) s ≡ holds (payload text) u
        → IsFiled key text u s
    pub sets : (t : String) → IsSetLike (entry (tag_key t) s)

  module _ (key : String) (s s' : Server)
      (spares : Spares valkey (1000 * ttl options) key s s') where
    IsFiled-Spares :
        (k text : String) (u : ℕ) → str_eq key k ≡ false → IsFiled k text u s → IsFiled k text u s'
    IsFiled-Spares k text u d f =
        let own : entry (page_tags k) s' ≡ entry (page_tags k) s = spares.owned k d in
        record {
          bound = subst (λ n. u ≤ n + 1000 * ttl options) (sym spares.clock) f.bound;
          lasts = subst (Lasts u) (sym own) f.lasts;
          carries = λ t m.
              let c = f.carries t (subst (λ e. In t (smembers e)) own m) in
              record {
                member = spares.members k t (str_eq_swap key k d) c.member;
                lasts = spares.lasts u t f.bound c.lasts;
              };
          fresh = λ t m ms e stored p.
              f.fresh t (subst (λ x. In t (smembers x)) own m) ms
                (ap get (sym (spares.stamps t)) ∙ e) stored p;
        }

    -- A script that works on one page has that page left to show.
    pub IsCoherent-Spares :
        IsCoherent s
        → ((text : String) (u : ℕ)
            → entry (page_key key) s' ≡ holds (payload text) u
            → IsFiled key text u s')
        → IsCoherent s'
    IsCoherent-Spares c own = record {
      filed = λ k text u e. elim (Bool-cases (str_eq key k)) [
        | inr d ↦ IsFiled-Spares k text u d (c.filed k text u (sym (spares.pages k d) ∙ e))
        | inl d ↦
            let same : key ≡ k = str_eq_eq key k d in
            subst (λ x. IsFiled x text u s') same
              (own text u (ap (λ x. entry (page_key x) s') same ∙ e))
      ];
      sets = λ t. spares.sets t (c.sets t);
    }

  pub forget_page-IsCoherent :
      (key : String) (s : Server) → IsCoherent s → IsCoherent ((forget_page valkey key s).1)
  forget_page-IsCoherent key s c =
      IsCoherent-Spares key s _ (forget_page-Spares valkey (1000 * ttl options) key s) c
        (λ text u e. absurd (gone (sym (forget_page-gone valkey 0 key s) ∙ e)))

  pub forget_pages-IsCoherent :
      (keys : List String) (s : Server) → IsCoherent s → IsCoherent ((forget_pages valkey keys s).1)
  unfolding forget_pages
  forget_pages-IsCoherent [] s c = c
  forget_pages-IsCoherent (key ∷ keys) s c =
      forget_pages-IsCoherent keys ((forget_page valkey key s).1) (forget_page-IsCoherent key s c)

  elapse-IsFiled :
      (ms : ℕ) (s : Server) (k text : String) (u : ℕ)
      → leb u (now s + ms) ≡ false
      → IsFiled k text u s
      → IsFiled k text u (elapse ms s)
  elapse-IsFiled ms s k text u alive f =
      let own = entry-elapse ms s (page_tags k) in
      let back : smembers (entry (page_tags k) (elapse ms s)) ≡ smembers (entry (page_tags k) s) =
        ap smembers own
        ∙ at_instant-smembers u (now s + ms) alive (entry (page_tags k) s) f.lasts in
      record {
        bound = rw (now-elapse ms s) (omega (arith, f.bound));
        lasts =
            subst (Lasts u) (sym own)
              (at_instant-Lasts u (now s + ms) alive (entry (page_tags k) s) f.lasts);
        carries = λ t m.
            let c = f.carries t (subst (In t) back m) in
            let tag = entry-elapse ms s (tag_key t) in
            record {
              member =
                  subst (In k)
                    (sym (
                      ap smembers tag
                      ∙ at_instant-smembers u (now s + ms) alive (entry (tag_key t) s) c.lasts))
                    c.member;
              lasts =
                  subst (Lasts u) (sym tag)
                    (at_instant-Lasts u (now s + ms) alive (entry (tag_key t) s) c.lasts);
            };
        fresh = λ t m n e stored p.
            f.fresh t (subst (In t) back m) n
              (at_instant-get (now s + ms) (entry (stamp_key t) s) (stamp n)
                (ap get (sym (entry-elapse ms s (stamp_key t))) ∙ e))
              stored p;
      }

  pub elapse-IsCoherent : (ms : ℕ) (s : Server) → IsCoherent s → IsCoherent (elapse ms s)
  elapse-IsCoherent ms s c = record {
    filed = λ k text u e.
        let (before, alive) =
          at_instant-holds (now s + ms) (entry (page_key k) s) (payload text) u
            (sym (entry-elapse ms s (page_key k)) ∙ e) in
        elapse-IsFiled ms s k text u alive (c.filed k text u before);
    sets = λ t.
        subst IsSetLike (sym (entry-elapse ms s (tag_key t)))
          (at_instant-IsSetLike (now s + ms) (entry (tag_key t) s) (c.sets t));
  }
