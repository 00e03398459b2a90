-- ===== src/Cache/Scripts.antt =====
-- packages/cache/src/store.ts: `PURGE_LUA` over all its tags, and `STORE_LUA`, on a coherent cache.
use presslabz.Base.{
  ℕ, ◌+◌, ◌*◌, ◌≤◌, ◌<◌, ◌≡◌, refl, sym, ◌∙◌, ap, subst, inl, inr, true, false, some, List, [], ◌∷◌,
  String, leb, In, Bool-cases, arith, In-any,
}
use presslabz.Cache.Valkey.{
  page_key, page_tags, stamp_key, payload, stamp, holds, get, smembers, Valkey,
}
use presslabz.Cache.Entries.{In_head}
use presslabz.Cache.Effects.{file_page-Spares}
use presslabz.Cache.Filed.{file_page-page, file_page-Lasts, file_page-own, file_page-Carries}
use presslabz.Cache.Coherence.{IsFiled, IsCoherent, IsCoherent-Spares}
use presslabz.Cache.Purged.{purge_tag-Survived, purge_tag-untagged, purge_tag-IsCoherent}
use presslabz.Cache.Store.{
  Json, PageCacheOptions, StoredPage, ttl, set_ttl, purge_tag, purge_script, file_page,
  is_purged_since, is_stamped_since,
}

clash : false ≡ true → ⊥
clash e = cc

held_same : (a b : String) (x y : ℕ) → holds (payload a) x ≡ holds (payload b) y → (a ≡ b) × (x ≡ y)
held_same a b x y e = (cc, cc)

ttl-set_ttl : (options : PageCacheOptions) → 1000 * ttl options ≤ 1000 * set_ttl options
unfolding set_ttl
ttl-set_ttl options = omega arith

module _ (valkey : Valkey) (json : Json) (options : PageCacheOptions) where
  open valkey use {Server, now, entry}

  -- What a purge of the tags did to the page `k`, if it is there.
  pub record Cleared (ts : List String) (s s' : Server) (k : String) : Type 0 where
    pub page : entry (page_key k) s' ≡ entry (page_key k) s
    pub owned : entry (page_tags k) s' ≡ entry (page_tags k) s
    pub untagged : (t : String) → In t ts → In t (smembers (entry (page_tags k) s')) → ⊥

  pub purge_script-IsCoherent :
      (seconds : ℕ) (ts : List String) (s : Server)
      → IsCoherent valkey json options s
      → IsCoherent valkey json options ((purge_script valkey seconds ts s).1)
  unfolding purge_script
  purge_script-IsCoherent seconds [] s c = c
  purge_script-IsCoherent seconds (t ∷ ts) s c =
      purge_script-IsCoherent seconds ts ((purge_tag valkey seconds t s).1)
        (purge_tag-IsCoherent valkey seconds t s json options c)

  pub purge_script-Cleared :
      (seconds : ℕ) (ts : List String) (s : Server) (c : IsCoherent valkey json options s)
      (k text : String) (u : ℕ)
      → entry (page_key k) ((purge_script valkey seconds ts s).1) ≡ holds (payload text) u
      → Cleared ts s ((purge_script valkey seconds ts s).1) k
  unfolding purge_script
  purge_script-Cleared seconds [] s c k text u e = record {
    page = refl;
    owned = refl;
    untagged = λ t m n. elim m [ ];
  }
  purge_script-Cleared seconds (x ∷ ts) s c k text u e =
      let next = (purge_tag valkey seconds x s).1 in
      let later =
        purge_script-Cleared seconds ts next
          (purge_tag-IsCoherent valkey seconds x s json options c) k text u e in
      let there_next = sym later.page ∙ e in
      let first = purge_tag-Survived valkey seconds x s k text u there_next in
      record {
        page = later.page ∙ first.page;
        owned = later.owned ∙ first.owned;
        untagged = λ t m n. elim (In_head t x ts m) [
          | inl m' ↦ later.untagged t m' n
          | inr same ↦ purge_tag-untagged valkey seconds x s json options c k text u there_next (
              subst (λ y. In y (smembers (entry (page_tags k) next))) same
                (subst (λ y. In t (smembers y)) later.owned n))
        ];
      }

  is_purged_since-fresh :
      (rendered_from : ℕ) (tags : List String) (s : Server)
      → is_purged_since valkey rendered_from tags s ≡ false
      → (t : String) → In t tags
      → (ms : ℕ) → get (entry (stamp_key t) s) ≡ some (stamp ms)
      → ms < rendered_from
  unfolding is_purged_since
  is_purged_since-fresh rendered_from tags s e t m ms d = elim (Bool-cases (leb rendered_from ms)) [
    | inr h ↦ ground (arith, h)
    | inl h ↦ absurd (
        clash (
          sym e
          ∙ In-any (λ x. is_stamped_since rendered_from (get (entry (stamp_key x) s))) m (rw d h)))
  ]

  -- The page that `STORE_LUA` writes is filed, and no other page is less so.
  pub file_page-IsCoherent :
      (key : String) (tags : List String) (text : String) (rendered_from : ℕ) (s : Server)
      → ((stored : StoredPage) → json.parse text ≡ some stored → stored.stored_at ≡ rendered_from)
      → is_purged_since valkey rendered_from tags s ≡ false
      → IsCoherent valkey json options s
      → IsCoherent valkey json options
          (file_page valkey key tags text (ttl options) (set_ttl options) s)
  file_page-IsCoherent key tags text rendered_from s dated checked c =
      let long = ttl-set_ttl options in
      let spares =
        file_page-Spares valkey (1000 * ttl options) key tags text (ttl options) (set_ttl options) s
          long in
      let filed = file_page valkey key tags text (ttl options) (set_ttl options) s in
      let until = now s + 1000 * ttl options in
      let own = λ (t : String) (m : In t (smembers (entry (page_tags key) filed))).
        file_page-own valkey key tags text (ttl options) (set_ttl options) s t m in
      let it : IsFiled valkey json options key text until filed = record {
        bound = subst (λ n. until ≤ n + 1000 * ttl options) (sym spares.clock) (omega arith);
        lasts =
            file_page-Lasts valkey key tags text (ttl options) (set_ttl options) s until
              (omega (arith, long));
        carries = λ t m.
            file_page-Carries valkey key tags text (ttl options) (set_ttl options) s until t
              (omega (arith, long)) c.sets (own t m);
        fresh = λ t m ms e stored p.
            subst (λ n. ms < n) (sym (dated stored p))
              (is_purged_since-fresh rendered_from tags s checked t (own t m) ms
                (ap get (sym (spares.stamps t)) ∙ e));
      } in
      IsCoherent-Spares valkey json options key s filed spares c (λ text' u e.
        let (a, b) =
          held_same text text' until u
            (sym (file_page-page valkey key tags text (ttl options) (set_ttl options) s) ∙ e) in
        subst (λ v. IsFiled valkey json options key text' v filed) b
          (subst (λ v. IsFiled valkey json options key v until filed) a it))
