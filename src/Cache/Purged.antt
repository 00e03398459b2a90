-- ===== src/Cache/Purged.antt =====
-- packages/cache/src/store.ts: after `PURGE_LUA` no page that carried one of the tags is there.
use presslabz.Base.{
  str_eq_eq, str_eq_refl, ℕ, ◌+◌, ◌*◌, ◌≤◌, ◌≡◌, refl, sym, ◌∙◌, ap, subst, inl, inr, true, false,
  List, [], ◌∷◌, String, str_eq, if◌then◌else◌, In, Bool-cases,
}
use presslabz.Cache.Valkey.{
  page_key, page_tags, tag_key, stamp_key, payload, stamp, absent, holds, get, smembers, Valkey,
}
use presslabz.Cache.Entries.{Lasts, IsSetLike, In_head}
use presslabz.Cache.Instants.{gone}
use presslabz.Cache.Effects.{forget_page-Spares, forget_page-gone}
use presslabz.Cache.Coherence.{IsFiled, IsCoherent, forget_pages-IsCoherent}
use presslabz.Cache.Store.{Json, PageCacheOptions, ttl, forget_page, forget_pages, purge_tag}

differ : (a b : String) → str_eq a b ≡ false → b ≡ a → ⊥
differ a b d e =
    let same : str_eq a b ≡ true = subst (λ x. str_eq a x ≡ true) (sym e) (str_eq_refl a) in cc

module _ (valkey : Valkey) where
  open valkey use {Server, now, entry, del, set_ex, entry-del, entry-set_ex, now-del, now-set_ex}

  -- A page that is there after pages were forgotten was there before, with the tags that it has,
  -- and is none of them.
  pub record Survived (keys : List String) (s s' : Server) (k : String) : Type 0 where
    pub page : entry (page_key k) s' ≡ entry (page_key k) s
    pub owned : entry (page_tags k) s' ≡ entry (page_tags k) s
    pub other : In k keys → ⊥

  pub forget_pages-Survived :
      (keys : List String) (s : Server) (k text : String) (u : ℕ)
      → entry (page_key k) ((forget_pages valkey keys s).1) ≡ holds (payload text) u
      → Survived keys s ((forget_pages valkey keys s).1) k
  unfolding forget_pages
  forget_pages-Survived [] s k text u e = record {
    page = refl;
    owned = refl;
    other = λ m. elim m [ ];
  }
  forget_pages-Survived (key ∷ keys) s k text u e =
      let next = (forget_page valkey key s).1 in
      let later = forget_pages-Survived keys next k text u e in
      let spares = forget_page-Spares valkey 0 key s in
      elim (Bool-cases (str_eq key k)) [
        | inl d ↦
            let there_still : entry (page_key k) next ≡ holds (payload text) u =
              sym later.page ∙ e in
            absurd (
              gone (
                sym (forget_page-gone valkey 0 key s)
                ∙ (ap (λ x. entry (page_key x) next) (str_eq_eq key k d) ∙ there_still)))
        | inr d ↦ record {
          page = later.page ∙ spares.pages k d;
          owned = later.owned ∙ spares.owned k d;
          other = λ m. elim (In_head k key keys m) [
            | inl n ↦ later.other n
            | inr same ↦ differ key k d same
          ];
        }
      ]

  pub forget_pages-clock :
      (keys : List String) (s : Server) → now ((forget_pages valkey keys s).1) ≡ now s
  unfolding forget_pages
  forget_pages-clock [] s = refl
  forget_pages-clock (key ∷ keys) s =
      forget_pages-clock keys ((forget_page valkey key s).1)
      ∙ (forget_page-Spares valkey 0 key s).clock

  pub forget_pages-stamps :
      (keys : List String) (s : Server) (t : String)
      → entry (stamp_key t) ((forget_pages valkey keys s).1) ≡ entry (stamp_key t) s
  unfolding forget_pages
  forget_pages-stamps [] s t = refl
  forget_pages-stamps (key ∷ keys) s t =
      forget_pages-stamps keys ((forget_page valkey key s).1) t
      ∙ (forget_page-Spares valkey 0 key s).stamps t

  module _ (seconds : ℕ) (tag : String) (s : Server) where
    abbrev forgotten : Server
    forgotten = (forget_pages valkey (smembers (entry (tag_key tag) s)) s).1

    abbrev purged : Server
    purged = (purge_tag valkey seconds tag s).1

    purged-page : (k : String) → entry (page_key k) purged ≡ entry (page_key k) forgotten
    unfolding purge_tag
    purged-page k =
        entry-set_ex (stamp_key tag) (stamp (now s)) seconds _ (page_key k)
        ∙ entry-del (tag_key tag) forgotten (page_key k)

    purged-own : (k : String) → entry (page_tags k) purged ≡ entry (page_tags k) forgotten
    unfolding purge_tag
    purged-own k =
        entry-set_ex (stamp_key tag) (stamp (now s)) seconds _ (page_tags k)
        ∙ entry-del (tag_key tag) forgotten (page_tags k)

    purged-members :
        (t : String)
        → entry (tag_key t) purged ≡ (if str_eq tag t then absent else entry (tag_key t) forgotten)
    unfolding purge_tag
    purged-members t =
        entry-set_ex (stamp_key tag) (stamp (now s)) seconds _ (tag_key t)
        ∙ entry-del (tag_key tag) forgotten (tag_key t)

    emptied-clock : now (del (tag_key tag) forgotten) ≡ now s
    emptied-clock =
        now-del (tag_key tag) forgotten ∙ forget_pages-clock (smembers (entry (tag_key tag) s)) s

    emptied-stamp :
        (t : String) → entry (stamp_key t) (del (tag_key tag) forgotten) ≡ entry (stamp_key t) s
    emptied-stamp t =
        entry-del (tag_key tag) forgotten (stamp_key t)
        ∙ forget_pages-stamps (smembers (entry (tag_key tag) s)) s t

    pub purge_tag-stamp :
        (t : String)
        → entry (stamp_key t) purged ≡ (
            if str_eq tag t
            then holds (stamp (now s)) (now s + 1000 * seconds)
            else entry (stamp_key t) s)
    unfolding purge_tag
    purge_tag-stamp t =
        entry-set_ex (stamp_key tag) (stamp (now s)) seconds (del (tag_key tag) forgotten)
          (stamp_key t)
        ∙ (λ i.
            if str_eq tag t
            then holds (stamp (now s)) (emptied-clock i + 1000 * seconds)
            else emptied-stamp t i)

    pub purge_tag-clock : now purged ≡ now s
    unfolding purge_tag
    purge_tag-clock = now-set_ex (stamp_key tag) (stamp (now s)) seconds _ ∙ emptied-clock

    pub purge_tag-Survived :
        (k text : String) (u : ℕ)
        → entry (page_key k) purged ≡ holds (payload text) u
        → Survived (smembers (entry (tag_key tag) s)) s purged k
    purge_tag-Survived k text u e =
        let f =
          forget_pages-Survived (smembers (entry (tag_key tag) s)) s k text u
            (sym (purged-page k) ∙ e) in
        record { page = purged-page k ∙ f.page; owned = purged-own k ∙ f.owned; other = f.other }

    module _ (json : Json) (options : PageCacheOptions) (c : IsCoherent valkey json options s) where
      -- A page that is there does not carry the tag.
      pub purge_tag-untagged :
          (k text : String) (u : ℕ)
          → entry (page_key k) purged ≡ holds (payload text) u
          → In tag (smembers (entry (page_tags k) purged))
          → ⊥
      purge_tag-untagged k text u e m =
          let v = purge_tag-Survived k text u e in
          let before = c.filed k text u (sym v.page ∙ e) in
          v.other ((before.carries tag (subst (λ x. In tag (smembers x)) v.owned m)).member)

      other_tag :
          (k text : String) (u : ℕ)
          → entry (page_key k) purged ≡ holds (payload text) u
          → (t : String) → In t (smembers (entry (page_tags k) purged))
          → str_eq tag t ≡ false
      other_tag k text u e t m = elim (Bool-cases (str_eq tag t)) [
        | inr d ↦ d
        | inl d ↦ absurd (
            purge_tag-untagged k text u e (
              subst (λ x. In x (smembers (entry (page_tags k) purged))) (sym (str_eq_eq tag t d))
                m))
      ]

      purged-IsFiled :
          (k text : String) (u : ℕ)
          → entry (page_key k) purged ≡ holds (payload text) u
          → IsFiled valkey json options k text u purged
      purged-IsFiled k text u e =
          let f =
            (forget_pages-IsCoherent valkey json options (smembers (entry (tag_key tag) s)) s
                c).filed
              k text u (sym (purged-page k) ∙ e) in
          record {
            bound =
                subst (λ n. u ≤ n + 1000 * ttl options)
                  (forget_pages-clock (smembers (entry (tag_key tag) s)) s ∙ sym purge_tag-clock)
                  f.bound;
            lasts = subst (Lasts u) (sym (purged-own k)) f.lasts;
            carries = λ t m.
                let kept = f.carries t (subst (λ x. In t (smembers x)) (purged-own k) m) in
                let same = sym (
                  purged-members t
                  ∙ ap (λ b. if b then absent else entry (tag_key t) forgotten)
                      (other_tag k text u e t m)) in
                record {
                  member = subst (λ x. In k (smembers x)) same kept.member;
                  lasts = subst (Lasts u) same kept.lasts;
                };
            fresh = λ t m ms d stored p.
                f.fresh t (subst (λ x. In t (smembers x)) (purged-own k) m) ms
                  (ap get (
                      forget_pages-stamps (smembers (entry (tag_key tag) s)) s t
                      ∙ sym (
                          purge_tag-stamp t
                          ∙ ap
                              (λ b.
                                if b
                                then holds (stamp (now s)) (now s + 1000 * seconds)
                                else entry (stamp_key t) s)
                              (other_tag k text u e t m)))
                    ∙ d)
                  stored p;
          }

      pub purge_tag-IsCoherent : IsCoherent valkey json options purged
      purge_tag-IsCoherent = record {
        filed = purged-IsFiled;
        sets = λ t. subst IsSetLike (sym (purged-members t)) (elim (Bool-cases (str_eq tag t)) [
          | inl d ↦ rw d tt
          | inr d ↦ rw d (
              (forget_pages-IsCoherent valkey json options (smembers (entry (tag_key tag) s)) s
                  c).sets
                t)
        ]);
      }
