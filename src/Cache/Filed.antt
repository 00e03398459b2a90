-- ===== src/Cache/Filed.antt =====
-- packages/cache/src/store.ts: the state of a page right after `STORE_LUA` wrote it.
use presslabz.Base.{ℕ, ◌+◌, ◌*◌, ◌≤◌, ◌≡◌, sym, ◌∙◌, ap, subst, inl, inr, List, String, In}
use presslabz.Cache.Valkey.{
  page_key, page_tags, tag_key, payload, absent, holds, smembers, kept_until, Valkey,
}
use presslabz.Cache.Entries.{Lasts, IsSetLike, at_own, Lasts-kept_until, smembers-kept_until}
use presslabz.Cache.Effects.{untagged, untagged-Spares, written, written-Spares}
use presslabz.Cache.Filing.{
  Carries, join_tags-Carries, join_tags-own, join_tags-own_In, join_tags-page, join_tags-clock,
}
use presslabz.Cache.Store.{join_tags, file_page}

module _ (valkey : Valkey) where
  open valkey use {Server, now, entry, entry-set_ex, entry-del, entry-expire, now-expire}

  written-own :
      (key text : String) (seconds : ℕ) (s : Server)
      → entry (page_tags key) (written valkey 0 key text seconds s) ≡ absent
  written-own key text seconds s =
      entry-set_ex (page_key key) (payload text) seconds (untagged valkey 0 key s) (page_tags key)
      ∙ at_own key _ _ _ (entry-del (page_tags key) _ (page_tags key))

  written-page :
      (key text : String) (seconds : ℕ) (s : Server)
      → entry (page_key key) (written valkey 0 key text seconds s)
        ≡ holds (payload text) (now s + 1000 * seconds)
  written-page key text seconds s =
      at_own key _ _ _ (
        entry-set_ex (page_key key) (payload text) seconds (untagged valkey 0 key s) (page_key key))
      ∙ ap (λ n. holds (payload text) (n + 1000 * seconds)) ((untagged-Spares valkey 0 key s).clock)

  module _ (key : String) (tags : List String) (text : String) (seconds set_seconds : ℕ)
      (s : Server) where
    abbrev filed : Server
    filed = file_page valkey key tags text seconds set_seconds s

    pub file_page-page : entry (page_key key) filed ≡ holds (payload text) (now s + 1000 * seconds)
    unfolding file_page
    file_page-page =
        entry-expire (page_tags key) set_seconds _ (page_key key)
        ∙ (join_tags-page valkey key set_seconds tags (written valkey 0 key text seconds s) key
            ∙ written-page key text seconds s)

    filed-own :
        entry (page_tags key) filed
        ≡ kept_until (now s + 1000 * set_seconds) (
            entry
              (page_tags key)
              (join_tags valkey key set_seconds tags (written valkey 0 key text seconds s)))
    unfolding file_page
    filed-own =
        at_own key _ _ _ (entry-expire (page_tags key) set_seconds _ (page_tags key))
        ∙ ap
            (λ n. kept_until (n + 1000 * set_seconds) (
              entry (page_tags key)
                (join_tags valkey key set_seconds tags (written valkey 0 key text seconds s))))
            (join_tags-clock valkey key set_seconds tags (written valkey 0 key text seconds s)
              ∙ (written-Spares valkey 0 key text seconds s).clock)

    pub file_page-Lasts :
        (u : ℕ) → u ≤ now s + 1000 * set_seconds → Lasts u (entry (page_tags key) filed)
    file_page-Lasts u b = subst (Lasts u) (sym filed-own) (
        Lasts-kept_until u (now s + 1000 * set_seconds)
          (entry (page_tags key)
            (join_tags valkey key set_seconds tags (written valkey 0 key text seconds s)))
          b)

    filed-members :
        smembers (entry (page_tags key) filed)
        ≡ smembers (
            entry
              (page_tags key)
              (join_tags valkey key set_seconds tags (written valkey 0 key text seconds s)))
    filed-members =
        ap smembers filed-own
        ∙ smembers-kept_until (now s + 1000 * set_seconds) (
            entry (page_tags key)
              (join_tags valkey key set_seconds tags (written valkey 0 key text seconds s)))

    pub file_page-own : (t : String) → In t (smembers (entry (page_tags key) filed)) → In t tags
    file_page-own t m =
        elim (join_tags-own valkey key set_seconds tags (written valkey 0 key text seconds s) t
          (subst (In t) filed-members m)) [
            | inl n ↦ elim (subst (λ e. In t (smembers e)) (written-own key text seconds s) n) [ ]
            | inr n ↦ n
          ]

    pub file_page-own_In : (t : String) → In t tags → In t (smembers (entry (page_tags key) filed))
    file_page-own_In t m = subst (In t) (sym filed-members) (
        join_tags-own_In valkey key set_seconds tags (written valkey 0 key text seconds s) t (inr m)
          (subst IsSetLike (sym (written-own key text seconds s)) tt))

    pub file_page-Carries :
        (u : ℕ) (t : String)
        → u ≤ now s + 1000 * set_seconds
        → ((t' : String) → IsSetLike (entry (tag_key t') s))
        → In t tags
        → Carries valkey key u t filed
    unfolding file_page
    file_page-Carries u t b h m =
        let w = written valkey 0 key text seconds s in
        let spares = written-Spares valkey 0 key text seconds s in
        let joined = join_tags valkey key set_seconds tags w in
        let c =
          join_tags-Carries valkey key set_seconds tags w u t
            (subst (λ n. u ≤ n + 1000 * set_seconds) (sym spares.clock) b)
            (λ t'. spares.sets t' (h t')) m in
        let law = entry-expire (page_tags key) set_seconds joined (tag_key t) in
        record {
          member = subst (λ e. In key (smembers e)) (sym law) c.member;
          lasts = subst (Lasts u) (sym law) c.lasts;
        }
