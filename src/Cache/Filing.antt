-- ===== src/Cache/Filing.antt =====
-- packages/cache/src/store.ts: what `STORE_LUA` leaves behind for the page that it stores.
use presslabz.Base.{
  str_eq_refl, ℕ, ◌+◌, ◌*◌, ◌≤◌, ◌≡◌, refl, sym, ◌∙◌, ap, subst, ◌⊎◌, inl, inr, List, [], ◌∷◌,
  String, str_eq, if◌then◌else◌, In, here, there, Bool-cases,
}
use presslabz.Cache.Valkey.{page_key, page_tags, tag_key, smembers, with_member, kept_until, Valkey}
use presslabz.Cache.Entries.{
  Lasts, IsSetLike, In-with_member, In-with_member_self, with_member-In_only, In_head,
  Lasts-kept_until, smembers-kept_until, IsSetLike-with_member, IsSetLike-kept_until,
}
use presslabz.Cache.Effects.{tag-changed}
use presslabz.Cache.Store.{join_tags}

module _ (valkey : Valkey) where
  open valkey use {
    Server, now, entry, set_ex, del, sadd, expire, entry-set_ex, entry-del, entry-sadd,
    entry-expire, now-set_ex, now-del, now-sadd, now-expire,
  }

  -- One round of the loop over the tags.
  abbrev joined_one : String → ℕ → String → Server → Server
  joined_one key seconds t s =
      sadd (page_tags key) t (expire (tag_key t) seconds (sadd (tag_key t) key s))

  joined_one-tag :
      (key : String) (seconds : ℕ) (t : String) (s : Server) (t' : String)
      → entry (tag_key t') (joined_one key seconds t s) ≡ (
          if str_eq t t'
          then kept_until (now s + 1000 * seconds) (with_member key (entry (tag_key t) s))
          else entry (tag_key t') s)
  joined_one-tag key seconds t s t' =
      let added = sadd (tag_key t) key s in
      let kept = expire (tag_key t) seconds added in
      elim (Bool-cases (str_eq t t')) [
        | inl e ↦ rw (entry-sadd (page_tags key) t kept (tag_key t')) (
            rw (entry-expire (tag_key t) seconds added (tag_key t')) (
              rw e (
                rw (now-sadd (tag_key t) key s)
                  (rw (entry-sadd (tag_key t) key s (tag_key t)) (rw (str_eq_refl t) refl)))))
        | inr e ↦ rw (entry-sadd (page_tags key) t kept (tag_key t')) (
            rw (entry-expire (tag_key t) seconds added (tag_key t'))
              (rw e (rw (entry-sadd (tag_key t) key s (tag_key t')) (rw e refl))))
      ]

  joined_one-own :
      (key : String) (seconds : ℕ) (t : String) (s : Server)
      → entry (page_tags key) (joined_one key seconds t s) ≡ with_member t (entry (page_tags key) s)
  joined_one-own key seconds t s =
      let added = sadd (tag_key t) key s in
      let kept = expire (tag_key t) seconds added in
      rw (entry-sadd (page_tags key) t kept (page_tags key)) (
        rw (str_eq_refl key) (
          rw (entry-expire (tag_key t) seconds added (page_tags key))
            (rw (entry-sadd (tag_key t) key s (page_tags key)) refl)))

  joined_one-page :
      (key : String) (seconds : ℕ) (t : String) (s : Server) (k : String)
      → entry (page_key k) (joined_one key seconds t s) ≡ entry (page_key k) s
  joined_one-page key seconds t s k =
      let added = sadd (tag_key t) key s in
      let kept = expire (tag_key t) seconds added in
      entry-sadd (page_tags key) t kept (page_key k)
      ∙ (entry-expire (tag_key t) seconds added (page_key k)
          ∙ entry-sadd (tag_key t) key s (page_key k))

  joined_one-clock :
      (key : String) (seconds : ℕ) (t : String) (s : Server)
      → now (joined_one key seconds t s) ≡ now s
  joined_one-clock key seconds t s =
      let added = sadd (tag_key t) key s in
      let kept = expire (tag_key t) seconds added in
      now-sadd (page_tags key) t kept
      ∙ (now-expire (tag_key t) seconds added ∙ now-sadd (tag_key t) key s)

  -- What holds of a page that carries `t`, which is to be kept until `u`.
  pub record Carries (key : String) (u : ℕ) (t : String) (s : Server) : Type 0 where
    pub member : In key (smembers (entry (tag_key t) s))
    pub lasts : Lasts u (entry (tag_key t) s)

  joined_one-Carries_next :
      (key : String) (seconds : ℕ) (t : String) (s : Server) (u : ℕ) (t' : String)
      → u ≤ now s + 1000 * seconds
      → Carries key u t' s
      → Carries key u t' (joined_one key seconds t s)
  joined_one-Carries_next key seconds t s u t' b h = record {
    member =
        tag-changed valkey 0 (λ e. In key (smembers e)) t t' s _
          (λ e. kept_until (now s + 1000 * seconds) (with_member key e))
          (joined_one-tag key seconds t s t')
          (subst (In key)
            (sym (
              smembers-kept_until (now s + 1000 * seconds)
                (with_member key (entry (tag_key t') s))))
            (In-with_member key key (entry (tag_key t') s) h.member))
          h.member;
    lasts =
        tag-changed valkey 0 (Lasts u) t t' s _
          (λ e. kept_until (now s + 1000 * seconds) (with_member key e))
          (joined_one-tag key seconds t s t')
          (Lasts-kept_until u (now s + 1000 * seconds) (with_member key (entry (tag_key t') s)) b)
          h.lasts;
  }

  joined_one-Carries :
      (key : String) (seconds : ℕ) (t : String) (s : Server) (u : ℕ)
      → u ≤ now s + 1000 * seconds
      → IsSetLike (entry (tag_key t) s)
      → Carries key u t (joined_one key seconds t s)
  joined_one-Carries key seconds t s u b h =
      let law : entry (tag_key t) (joined_one key seconds t s)
          ≡ kept_until (now s + 1000 * seconds) (with_member key (entry (tag_key t) s)) =
        joined_one-tag key seconds t s t
        ∙ ap
            (λ x.
              if x
              then kept_until (now s + 1000 * seconds) (with_member key (entry (tag_key t) s))
              else entry (tag_key t) s)
            (str_eq_refl t) in
      record {
        member =
            subst (λ e. In key (smembers e)) (sym law)
              (subst (In key)
                (sym (
                  smembers-kept_until (now s + 1000 * seconds)
                    (with_member key (entry (tag_key t) s))))
                (In-with_member_self key (entry (tag_key t) s) h));
        lasts =
            subst (Lasts u) (sym law) (
              Lasts-kept_until u (now s + 1000 * seconds) (with_member key (entry (tag_key t) s))
                b);
      }

  joined_one-sets :
      (key : String) (seconds : ℕ) (t : String) (s : Server)
      → ((t' : String) → IsSetLike (entry (tag_key t') s))
      → (t' : String) → IsSetLike (entry (tag_key t') (joined_one key seconds t s))
  joined_one-sets key seconds t s h t' =
      tag-changed valkey 0 IsSetLike t t' s _
        (λ e. kept_until (now s + 1000 * seconds) (with_member key e))
        (joined_one-tag key seconds t s t')
        (IsSetLike-kept_until (now s + 1000 * seconds) (with_member key (entry (tag_key t') s))
          (IsSetLike-with_member key (entry (tag_key t') s) (h t')))
        (h t')

  pub join_tags-Carries_next :
      (key : String) (seconds : ℕ) (ts : List String) (s : Server) (u : ℕ) (t : String)
      → u ≤ now s + 1000 * seconds
      → Carries key u t s
      → Carries key u t (join_tags valkey key seconds ts s)
  unfolding join_tags
  join_tags-Carries_next key seconds [] s u t b h = h
  join_tags-Carries_next key seconds (x ∷ ts) s u t b h =
      join_tags-Carries_next key seconds ts (joined_one key seconds x s) u t
        (subst (λ n. u ≤ n + 1000 * seconds) (sym (joined_one-clock key seconds x s)) b)
        (joined_one-Carries_next key seconds x s u t b h)

  pub join_tags-Carries :
      (key : String) (seconds : ℕ) (ts : List String) (s : Server) (u : ℕ) (t : String)
      → u ≤ now s + 1000 * seconds
      → ((t' : String) → IsSetLike (entry (tag_key t') s))
      → In t ts
      → Carries key u t (join_tags valkey key seconds ts s)
  unfolding join_tags
  join_tags-Carries key seconds (x ∷ ts) s u t b h m =
      let next = joined_one key seconds x s in
      let b' = subst (λ n. u ≤ n + 1000 * seconds) (sym (joined_one-clock key seconds x s)) b in
      elim (In_head t x ts m) [
        | inl n ↦ join_tags-Carries key seconds ts next u t b' (joined_one-sets key seconds x s h) n
        | inr e ↦ join_tags-Carries_next key seconds ts next u t b' (
            subst (λ y. Carries key u y next) (sym e)
              (joined_one-Carries key seconds x s u b (h x)))
      ]
  join_tags-Carries key seconds [] s u t b h m = elim m [ ]

  pub join_tags-own :
      (key : String) (seconds : ℕ) (ts : List String) (s : Server) (x : String)
      → In x (smembers (entry (page_tags key) (join_tags valkey key seconds ts s)))
      → In x (smembers (entry (page_tags key) s)) ⊎ In x ts
  unfolding join_tags
  join_tags-own key seconds [] s x m = inl m
  join_tags-own key seconds (t ∷ ts) s x m =
      elim (join_tags-own key seconds ts (joined_one key seconds t s) x m) [
        | inr n ↦ inr (there n)
        | inl n ↦
            elim (with_member-In_only x t (entry (page_tags key) s)
              (subst (λ e. In x (smembers e)) (joined_one-own key seconds t s) n)) [
                | inl n' ↦ inl n'
                | inr e ↦ inr (subst (λ y. In x (y ∷ ts)) e here)
              ]
      ]

  pub join_tags-page :
      (key : String) (seconds : ℕ) (ts : List String) (s : Server) (k : String)
      → entry (page_key k) (join_tags valkey key seconds ts s) ≡ entry (page_key k) s
  unfolding join_tags
  join_tags-page key seconds [] s k = refl
  join_tags-page key seconds (t ∷ ts) s k =
      join_tags-page key seconds ts (joined_one key seconds t s) k
      ∙ joined_one-page key seconds t s k

  pub join_tags-own_In :
      (key : String) (seconds : ℕ) (ts : List String) (s : Server) (x : String)
      → In x (smembers (entry (page_tags key) s)) ⊎ In x ts
      → IsSetLike (entry (page_tags key) s)
      → In x (smembers (entry (page_tags key) (join_tags valkey key seconds ts s)))
  unfolding join_tags
  join_tags-own_In key seconds [] s x m h = elim m [ inl n ↦ n | inr n ↦ elim n [ ] ]
  join_tags-own_In key seconds (t ∷ ts) s x m h =
      let own = joined_one-own key seconds t s in
      join_tags-own_In key seconds ts (joined_one key seconds t s) x
        (elim m [
          | inl n ↦ inl (
              subst (λ e. In x (smembers e)) (sym own)
                (In-with_member x t (entry (page_tags key) s) n))
          | inr n ↦ elim (In_head x t ts n) [
            | inl n' ↦ inr n'
            | inr e ↦ inl (
                subst (λ e. In x (smembers e)) (sym own)
                  (subst (λ y. In x (smembers (with_member y (entry (page_tags key) s)))) e
                    (In-with_member_self x (entry (page_tags key) s) h)))
          ]
        ])
        (subst IsSetLike (sym own) (IsSetLike-with_member t (entry (page_tags key) s) h))

  pub join_tags-clock :
      (key : String) (seconds : ℕ) (ts : List String) (s : Server)
      → now (join_tags valkey key seconds ts s) ≡ now s
  unfolding join_tags
  join_tags-clock key seconds [] s = refl
  join_tags-clock key seconds (t ∷ ts) s =
      join_tags-clock key seconds ts (joined_one key seconds t s) ∙ joined_one-clock key seconds t s
