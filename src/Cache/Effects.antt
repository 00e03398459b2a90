-- ===== src/Cache/Effects.antt =====
-- packages/cache/src/store.ts: what a script that works on one page leaves as it was for the
-- others. `horizon` is the longest that a page is kept, in milliseconds.
use presslabz.Base.{
  str_eq_eq, ℕ, ◌+◌, ◌*◌, ◌≤◌, ◌≡◌, refl, sym, ◌∙◌, ap, subst, inl, inr, false, List, [], ◌∷◌,
  String, str_eq, if◌then◌else◌, In, Bool-cases, arith,
}
use presslabz.Cache.Valkey.{
  Key, page_key, page_tags, tag_key, stamp_key, same_key, absent, payload, Entry, smembers,
  with_member, without_member, kept_until, Valkey,
}
use presslabz.Cache.Entries.{
  Lasts, IsSetLike, at_own, In-without_member, In-with_member, Lasts-without_member,
  Lasts-with_member, Lasts-kept_until, smembers-kept_until, IsSetLike-with_member,
  IsSetLike-without_member, IsSetLike-kept_until,
}
use presslabz.Cache.Store.{leave_tags, join_tags, forget_page, file_page}

module _ (valkey : Valkey) (horizon : ℕ) where
  open valkey use {
    Server, now, entry, set_ex, del, sadd, srem, expire, entry-set_ex, entry-del, entry-sadd,
    entry-srem, entry-expire, now-set_ex, now-del, now-sadd, now-srem, now-expire,
  }

  pub record Spares (key : String) (s s' : Server) : Type 0 where
    pub clock : now s' ≡ now s
    pub pages : (k : String) → str_eq key k ≡ false → entry (page_key k) s' ≡ entry (page_key k) s
    pub owned : (k : String) → str_eq key k ≡ false → entry (page_tags k) s' ≡ entry (page_tags k) s
    pub stamps : (t : String) → entry (stamp_key t) s' ≡ entry (stamp_key t) s
    pub members :
        (k t : String)
        → str_eq k key ≡ false
        → In k (smembers (entry (tag_key t) s))
        → In k (smembers (entry (tag_key t) s'))
    pub lasts :
        (u : ℕ) (t : String)
        → u ≤ now s + horizon
        → Lasts u (entry (tag_key t) s)
        → Lasts u (entry (tag_key t) s')
    pub sets : (t : String) → IsSetLike (entry (tag_key t) s) → IsSetLike (entry (tag_key t) s')

  pub Spares-refl : (key : String) (s : Server) → Spares key s s
  Spares-refl key s = record {
    clock = refl;
    pages = λ k d. refl;
    owned = λ k d. refl;
    stamps = λ t. refl;
    members = λ k t d m. m;
    lasts = λ u t b h. h;
    sets = λ t h. h;
  }

  pub Spares-trans :
      (key : String) (a b c : Server) → Spares key a b → Spares key b c → Spares key a c
  Spares-trans key a b c f g = record {
    clock = g.clock ∙ f.clock;
    pages = λ k d. g.pages k d ∙ f.pages k d;
    owned = λ k d. g.owned k d ∙ f.owned k d;
    stamps = λ t. g.stamps t ∙ f.stamps t;
    members = λ k t d m. g.members k t d (f.members k t d m);
    lasts = λ u t b h. g.lasts u t (subst (λ n. u ≤ n + horizon) (sym f.clock) b) (f.lasts u t b h);
    sets = λ t h. g.sets t (f.sets t h);
  }

  -- A property of a tag's entry, from the law of a command that changed one tag's.
  pub tag-changed :
      (P : Entry → Type 0) (t' t : String) (s s' : Server) (f : Entry → Entry)
      → entry (tag_key t) s'
        ≡ (if str_eq t' t then f (entry (tag_key t') s) else entry (tag_key t) s)
      → P (f (entry (tag_key t) s))
      → P (entry (tag_key t) s)
      → P (entry (tag_key t) s')
  tag-changed P t' t s s' f law changed same = elim (Bool-cases (str_eq t' t)) [
    | inl e ↦
        subst P (sym (rw e at law))
          (subst (λ x. P (f (entry (tag_key x) s))) (sym (str_eq_eq t' t e)) changed)
    | inr e ↦ subst P (sym (rw e at law)) same
  ]

  srem-Spares : (key t : String) (s : Server) → Spares key s (srem (tag_key t) key s)
  srem-Spares key t s = record {
    clock = now-srem (tag_key t) key s;
    pages = λ k d. entry-srem (tag_key t) key s (page_key k);
    owned = λ k d. entry-srem (tag_key t) key s (page_tags k);
    stamps = λ t'. entry-srem (tag_key t) key s (stamp_key t');
    members = λ k t' d m.
        tag-changed (λ e. In k (smembers e)) t t' s _ (without_member key)
          (entry-srem (tag_key t) key s (tag_key t')) (In-without_member k key _ d m) m;
    lasts = λ u t' b h.
        tag-changed (Lasts u) t t' s _ (without_member key)
          (entry-srem (tag_key t) key s (tag_key t')) (Lasts-without_member u key _ h) h;
    sets = λ t' h.
        tag-changed IsSetLike t t' s _ (without_member key)
          (entry-srem (tag_key t) key s (tag_key t')) (IsSetLike-without_member key _ h) h;
  }

  sadd-Spares : (key t : String) (s : Server) → Spares key s (sadd (tag_key t) key s)
  sadd-Spares key t s = record {
    clock = now-sadd (tag_key t) key s;
    pages = λ k d. entry-sadd (tag_key t) key s (page_key k);
    owned = λ k d. entry-sadd (tag_key t) key s (page_tags k);
    stamps = λ t'. entry-sadd (tag_key t) key s (stamp_key t');
    members = λ k t' d m.
        tag-changed (λ e. In k (smembers e)) t t' s _ (with_member key)
          (entry-sadd (tag_key t) key s (tag_key t')) (In-with_member k key _ m) m;
    lasts = λ u t' b h.
        tag-changed (Lasts u) t t' s _ (with_member key) (entry-sadd (tag_key t) key s (tag_key t'))
          (Lasts-with_member u key _ h) h;
    sets = λ t' h.
        tag-changed IsSetLike t t' s _ (with_member key) (entry-sadd (tag_key t) key s (tag_key t'))
          (IsSetLike-with_member key _ h) h;
  }

  expire-Spares :
      (key t : String) (seconds : ℕ) (s : Server)
      → horizon ≤ 1000 * seconds
      → Spares key s (expire (tag_key t) seconds s)
  expire-Spares key t seconds s long = record {
    clock = now-expire (tag_key t) seconds s;
    pages = λ k d. entry-expire (tag_key t) seconds s (page_key k);
    owned = λ k d. entry-expire (tag_key t) seconds s (page_tags k);
    stamps = λ t'. entry-expire (tag_key t) seconds s (stamp_key t');
    members = λ k t' d m.
        tag-changed (λ e. In k (smembers e)) t t' s _ (kept_until (now s + 1000 * seconds))
          (entry-expire (tag_key t) seconds s (tag_key t'))
          (subst (In k) (sym (smembers-kept_until (now s + 1000 * seconds) (entry (tag_key t') s)))
            m)
          m;
    lasts = λ u t' b h.
        tag-changed (Lasts u) t t' s _ (kept_until (now s + 1000 * seconds))
          (entry-expire (tag_key t) seconds s (tag_key t')) (Lasts-kept_until u _ _ (omega arith))
          h;
    sets = λ t' h.
        tag-changed IsSetLike t t' s _ (kept_until (now s + 1000 * seconds))
          (entry-expire (tag_key t) seconds s (tag_key t')) (IsSetLike-kept_until _ _ h) h;
  }

  -- A command on a key of the page's own.
  page_key-Spares :
      (key : String) (s s' : Server) (e : Entry)
      → now s' ≡ now s
      → ((k : Key) → entry k s' ≡ (if same_key (page_key key) k then e else entry k s))
      → Spares key s s'
  page_key-Spares key s s' e clock law = record {
    clock = clock;
    pages = λ k d. law (page_key k) ∙ ap (λ b. if b then e else entry (page_key k) s) d;
    owned = λ k d. law (page_tags k);
    stamps = λ t. law (stamp_key t);
    members = λ k t d m. subst (λ x. In k (smembers x)) (sym (law (tag_key t))) m;
    lasts = λ u t b h. subst (Lasts u) (sym (law (tag_key t))) h;
    sets = λ t h. subst IsSetLike (sym (law (tag_key t))) h;
  }

  page_tags-Spares :
      (key : String) (s s' : Server) (e : Entry)
      → now s' ≡ now s
      → ((k : Key) → entry k s' ≡ (if same_key (page_tags key) k then e else entry k s))
      → Spares key s s'
  page_tags-Spares key s s' e clock law = record {
    clock = clock;
    pages = λ k d. law (page_key k);
    owned = λ k d. law (page_tags k) ∙ ap (λ b. if b then e else entry (page_tags k) s) d;
    stamps = λ t. law (stamp_key t);
    members = λ k t d m. subst (λ x. In k (smembers x)) (sym (law (tag_key t))) m;
    lasts = λ u t b h. subst (Lasts u) (sym (law (tag_key t))) h;
    sets = λ t h. subst IsSetLike (sym (law (tag_key t))) h;
  }

  pub leave_tags-Spares :
      (key : String) (ts : List String) (s : Server) → Spares key s (leave_tags valkey key ts s)
  unfolding leave_tags
  leave_tags-Spares key [] s = Spares-refl key s
  leave_tags-Spares key (t ∷ ts) s =
      Spares-trans key s _ _ (srem-Spares key t s)
        (leave_tags-Spares key ts (srem (tag_key t) key s))

  pub join_tags-Spares :
      (key : String) (seconds : ℕ) (ts : List String) (s : Server)
      → horizon ≤ 1000 * seconds
      → Spares key s (join_tags valkey key seconds ts s)
  unfolding join_tags
  join_tags-Spares key seconds [] s long = Spares-refl key s
  join_tags-Spares key seconds (t ∷ ts) s long =
      let added = sadd (tag_key t) key s in
      let kept = expire (tag_key t) seconds added in
      let own = sadd (page_tags key) t kept in
      Spares-trans key s own _
        (Spares-trans key s kept own
          (Spares-trans key s added kept (sadd-Spares key t s)
            (expire-Spares key t seconds added long))
          (page_tags-Spares key kept own _ (now-sadd (page_tags key) t kept)
            (entry-sadd (page_tags key) t kept)))
        (join_tags-Spares key seconds ts own long)

  -- The page with no tags left, as both scripts make it first.
  abbrev pub untagged : String → Server → Server
  untagged key s =
      del (page_tags key) (leave_tags valkey key (smembers (entry (page_tags key) s)) s)

  pub untagged-Spares : (key : String) (s : Server) → Spares key s (untagged key s)
  untagged-Spares key s =
      let left = leave_tags valkey key (smembers (entry (page_tags key) s)) s in
      Spares-trans key s left (untagged key s)
        (leave_tags-Spares key (smembers (entry (page_tags key) s)) s)
        (page_tags-Spares key left _ _ (now-del (page_tags key) left)
          (entry-del (page_tags key) left))

  pub forget_page-Spares : (key : String) (s : Server) → Spares key s ((forget_page valkey key s).1)
  unfolding forget_page
  forget_page-Spares key s =
      let u = untagged key s in
      Spares-trans key s u _ (untagged-Spares key s)
        (page_key-Spares key u _ _ (now-del (page_key key) u) (entry-del (page_key key) u))

  pub forget_page-gone :
      (key : String) (s : Server) → entry (page_key key) ((forget_page valkey key s).1) ≡ absent
  unfolding forget_page
  forget_page-gone key s = at_own key _ _ _ (entry-del (page_key key) _ (page_key key))

  -- The page written, before it joins its tags.
  abbrev pub written : String → String → ℕ → Server → Server
  written key text seconds s = set_ex (page_key key) (payload text) seconds (untagged key s)

  pub written-Spares :
      (key text : String) (seconds : ℕ) (s : Server) → Spares key s (written key text seconds s)
  written-Spares key text seconds s =
      let u = untagged key s in
      Spares-trans key s u _ (untagged-Spares key s) (
        page_key-Spares key u _ _ (now-set_ex (page_key key) (payload text) seconds u)
          (entry-set_ex (page_key key) (payload text) seconds u))

  pub file_page-Spares :
      (key : String) (tags : List String) (text : String) (seconds set_seconds : ℕ) (s : Server)
      → horizon ≤ 1000 * set_seconds
      → Spares key s (file_page valkey key tags text seconds set_seconds s)
  unfolding file_page
  file_page-Spares key tags text seconds set_seconds s long =
      let w = written key text seconds s in
      let joined = join_tags valkey key set_seconds tags w in
      Spares-trans key s joined _
        (Spares-trans key s w joined (written-Spares key text seconds s)
          (join_tags-Spares key set_seconds tags w long))
        (page_tags-Spares key joined _ _ (now-expire (page_tags key) set_seconds joined)
          (entry-expire (page_tags key) set_seconds joined))
