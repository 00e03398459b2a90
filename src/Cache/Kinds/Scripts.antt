-- ===== src/Cache/Kinds/Scripts.antt =====
-- packages/cache/src/store.ts: the scripts leave each key with its own kind of value.
use presslabz.Base.{
  ℕ, ◌+◌, ◌*◌, ◌≡◌, sym, ◌∙◌, ap, subst, inl, inr, false, List, [], ◌∷◌, String, if◌then◌else◌,
  Bool-cases,
}
use presslabz.Cache.Valkey.{
  Key, page_key, page_tags, tag_key, stamp_key, same_key, ends_in_tags, payload, stamp, Entry,
  absent, smembers, Valkey,
}
use presslabz.Cache.Entries.{IsSetLike-with_member, IsSetLike-without_member, IsSetLike-kept_until}
use presslabz.Cache.Store.{
  leave_tags, join_tags, file_page, forget_page, forget_pages, purge_tag, purge_script,
}
use presslabz.Cache.Kinds.{
  IsKind, absent-IsKind, same_key-eq, HoldsPages-with_member, HoldsPages-without_member,
  HoldsPages-kept_until, at_instant-IsKind,
}

module _ (valkey : Valkey) where
  open valkey use {
    Server, now, entry, set_ex, del, sadd, srem, expire, elapse, entry-set_ex, entry-del,
    entry-sadd, entry-srem, entry-expire, entry-elapse,
  }

  -- Every key holds its own kind, and the tags' sets hold keys of pages.
  abbrev pub IsTyped : Server → Type 0
  IsTyped s = (k : Key) → IsKind k (entry k s)

  changed-IsTyped :
      (k : Key) (e : Entry) (s s' : Server)
      → ((k' : Key) → entry k' s' ≡ (if same_key k k' then e else entry k' s))
      → IsKind k e
      → IsTyped s
      → IsTyped s'
  changed-IsTyped k e s s' law own h = λ k'. elim (Bool-cases (same_key k k')) [
    | inl same ↦
        subst (IsKind k') (sym (law k' ∙ ap (λ b. if b then e else entry k' s) same))
          (subst (λ x. IsKind x e) (same_key-eq k k' same) own)
    | inr other ↦
        subst (IsKind k') (sym (law k' ∙ ap (λ b. if b then e else entry k' s) other)) (h k')
  ]

  del-IsTyped : (k : Key) (s : Server) → IsTyped s → IsTyped (del k s)
  del-IsTyped k s h = changed-IsTyped k absent s _ (entry-del k s) (absent-IsKind k) h

  srem-IsTyped : (t x : String) (s : Server) → IsTyped s → IsTyped (srem (tag_key t) x s)
  srem-IsTyped t x s h =
      let (a, b) = h (tag_key t) in
      changed-IsTyped (tag_key t) _ s _ (entry-srem (tag_key t) x s)
        (IsSetLike-without_member x _ a, HoldsPages-without_member x _ b) h

  leave_tags-IsTyped :
      (key : String) (ts : List String) (s : Server)
      → IsTyped s
      → IsTyped (leave_tags valkey key ts s)
  unfolding leave_tags
  leave_tags-IsTyped key [] s h = h
  leave_tags-IsTyped key (t ∷ ts) s h =
      leave_tags-IsTyped key ts (srem (tag_key t) key s) (srem-IsTyped t key s h)

  module _ (key : String) (plain : ends_in_tags key ≡ false) where
    join_one-IsTyped :
        (seconds : ℕ) (t : String) (s : Server)
        → IsTyped s
        → IsTyped (sadd (page_tags key) t (expire (tag_key t) seconds (sadd (tag_key t) key s)))
    join_one-IsTyped seconds t s h =
        let added = sadd (tag_key t) key s in
        let kept = expire (tag_key t) seconds added in
        let one : IsTyped added =
          let (a, b) = h (tag_key t) in
          changed-IsTyped (tag_key t) _ s _ (entry-sadd (tag_key t) key s)
            (IsSetLike-with_member key _ a, HoldsPages-with_member key _ plain b) h in
        let two : IsTyped kept =
          let (a, b) = one (tag_key t) in
          changed-IsTyped (tag_key t) _ added _ (entry-expire (tag_key t) seconds added)
            (
              IsSetLike-kept_until _ _ a,
              HoldsPages-kept_until (now added + 1000 * seconds) (entry (tag_key t) added) b,
            )
            one in
        changed-IsTyped (page_tags key) _ kept _ (entry-sadd (page_tags key) t kept)
          (IsSetLike-with_member t _ (two (page_tags key))) two

    join_tags-IsTyped :
        (seconds : ℕ) (ts : List String) (s : Server)
        → IsTyped s
        → IsTyped (join_tags valkey key seconds ts s)
    unfolding join_tags
    join_tags-IsTyped seconds [] s h = h
    join_tags-IsTyped seconds (t ∷ ts) s h =
        join_tags-IsTyped seconds ts _ (join_one-IsTyped seconds t s h)

    pub file_page-IsTyped :
        (tags : List String) (text : String) (seconds set_seconds : ℕ) (s : Server)
        → IsTyped s
        → IsTyped (file_page valkey key tags text seconds set_seconds s)
    unfolding file_page
    file_page-IsTyped tags text seconds set_seconds s h =
        let left = leave_tags valkey key (smembers (entry (page_tags key) s)) s in
        let untagged = del (page_tags key) left in
        let written = set_ex (page_key key) (payload text) seconds untagged in
        let joined = join_tags valkey key set_seconds tags written in
        let one : IsTyped untagged =
          del-IsTyped (page_tags key) left
            (leave_tags-IsTyped key (smembers (entry (page_tags key) s)) s h) in
        let two : IsTyped written =
          changed-IsTyped (page_key key) _ untagged written
            (entry-set_ex (page_key key) (payload text) seconds untagged) tt one in
        let three : IsTyped joined = join_tags-IsTyped set_seconds tags written two in
        changed-IsTyped (page_tags key) _ joined _ (entry-expire (page_tags key) set_seconds joined)
          (IsSetLike-kept_until _ _ (three (page_tags key))) three

  forget_page-IsTyped :
      (key : String) (s : Server) → IsTyped s → IsTyped ((forget_page valkey key s).1)
  unfolding forget_page
  forget_page-IsTyped key s h = del-IsTyped (page_key key) _ (
      del-IsTyped (page_tags key) _
        (leave_tags-IsTyped key (smembers (entry (page_tags key) s)) s h))

  forget_pages-IsTyped :
      (keys : List String) (s : Server) → IsTyped s → IsTyped ((forget_pages valkey keys s).1)
  unfolding forget_pages
  forget_pages-IsTyped [] s h = h
  forget_pages-IsTyped (key ∷ keys) s h = forget_pages-IsTyped keys _ (forget_page-IsTyped key s h)

  purge_tag-IsTyped :
      (seconds : ℕ) (t : String) (s : Server)
      → IsTyped s
      → IsTyped ((purge_tag valkey seconds t s).1)
  unfolding purge_tag
  purge_tag-IsTyped seconds t s h =
      let forgotten = (forget_pages valkey (smembers (entry (tag_key t) s)) s).1 in
      let emptied = del (tag_key t) forgotten in
      changed-IsTyped (stamp_key t) _ emptied _
        (entry-set_ex (stamp_key t) (stamp (now s)) seconds emptied) tt
        (del-IsTyped (tag_key t) forgotten
          (forget_pages-IsTyped (smembers (entry (tag_key t) s)) s h))

  pub purge_script-IsTyped :
      (seconds : ℕ) (ts : List String) (s : Server)
      → IsTyped s
      → IsTyped ((purge_script valkey seconds ts s).1)
  unfolding purge_script
  purge_script-IsTyped seconds [] s h = h
  purge_script-IsTyped seconds (t ∷ ts) s h =
      purge_script-IsTyped seconds ts _ (purge_tag-IsTyped seconds t s h)

  pub elapse-IsTyped : (ms : ℕ) (s : Server) → IsTyped s → IsTyped (elapse ms s)
  elapse-IsTyped ms s h = λ k.
      subst (IsKind k) (sym (entry-elapse ms s k))
        (at_instant-IsKind (now s + ms) k (entry k s) (h k))
