-- ===== src/Cache/Stamps.antt =====
-- packages/cache/src/store.ts: a purge is remembered for the time its stamp is kept, so a page
-- that was rendered from before it is not stored.
use presslabz.Base.{
  str_eq_refl, ℕ, ◌+◌, ◌*◌, ◌≤◌, ◌≡◌, refl, sym, ◌∙◌, ap, subst, inl, inr, List, [], ◌∷◌, String,
  str_eq, if◌then◌else◌, In, Bool-cases, arith,
}
use presslabz.Cache.Valkey.{stamp_key, stamp, holds, Valkey}
use presslabz.Cache.Entries.{In_head}
use presslabz.Cache.Purged.{purge_tag-stamp, purge_tag-clock}
use presslabz.Cache.Store.{purge_tag, purge_script}

module _ (valkey : Valkey) where
  open valkey use {Server, now, entry, elapse, entry-elapse, now-elapse}

  -- The tag was purged at `p` or later, and this is remembered until `d`.
  pub record Stamped (t : String) (p d : ℕ) (s : Server) : Type 0 where
    pub ms : ℕ
    pub until : ℕ
    pub held : entry (stamp_key t) s ≡ holds (stamp ms) until
    pub since : p ≤ ms
    pub kept : d ≤ until

  pub Stamped-next :
      (t : String) (p d : ℕ) (s s' : Server)
      → entry (stamp_key t) s' ≡ entry (stamp_key t) s
      → Stamped t p d s
      → Stamped t p d s'
  Stamped-next t p d s s' e h = record {
    ms = h.ms;
    until = h.until;
    held = e ∙ h.held;
    since = h.since;
    kept = h.kept;
  }

  purge_tag-Stamped :
      (seconds : ℕ) (t : String) (s : Server)
      → Stamped t (now s) (now s + 1000 * seconds) ((purge_tag valkey seconds t s).1)
  purge_tag-Stamped seconds t s = record {
    ms = now s;
    until = now s + 1000 * seconds;
    held =
        purge_tag-stamp valkey seconds t s t
        ∙ ap
            (λ b.
              if b then holds (stamp (now s)) (now s + 1000 * seconds) else entry (stamp_key t) s)
            (str_eq_refl t);
    since = omega arith;
    kept = omega arith;
  }

  module _ (p d : ℕ) where
    purge_tag-Stamped_next :
        (seconds : ℕ) (x t : String) (s : Server)
        → p ≤ now s
        → d ≤ now s + 1000 * seconds
        → Stamped t p d s
        → Stamped t p d ((purge_tag valkey seconds x s).1)
    purge_tag-Stamped_next seconds x t s b k h =
        let law = purge_tag-stamp valkey seconds x s t in
        elim (Bool-cases (str_eq x t)) [
          | inr e ↦
              Stamped-next t p d s ((purge_tag valkey seconds x s).1)
                (law
                  ∙ ap
                      (λ b.
                        if b
                        then holds (stamp (now s)) (now s + 1000 * seconds)
                        else entry (stamp_key t) s)
                      e)
                h
          | inl e ↦ record {
            ms = now s;
            until = now s + 1000 * seconds;
            held =
                law
                ∙ ap
                    (λ b.
                      if b
                      then holds (stamp (now s)) (now s + 1000 * seconds)
                      else entry (stamp_key t) s)
                    e;
            since = b;
            kept = k;
          }
        ]

    pub purge_script-Stamped_next :
        (seconds : ℕ) (ts : List String) (t : String) (s : Server)
        → p ≤ now s
        → d ≤ now s + 1000 * seconds
        → Stamped t p d s
        → Stamped t p d ((purge_script valkey seconds ts s).1)
    unfolding purge_script
    purge_script-Stamped_next seconds [] t s b k h = h
    purge_script-Stamped_next seconds (x ∷ ts) t s b k h =
        let c = purge_tag-clock valkey seconds x s in
        purge_script-Stamped_next seconds ts t ((purge_tag valkey seconds x s).1)
          (omega (arith, b, c)) (omega (arith, k, c)) (purge_tag-Stamped_next seconds x t s b k h)

  pub purge_script-clock :
      (seconds : ℕ) (ts : List String) (s : Server)
      → now ((purge_script valkey seconds ts s).1) ≡ now s
  unfolding purge_script
  purge_script-clock seconds [] s = refl
  purge_script-clock seconds (t ∷ ts) s =
      purge_script-clock seconds ts ((purge_tag valkey seconds t s).1)
      ∙ purge_tag-clock valkey seconds t s

  pub purge_script-Stamped :
      (seconds : ℕ) (ts : List String) (t : String) (s : Server)
      → In t ts
      → Stamped t (now s) (now s + 1000 * seconds) ((purge_script valkey seconds ts s).1)
  unfolding purge_script
  purge_script-Stamped seconds [] t s m = elim m [ ]
  purge_script-Stamped seconds (x ∷ ts) t s m =
      let next = (purge_tag valkey seconds x s).1 in
      let c : now next ≡ now s = purge_tag-clock valkey seconds x s in
      elim (In_head t x ts m) [
        | inl n ↦
            subst (λ n. Stamped t n (n + 1000 * seconds) ((purge_script valkey seconds ts next).1))
              c (purge_script-Stamped seconds ts t next n)
        | inr e ↦
            purge_script-Stamped_next (now s) (now s + 1000 * seconds) seconds ts t next
              (omega (arith, c)) (omega (arith, c))
              (subst (λ y. Stamped y (now s) (now s + 1000 * seconds) next) (sym e)
                (purge_tag-Stamped seconds x s))
      ]
