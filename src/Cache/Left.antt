-- ===== src/Cache/Left.antt =====
-- packages/cache/src/store.ts: what other operations leave of a page that nobody stores.
use presslabz.Base.{ℕ, ◌+◌, ◌≡◌, refl, sym, ◌∙◌, ap, false, List, [], ◌∷◌, String, str_eq, arith}
use presslabz.Cache.Valkey.{PageKey, page_key, page_tags, payload, holds, smembers, Valkey}
use presslabz.Cache.Instants.{at_instant-holds, at_instant-smembers}
use presslabz.Cache.Effects.{file_page-Spares}
use presslabz.Cache.Coherence.{IsCoherent}
use presslabz.Cache.Scripts.{purge_script-Cleared}
use presslabz.Cache.Runs.{RoundTrips, text, store-cases, purge_tags-cases, perform-IsCoherent}
use presslabz.Cache.Store.{
  Json, PageCacheOptions, ttl, stamp_ttl, set_ttl, unique_tags, Operation, stores, purges, elapses,
  perform, perform_all,
}

-- Nobody stores the page.
abbrev pub Unstored : PageKey → List Operation → Type 0
Unstored key [] = Unit
Unstored key (stores k cached given ∷ os) = (str_eq k.text key.text ≡ false) × Unstored key os
Unstored key (purges tags ∷ os) = Unstored key os
Unstored key (elapses ms ∷ os) = Unstored key os

module _ (valkey : Valkey) (json : Json) (options : PageCacheOptions) (key : PageKey) where
  open valkey use {Server, now, entry, elapse, entry-elapse}

  abbrev pub Live : Server → String → ℕ → Type 0
  Live s body u = entry (page_key key.text) s ≡ holds (payload body) u

  -- What an operation other than a store of the page leaves of it, if it is there afterwards.
  pub record Left (s s' : Server) : Type 0 where
    pub body : String
    pub u : ℕ
    pub live : Live s body u
    pub owned : smembers (entry (page_tags key.text) s') ≡ smembers (entry (page_tags key.text) s)

  perform-Left :
      (o : Operation) (s : Server)
      → Unstored key (o ∷ [])
      → IsCoherent valkey json options s
      → (body : String) (u : ℕ) → Live (perform valkey json options o s) body u
      → Left s (perform valkey json options o s)
  unfolding perform
  perform-Left (stores k cached given) s (d, _) c =
      store-cases valkey json options k cached given s
        (λ r. (body : String) (u : ℕ) → Live r.1 body u → Left s r.1)
        (λ body u e. record { body = body; u = u; live = e; owned = refl })
        (λ body u e. record { body = body; u = u; live = e; owned = refl })
        (λ checked body u e.
          let spares =
            file_page-Spares valkey 0 k.text (unique_tags given.tags)
              (text valkey json options k cached given s) (ttl options) (set_ttl options) s
              (omega arith) in
          record {
            body = body;
            u = u;
            live = sym (spares.pages key.text d) ∙ e;
            owned = ap smembers (spares.owned key.text d);
          })
  perform-Left (purges tags) s _ c =
      purge_tags-cases valkey json options tags s
        (λ r. (body : String) (u : ℕ) → Live r.1 body u → Left s r.1)
        (λ body u e. record { body = body; u = u; live = e; owned = refl })
        (λ body u e.
          let cleared =
            purge_script-Cleared valkey json options (stamp_ttl options) (unique_tags tags) s c
              key.text body u e in
          record {
            body = body;
            u = u;
            live = sym cleared.page ∙ e;
            owned = ap smembers cleared.owned;
          })
  perform-Left (elapses ms) s _ c = λ body u e.
      let (before, alive) =
        at_instant-holds (now s + ms) (entry (page_key key.text) s) (payload body) u
          (sym (entry-elapse ms s (page_key key.text)) ∙ e) in
      record {
        body = body;
        u = u;
        live = before;
        owned =
            ap smembers (entry-elapse ms s (page_tags key.text))
            ∙ at_instant-smembers u (now s + ms) alive (entry (page_tags key.text) s)
                ((c.filed key.text body u before).lasts);
      }

  first-Unstored :
      (o : Operation) (os : List Operation)
      → Unstored key (o ∷ os)
      → Unstored key (o ∷ []) × Unstored key os
  first-Unstored (stores k cached given) os (d, h) = ((d, tt), h)
  first-Unstored (purges tags) os h = (tt, h)
  first-Unstored (elapses ms) os h = (tt, h)

  module _ (round : RoundTrips json) where
    pub perform_all-Left :
        (os : List Operation) (s : Server)
        → Unstored key os
        → IsCoherent valkey json options s
        → (body : String) (u : ℕ) → Live (perform_all valkey json options os s) body u
        → Left s (perform_all valkey json options os s)
    unfolding perform_all
    perform_all-Left [] s h c body u e = record { body = body; u = u; live = e; owned = refl }
    perform_all-Left (o ∷ os) s h c body u e =
        let (a, b) = first-Unstored o os h in
        let next = perform valkey json options o s in
        let later =
          perform_all-Left os next b (perform-IsCoherent valkey json options round o s c) body u
            e in
        let first = perform-Left o s a c later.body later.u later.live in
        record {
          body = first.body;
          u = first.u;
          live = first.live;
          owned = later.owned ∙ first.owned;
        }
