-- ===== src/Cache/Tests.antt =====
-- Tests of the page cache on a Valkey that is a function of its keys.
pub mod Encoding
use presslabz.Base.{
  ℕ, ◌+◌, ◌*◌, ◌≡◌, refl, true, false, Option, none, some, String, List, [], ◌∷◌, if◌then◌else◌,
  here, arith,
}
use presslabz.Access.Policy.{published}
use presslabz.Hooks.Events.{ContentEvent}
use presslabz.Cache.Valkey.{
  PageKey, Key, Entry, absent, holds, with_member, without_member, kept_until, at_instant, same_key,
  Valkey,
}
use presslabz.Cache.Tags.{is_tag}
use presslabz.Cache.Store.{
  PageCacheOptions, StoreOptions, CachedPage, hit, missed, look_up, store, Operation, stores,
  purges, elapses, perform_all, perform, purge_tags, store_script, file_page,
}
use presslabz.Cache.Runs.{perform_all-IsCoherent, empty-IsTyped}
use presslabz.Cache.Kinds.Scripts.{IsTyped}
use presslabz.Cache.Coherence.{IsCoherent}
use presslabz.Cache.Refused.{store-overtaken}
use presslabz.Cache.Served.{look_up-store, look_up-purged, history}
use presslabz.Cache.Tests.Encoding.{plain_text, plain_text-RoundTrips}

record KeySpace : Type 0 where
  clock : ℕ
  held : Key → Entry

abbrev changed : Key → (Entry → Entry) → KeySpace → KeySpace
changed k f s = record s { held = λ k'. if same_key k k' then f (s.held k) else s.held k' }

abbrev key_space : Valkey
key_space = record {
  Server = KeySpace;
  now = λ s. s.clock;
  entry = λ k s. s.held k;
  set_ex = λ k v seconds s. changed k (λ e. holds v (s.clock + 1000 * seconds)) s;
  del = λ k s. changed k (λ e. absent) s;
  sadd = λ k x s. changed k (with_member x) s;
  srem = λ k x s. changed k (without_member x) s;
  expire = λ k seconds s. changed k (kept_until (s.clock + 1000 * seconds)) s;
  elapse =
      λ ms s. record { clock = s.clock + ms; held = λ k. at_instant (s.clock + ms) (s.held k) };
  entry-set_ex = λ k v seconds s k'. refl;
  entry-del = λ k s k'. refl;
  entry-sadd = λ k x s k'. refl;
  entry-srem = λ k x s k'. refl;
  entry-expire = λ k seconds s k'. refl;
  entry-elapse = λ ms s k. refl;
  now-set_ex = λ k v seconds s. refl;
  now-del = λ k s. refl;
  now-sadd = λ k x s. refl;
  now-srem = λ k x s. refl;
  now-expire = λ k seconds s. refl;
  now-elapse = λ ms s. refl;
}

abbrev blank : KeySpace
blank = record { clock = 1000; held = λ k. absent }

abbrev defaults : PageCacheOptions
defaults = record { ttl_seconds = none; purge_stamp_ttl_seconds = none }

abbrev home : CachedPage
home = record { body = "hello"; status = 200; headers = [] }

abbrev from_start : StoreOptions
from_start = record { tags = "content:a" ∷ "list:post:en" ∷ []; rendered_from = 1000 }

abbrev about_page : PageKey
about_page = record { text = "/about"; plain = refl }

abbrev blog : PageKey
blog = record { text = "/blog"; plain = refl }

abbrev busy : Operation
busy = stores about_page home from_start

abbrev runs : List Operation
runs = busy ∷ elapses 5 ∷ purges ("content:a" ∷ []) ∷ []

perform_all-IsCoherent_example :
    IsCoherent key_space plain_text defaults (perform_all key_space plain_text defaults runs blank)
    × IsTyped key_space (perform_all key_space plain_text defaults runs blank)
perform_all-IsCoherent_example =
    perform_all-IsCoherent key_space plain_text defaults runs blank plain_text-RoundTrips
      (λ k. refl)

-- The blog page is stored with what its lookup told, and purged while it is there.
store-overtaken_example :
    let end = perform_all key_space plain_text defaults (elapses 7 ∷ []) (
      perform key_space plain_text defaults
        (purges ("content:a" ∷ []))
        (perform_all key_space plain_text defaults (busy ∷ elapses 2 ∷ []) blank)) in
    (store key_space plain_text defaults blog home from_start end ≡ (some false, end))
    × IsTyped key_space end
unfolding perform perform_all store purge_tags look_up
store-overtaken_example =
    store-overtaken key_space plain_text defaults blog home from_start ("content:a" ∷ [])
      "content:a" (busy ∷ elapses 2 ∷ []) (elapses 7 ∷ []) blank
      (empty-IsTyped key_space plain_text defaults blank (λ k. refl)) refl refl here here refl
      (omega arith)

look_up-purged_example :
    let end =
      history key_space plain_text defaults blog []
        (stores blog home from_start)
        (busy ∷ elapses 9 ∷ [])
        (purges ("content:a" ∷ []))
        (elapses 3 ∷ [])
        blank in
    look_up key_space plain_text blog end ≡ missed (end.clock)
unfolding perform perform_all store
look_up-purged_example =
    look_up-purged key_space plain_text defaults blog home from_start ("content:a" ∷ []) "content:a"
      [] (busy ∷ elapses 9 ∷ []) (elapses 3 ∷ []) blank plain_text-RoundTrips (λ k. refl) refl
      (refl, tt) tt refl here here

-- Document 7 is spelt `a`.
abbrev spell : ℕ → String
spell id = "a"

abbrev edited : ContentEvent
edited = record {
  id = 7;
  type = "post";
  locale = "en";
  translation_group_id = 7;
  slug = "a";
  title = "A";
  status = published;
  published_at = some 900;
  author_id = none;
}
