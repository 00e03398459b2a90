-- ===== src/Cache/Valkey.antt =====
-- What packages/cache/src/store.ts uses of Valkey: the commands of its three Lua scripts, each
-- with what Valkey documents of it for a value of its type. A key is one of the four templates of
-- `createPageCache`, kept apart by kind: for the keys of pages that do not end in `:tags`, which
-- are all that the calls take, the names of different keys differ. A stamp is the number that
-- `tostring` wrote and `tonumber` reads. A command on a value of another type, where Valkey fails,
-- is given some result here that nothing rests on: no script meets such a value.
use presslabz.Base.{
  ℕ, ◌+◌, ◌*◌, ◌≡◌, Bool, false, ◌||◌, Option, none, some, List, [], ◌∷◌, String, str_eq, leb,
  if◌then◌else◌, any, filter, not,
}

-- Whether a text ends in `:tags`.
abbrev pub ends_in_tags : String → Bool
ends_in_tags String.[] = false
ends_in_tags (String.◌∷◌ c s) = let rest = ends_in_tags s in str_eq (String.◌∷◌ c s) ":tags" || rest

-- A page's key, for which no other page's list of tags has the name of the page.
pub record PageKey : Type 0 where
  pub text : String
  pub plain : ends_in_tags text ≡ false

-- `page:<key>`, `page:<key>:tags`, `tag:<tag>` and `purged:<tag>`, each under the namespace.
pub data Key : Type 0 where
  page_key : (key : String) → Key
  page_tags : (key : String) → Key
  tag_key : (tag : String) → Key
  stamp_key : (tag : String) → Key

abbrev pub same_key : Key → Key → Bool
same_key (page_key a) (page_key b) = str_eq a b
same_key (page_tags a) (page_tags b) = str_eq a b
same_key (tag_key a) (tag_key b) = str_eq a b
same_key (stamp_key a) (stamp_key b) = str_eq a b
same_key _ _ = false

pub data Value : Type 0 where
  payload : (text : String) → Value
  stamp : (ms : ℕ) → Value

-- What a key holds, and the millisecond at which it goes; a set has one only after `EXPIRE`.
pub data Entry : Type 0 where
  absent : Entry
  holds : (v : Value) (until : ℕ) → Entry
  set_of : (xs : List String) (until : Option ℕ) → Entry

abbrev pub get : Entry → Option Value
get (holds v until) = some v
get absent = none
get (set_of xs until) = none

abbrev pub smembers : Entry → List String
smembers (set_of xs until) = xs
smembers absent = []
smembers (holds v until) = []

abbrev pub has : String → List String → Bool
has x xs = any (λ y. str_eq y x) xs

abbrev pub without : String → List String → List String
without x xs = filter (λ y. not (str_eq y x)) xs

abbrev pub with_member : String → Entry → Entry
with_member x absent = set_of (x ∷ []) none
with_member x (set_of xs until) = set_of (if has x xs then xs else x ∷ xs) until
with_member x (holds v until) = holds v until

-- A set with no members is no key.
abbrev pub set_or_absent : List String → Option ℕ → Entry
set_or_absent [] until = absent
set_or_absent (x ∷ xs) until = set_of (x ∷ xs) until

abbrev pub without_member : String → Entry → Entry
without_member x (set_of xs until) = set_or_absent (without x xs) until
without_member x absent = absent
without_member x (holds v until) = holds v until

abbrev pub kept_until : ℕ → Entry → Entry
kept_until t (set_of xs until) = set_of xs (some t)
kept_until t (holds v until) = holds v t
kept_until t absent = absent

-- An entry at the instant `t`.
abbrev pub at_instant : ℕ → Entry → Entry
at_instant t (holds v until) = if leb until t then absent else holds v until
at_instant t (set_of xs (some until)) = if leb until t then absent else set_of xs (some until)
at_instant t (set_of xs none) = set_of xs none
at_instant t absent = absent

-- `now` is `TIME` in milliseconds; the seconds of `EX` and `EXPIRE` count from it. Each command
-- changes its key alone, and only `elapse`, the time between two scripts, moves the clock.
pub record Valkey : Type 1 where
  pub Server : Type 0
  pub now : Server → ℕ
  pub entry : Key → Server → Entry
  pub set_ex : Key → Value → ℕ → Server → Server
  pub del : Key → Server → Server
  pub sadd : Key → String → Server → Server
  pub srem : Key → String → Server → Server
  pub expire : Key → ℕ → Server → Server
  pub elapse : ℕ → Server → Server
  pub entry-set_ex :
      (k : Key) (v : Value) (seconds : ℕ) (s : Server) (k' : Key)
      → entry k' (set_ex k v seconds s)
        ≡ (if same_key k k' then holds v (now s + 1000 * seconds) else entry k' s)
  pub entry-del :
      (k : Key) (s : Server) (k' : Key)
      → entry k' (del k s) ≡ (if same_key k k' then absent else entry k' s)
  pub entry-sadd :
      (k : Key) (x : String) (s : Server) (k' : Key)
      → entry k' (sadd k x s) ≡ (if same_key k k' then with_member x (entry k s) else entry k' s)
  pub entry-srem :
      (k : Key) (x : String) (s : Server) (k' : Key)
      → entry k' (srem k x s) ≡ (if same_key k k' then without_member x (entry k s) else entry k' s)
  pub entry-expire :
      (k : Key) (seconds : ℕ) (s : Server) (k' : Key)
      → entry k' (expire k seconds s)
        ≡ (if same_key k k' then kept_until (now s + 1000 * seconds) (entry k s) else entry k' s)
  pub entry-elapse :
      (ms : ℕ) (s : Server) (k : Key) → entry k (elapse ms s) ≡ at_instant (now s + ms) (entry k s)
  pub now-set_ex :
      (k : Key) (v : Value) (seconds : ℕ) (s : Server) → now (set_ex k v seconds s) ≡ now s
  pub now-del : (k : Key) (s : Server) → now (del k s) ≡ now s
  pub now-sadd : (k : Key) (x : String) (s : Server) → now (sadd k x s) ≡ now s
  pub now-srem : (k : Key) (x : String) (s : Server) → now (srem k x s) ≡ now s
  pub now-expire : (k : Key) (seconds : ℕ) (s : Server) → now (expire k seconds s) ≡ now s
  pub now-elapse : (ms : ℕ) (s : Server) → now (elapse ms s) ≡ now s + ms
