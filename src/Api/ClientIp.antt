-- ===== src/Api/ClientIp.antt =====
-- apps/api/src/http/client-ip.ts: who the client of a request is. `isIP` of node:net and `compile`
-- of proxy-addr are parameters; `request.ip`, which Fastify walked, is a field of the request.
pub mod Identity
use Prim.Native.Char.{Char, code}
use Prim.Native.String
use presslabz.Base.{
  ℕ, zero, suc, ◌+◌, ◌-◌, ◌≡◌, ◌≢◌, refl, sym, ◌∙◌, ap, inl, inr, Bool, true, false, not, ◌&&◌,
  ◌||◌, Option, none, some, List, [], ◌∷◌, String, str_eq, leb, ltb, ◌==◌, if◌then◌else◌,
  Bool-cases, arith, any,
}

-- White space, as `trim` understands it.
abbrev is_space : Char → Bool
is_space c =
    leb 9 (code c) && leb (code c) 13
    || any (λ n. code c == n) (32 ∷ 160 ∷ 5760 ∷ 8232 ∷ 8233 ∷ 8239 ∷ 8287 ∷ 12288 ∷ 65279 ∷ [])
    || leb 8192 (code c) && leb (code c) 8202

unfoldable pub trim_start : String → String
trim_start String.[] = String.[]
trim_start (String.◌∷◌ c s) = let rest = trim_start s in if is_space c then rest else String.◌∷◌ c s

abbrev after_space : Bool → Char → String → String
after_space space c (String.◌∷◌ d s) = String.◌∷◌ c (String.◌∷◌ d s)
after_space true c String.[] = String.[]
after_space false c String.[] = String.◌∷◌ c String.[]

unfoldable pub trim_end : String → String
trim_end String.[] = String.[]
trim_end (String.◌∷◌ c s) = after_space (is_space c) c (trim_end s)

-- `(\d{1,3}(?:\.\d{1,3}){3})$`: `groups` to come, `digits` of this one read.
unfoldable pub is_dotted : ℕ → ℕ → String → Bool
is_dotted groups digits String.[] = groups == 0 && leb 1 digits
is_dotted groups digits (String.◌∷◌ c s) =
    let more = is_dotted groups (suc digits) s in
    let next = is_dotted (groups - 1) 0 s in
    if leb b'0' (code c) && leb (code c) b'9'
    then ltb digits 3 && more
    else code c == b'.' && leb 1 digits && leb 1 groups && next

-- The text behind a prefix, of which the codes are given, in either case.
unfoldable pub after_prefix : List ℕ → String → Option String
after_prefix [] s = some s
after_prefix (n ∷ ns) String.[] = none
after_prefix (n ∷ ns) (String.◌∷◌ c s) =
    let rest = after_prefix ns s in
    if code c == n || (leb b'a' n && code c + 32 == n) then rest else none

abbrev plain_form : String → Option String → String
plain_form trimmed none = trimmed
plain_form trimmed (some rest) = if is_dotted 3 0 rest then rest else trimmed

-- `::ffff:` and four groups of digits are the plain address.
unfoldable pub normalize_address : String → String
unfolding trim_start trim_end after_prefix is_dotted
normalize_address address =
    let trimmed = trim_end (trim_start address) in
    plain_form trimmed (after_prefix (58 ∷ 58 ∷ 102 ∷ 102 ∷ 102 ∷ 102 ∷ 58 ∷ []) trimmed)

pub data Source : Type 0 where
  socket forwarded header : Source

pub record ClientIpOptions : Type 0 where
  pub source : Source
  pub trusted_proxies : List String
  pub header_name : Option String

pub data HeaderValue : Type 0 where
  undefined : HeaderValue
  single : (text : String) → HeaderValue
  repeated : (texts : List String) → HeaderValue

pub record Request : Type 0 where
  pub remote_address : Option String
  pub ip : String
  pub headers : String → HeaderValue

pub data Resolved : Type 0 where
  client : (address : String) → Resolved
  missing_forwarded_address invalid_forwarded_address : Resolved

-- Fastify's `trustProxy`: the list, or false.
abbrev pub trust_proxy_for : ClientIpOptions → Option (List String)
trust_proxy_for options = elim options.source [
  | forwarded ↦ some options.trusted_proxies
  | socket ↦ none
  | header ↦ none
]

abbrev address_of : Option String → String → String
address_of (some a) ip = a
address_of none ip = ip

module _ (is_ip : String → ℕ) (compile : List String → String → Bool) where
  -- `isIP(candidate) === 0 ? null : candidate`; what is not one text is no address.
  unfoldable pub parse_single_address : HeaderValue → Option String
  unfolding normalize_address
  parse_single_address undefined = none
  parse_single_address (repeated texts) = none
  parse_single_address (single text) =
      let candidate = normalize_address text in
      if is_ip candidate == 0 then none else some candidate

  unfoldable pub peer_of : Request → String
  unfolding normalize_address
  peer_of request = normalize_address (address_of request.remote_address request.ip)

  abbrev named : Option String → Resolved
  named none = invalid_forwarded_address
  named (some address) = client address

  abbrev reached : (String → Bool) → Option String → Resolved
  reached trusted none = invalid_forwarded_address
  reached trusted (some address) =
      if trusted address then missing_forwarded_address else client address

  abbrev sent : HeaderValue → Option String → Resolved
  sent undefined parsed = missing_forwarded_address
  sent (single text) parsed = named parsed
  sent (repeated texts) parsed = named parsed

  abbrev from_header : ClientIpOptions → Request → Option String → Resolved
  from_header options request none = client (peer_of request)
  from_header options request (some name) =
      if not (str_eq name "") && compile options.trusted_proxies (peer_of request)
      then sent (request.headers name) (parse_single_address (request.headers name))
      else client (peer_of request)

  unfoldable pub resolve : ClientIpOptions → Request → Resolved
  unfolding peer_of parse_single_address
  resolve options request =
      let trusted = compile options.trusted_proxies in
      elim options.source [
        | socket ↦ client (peer_of request)
        | forwarded ↦
            if trusted (peer_of request)
            then reached trusted (parse_single_address (single request.ip))
            else client (peer_of request)
        | header ↦ from_header options request options.header_name
      ]
