-- ===== src/Api/ClientIp/Identity.antt =====
-- apps/api/src/http/client-ip.ts: whose word decides who the client is.
use presslabz.Base.{
  ℕ, ◌≡◌, refl, sym, ◌∙◌, ap, subst, inl, inr, ◌⊎◌, Bool, true, false, not, Option, none, some,
  List, String, str_eq, ◌==◌, Bool-cases,
}
use presslabz.Api.ClientIp.{
  Source, socket, forwarded, header, ClientIpOptions, HeaderValue, undefined, single, repeated,
  Request, Resolved, client, missing_forwarded_address, normalize_address, parse_single_address,
  peer_of, resolve, reached, sent, from_header,
}

two_modes : header ≡ forwarded → ⊥
two_modes e = cc

module _ (is_ip : String → ℕ) (compile : List String → String → Bool) where
  from_header-untrusted :
      (options : ClientIpOptions) (request : Request) (name : Option String)
      → compile options.trusted_proxies (peer_of is_ip compile request) ≡ false
      → from_header is_ip compile options request name ≡ client (peer_of is_ip compile request)
  from_header-untrusted options request none e = refl
  from_header-untrusted options request (some name) e = elim (Bool-cases (not (str_eq name ""))) [
    | inl d ↦ rw d (rw e refl)
    | inr d ↦ rw d refl
  ]

  by_source :
      (source : Source) (a b c : Resolved) (d : Resolved)
      → a ≡ d
      → b ≡ d
      → c ≡ d
      → (elim source as (λ x. Resolved) [ socket ↦ a | forwarded ↦ b | header ↦ c ]) ≡ d
  by_source socket a b c d e f g = e
  by_source forwarded a b c d e f g = f
  by_source header a b c d e f g = g

  resolve-peer :
      (options : ClientIpOptions) (request : Request)
      → compile options.trusted_proxies (peer_of is_ip compile request) ≡ false
      → resolve is_ip compile options request ≡ client (peer_of is_ip compile request)
  unfolding resolve
  resolve-peer options request e =
      by_source options.source _ _ _ (client (peer_of is_ip compile request)) refl (rw e refl)
        (from_header-untrusted options request options.header_name e)

  resolved-untrusted :
      (options : ClientIpOptions) (request : Request) (address : String)
      → request.remote_address ≡ some address
      → compile options.trusted_proxies (normalize_address address) ≡ false
      → resolve is_ip compile options request ≡ client (normalize_address address)
  unfolding peer_of
  resolved-untrusted options request address e untrusted =
      let peer : peer_of is_ip compile request ≡ normalize_address address = rw e refl in
      resolve-peer options request (ap (compile options.trusted_proxies) peer ∙ untrusted)
      ∙ ap client peer

  -- A peer that is no declared proxy is the client, in every mode, whatever headers it sends and
  -- whatever Fastify made of them: two requests from its address have one identity.
  pub resolve-untrusted :
      (options : ClientIpOptions) (request other : Request) (address : String)
      → request.remote_address ≡ some address
      → other.remote_address ≡ some address
      → compile options.trusted_proxies (normalize_address address) ≡ false
      → (resolve is_ip compile options request ≡ client (normalize_address address))
        × (resolve is_ip compile options other ≡ client (normalize_address address))
  resolve-untrusted options request other address e f untrusted = (
    resolved-untrusted options request address e untrusted,
    resolved-untrusted options other address f untrusted,
  )

  parse_single_address-is_ip :
      (v : HeaderValue) (a : String)
      → parse_single_address is_ip compile v ≡ some a
      → is_ip a == 0 ≡ false
  unfolding parse_single_address
  parse_single_address-is_ip undefined a e = absurd (cc)
  parse_single_address-is_ip (repeated texts) a e = absurd (cc)
  parse_single_address-is_ip (single text) a e =
      elim (Bool-cases (is_ip (normalize_address text) == 0)) [
        | inl h ↦ let never : none ≡ some a = rw h at e in absurd (cc)
        | inr h ↦
            let same : some (normalize_address text) ≡ some a = rw h at e in
            let eq : normalize_address text ≡ a = cc in subst (λ x. is_ip x == 0 ≡ false) eq h
      ]

  -- The modes that read an address from a declared proxy.
  abbrev pub ReadsProxy : ClientIpOptions → Type 0
  ReadsProxy options =
      (options.source ≡ forwarded)
      ⊎ ((options.source ≡ header)
          × ((name : String) × (options.header_name ≡ some name) × (str_eq name "" ≡ false)))

  reached-client :
      (trusted : String → Bool) (o : Option String) (a : String)
      → reached is_ip compile trusted o ≡ client a
      → (o ≡ some a) × (trusted a ≡ false)
  reached-client trusted none a e = absurd (cc)
  reached-client trusted (some x) a e = elim (Bool-cases (trusted x)) [
    | inl h ↦ let never : missing_forwarded_address ≡ client a = rw h at e in absurd (cc)
    | inr h ↦
        let same : client x ≡ client a = rw h at e in
        let eq : x ≡ a = cc in (ap some eq, subst (λ y. trusted y ≡ false) eq h)
  ]

  sent-client :
      (v : HeaderValue) (o : Option String) (a : String)
      → sent is_ip compile v o ≡ client a
      → o ≡ some a
  sent-client undefined o a e = absurd (cc)
  sent-client (single text) none a e = absurd (cc)
  sent-client (repeated texts) none a e = absurd (cc)
  sent-client (single text) (some x) a e = cc
  sent-client (repeated texts) (some x) a e = cc

  resolve-forwarded :
      (options : ClientIpOptions) (request : Request)
      → options.source ≡ forwarded
      → compile options.trusted_proxies (peer_of is_ip compile request) ≡ true
      → resolve is_ip compile options request
        ≡ reached is_ip compile
            (compile options.trusted_proxies)
            (parse_single_address is_ip compile (single request.ip))
  unfolding resolve
  resolve-forwarded options request e t = rw e (rw t refl)

  resolve-header :
      (options : ClientIpOptions) (request : Request) (name : String)
      → options.source ≡ header
      → options.header_name ≡ some name
      → str_eq name "" ≡ false
      → compile options.trusted_proxies (peer_of is_ip compile request) ≡ true
      → resolve is_ip compile options request
        ≡ sent is_ip compile
            (request.headers name)
            (parse_single_address is_ip compile (request.headers name))
  unfolding resolve
  resolve-header options request name e n d t = rw e (rw n (rw d (rw t refl)))

  -- Behind a declared proxy, in a mode that reads what it says, a client that is named is named by
  -- an IP address, and in forwarded mode by one that is not a declared proxy's: the proxy's own
  -- address is never the identity of the visitors behind it.
  pub resolve-named :
      (options : ClientIpOptions) (request : Request) (address : String)
      → ReadsProxy options
      → compile options.trusted_proxies (peer_of is_ip compile request) ≡ true
      → resolve is_ip compile options request ≡ client address
      → (is_ip address == 0 ≡ false)
        × (options.source ≡ forwarded → compile options.trusted_proxies address ≡ false)
  resolve-named options request address (inl e) t r =
      let (parsed, fresh) =
        reached-client (compile options.trusted_proxies) _ address
          (sym (resolve-forwarded options request e t) ∙ r) in
      (parse_single_address-is_ip (single request.ip) address parsed, λ _. fresh)
  resolve-named options request address (inr (e, (name, n, d))) t r = (
    parse_single_address-is_ip (request.headers name) address (
        sent-client (request.headers name) _ address
          (sym (resolve-header options request name e n d t) ∙ r)),
    λ f. absurd (two_modes (sym e ∙ f)),
  )
