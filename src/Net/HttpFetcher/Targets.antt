-- ===== src/Net/HttpFetcher/Targets.antt =====
-- What a fetch may connect to (src/net/http-fetcher.ts with src/domain/ip-policy.ts): every URL that
-- it requests, the first and those of redirects, against the policy and the registry's blocks.
use scraplify.Base.{
  ℕ, Text, zero, suc, ◌≡◌, refl, sym, ap, subst, true, not, Option, none, some, ◌⊎◌, inl, inr, All,
  Option-cases, arith,
}
use scraplify.Net.IpPolicy.{
  IpAddressClassification, parse_ipv4, parse_ipv6, classify_ip_address, is_public,
  is_private_or_reserved_address, classify_parsed,
}
use scraplify.Net.IpPolicy.Policy.{IsReachable, IsReachable-of_allowed}
use scraplify.Net.HttpFetcher.Body.{HttpError}
use scraplify.Net.HttpFetcher.{
  HttpFetcherOptions, Platform, Network, Answer, Fetched, Hop, moved, ended, refusal,
  refusal_of_host, literal_ip_blocked, bare_address, unless_public, hop_after, after_hop,
  unless_refused, fetch_from, fetch_url,
}
use scraplify.Net.HttpFetcher.Redirects.{requested_urls, requested_urls-events_of}

-- A hostname that is no address, which the lookup of src/net/ssrf-lookup.ts checks when it is
-- resolved, or an address outside every refused block.
abbrev pub IsOpenHost : Text → Type 0
IsOpenHost hostname =
    (parse_ipv4 (bare_address hostname) ≡ none) × (parse_ipv6 (bare_address hostname) ≡ none)
    ⊎ IsReachable (parse_ipv4 (bare_address hostname)) (parse_ipv6 (bare_address hostname))

abbrev pub IsPermitted : HttpFetcherOptions → Platform → Text → Type 0
IsPermitted o p url =
    (o.is_url_allowed url ≡ true)
    × ((hostname : Text) × (p.hostname_of url ≡ some hostname) × IsOpenHost hostname)

unless_public-none :
    (bare : Text) (c : IpAddressClassification)
    → unless_public bare (some c) ≡ none
    → is_public (some c) ≡ true
unless_public-none bare c h = ground arith

no_address_or_public :
    (bare : Text) (four six : Option ℕ)
    → unless_public bare (classify_parsed four six) ≡ none
    → (four ≡ none) × (six ≡ none) ⊎ (is_public (classify_parsed four six) ≡ true)
unfolding classify_parsed
no_address_or_public bare (some ip) six h = inr (unless_public-none bare _ h)
no_address_or_public bare none (some ip) h = inr (unless_public-none bare _ h)
no_address_or_public bare none none h = inl (refl, refl)

IsOpenHost-of_unblocked :
    (hostname : Text) → literal_ip_blocked hostname ≡ none → IsOpenHost hostname
unfolding literal_ip_blocked classify_ip_address is_private_or_reserved_address
IsOpenHost-of_unblocked hostname h = elim (no_address_or_public (bare_address hostname) _ _ h) [
  | inl neither ↦ inl neither
  | inr e ↦ inr (IsReachable-of_allowed (bare_address hostname) (ap not e))
]

IsPermitted-of_host :
    (o : HttpFetcherOptions) (p : Platform) (url : Text)
    → o.is_url_allowed url ≡ true
    → refusal_of_host url (p.hostname_of url) ≡ none
    → IsPermitted o p url
IsPermitted-of_host o p url allowed h = elim (Option-cases (p.hostname_of url)) [
  | inl e ↦ absurd (cc (rw e at h))
  | inr (hostname, e) ↦ elim (Option-cases (literal_ip_blocked hostname)) [
    | inl open_one ↦ (allowed, (hostname, e, IsOpenHost-of_unblocked hostname open_one))
    | inr (bare, blocked) ↦ absurd (cc (rw blocked at rw e at h))
  ]
]

IsPermitted-of_refusal :
    (o : HttpFetcherOptions) (p : Platform) (initial_url : Text) (n : ℕ) (url : Text)
    → refusal o p initial_url n url ≡ none
    → IsPermitted o p url
unfolding refusal
IsPermitted-of_refusal o p initial_url n url h =
    IsPermitted-of_host o p url (ground arith) (ground arith)

module _ (o : HttpFetcherOptions) (p : Platform) (net : Network) (initial_url : Text) where
  IsPermitted-hop :
      (continue : Text → Fetched) (count : ℕ) (h : Hop)
      → ((url : Text) → All (IsPermitted o p) (requested_urls (continue url).events))
      → All (IsPermitted o p) (requested_urls (after_hop continue count h).events)
  IsPermitted-hop continue count (moved url) k = k url
  IsPermitted-hop continue count (ended outcome) k = tt

  IsPermitted-unless :
      (f : Fetched) (count : ℕ) (e : Option HttpError)
      → (e ≡ none → All (IsPermitted o p) (requested_urls f.events))
      → All (IsPermitted o p) (requested_urls (unless_refused f count e).events)
  IsPermitted-unless f count none k = k refl
  IsPermitted-unless f count (some e) k = tt

  fetch_from-IsPermitted :
      (fuel n count : ℕ) (url : Text)
      → All
          (IsPermitted o p)
          (requested_urls (fetch_from o p net initial_url fuel n count url).events)
  unfolding fetch_from
  fetch_from-IsPermitted zero n count url = tt
  fetch_from-IsPermitted (suc fuel) n count url =
      let a : Answer = net.answer n url in
      IsPermitted-unless _ count (refusal o p initial_url n url) (λ passed.
        subst (All (IsPermitted o p))
          (sym (requested_urls-events_of o p url count (net.clock n) a _))
          (
            IsPermitted-of_refusal o p initial_url n url passed,
            IsPermitted-hop (fetch_from o p net initial_url fuel (suc n) _) _
                (hop_after o p url n a) (fetch_from-IsPermitted fuel (suc n) _),
          ))

-- Wherever the answers redirect it, every URL that a fetch requests is one that the source's policy
-- allows and whose hostname parses and is no literal address but a reachable one: an IPv4 address
-- outside every refused block, an IPv6 address that embeds such a one, or a global unicast IPv6
-- address outside every refused block.
pub fetch_url-IsPermitted :
    (o : HttpFetcherOptions) (p : Platform) (net : Network) (count : ℕ) (url : Text)
    → All (IsPermitted o p) (requested_urls (fetch_url o p net count url).events)
unfolding fetch_url
fetch_url-IsPermitted o p net count url = fetch_from-IsPermitted o p net url _ 0 count url
