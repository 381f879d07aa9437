-- ===== src/Net/SsrfLookup.antt =====
-- The DNS hook of the HTTP client (src/net/ssrf-lookup.ts): what a hostname resolves to is checked by
-- src/domain/ip-policy.ts before it is connected to. The resolver's answer is given.
mod Tests
use scraplify.Base.{
  ℕ, ◌≡◌, refl, ap, ◌∙◌, subst, Bool, true, false, List, [], ◌∷◌, ◌⊎◌, inl, inr, Text, filter, map,
  any, All, if◌then◌else◌, Bool-cases, arith,
}
use scraplify.Net.IpPolicy.{parse_ipv4, parse_ipv6, is_private_or_reserved_address}
use scraplify.Net.IpPolicy.Policy.{IsReachable, IsReachable-of_allowed}

pub record LookupAddress : Type 0 where
  pub address : Text
  pub family : ℕ

pub data Resolution : Type 0 where
  resolver_failed : Resolution
  resolved : List LookupAddress → Resolution

-- What the callback is given: an error, all addresses, or the first address with its family.
pub data LookupAnswer : Type 0 where
  lookup_error : LookupAnswer
  ssrf_blocked : (hostname : Text) → (blocked_addresses : List Text) → LookupAnswer
  all_addresses : List LookupAddress → LookupAnswer
  one_address : Text → ℕ → LookupAnswer

abbrev pub blocked_of : List LookupAddress → List LookupAddress
blocked_of addresses =
    filter (λ (entry : LookupAddress). is_private_or_reserved_address entry.address) addresses

-- `first?.address ?? ''` and `first?.family ?? 0`.
abbrev pub first_address : List LookupAddress → LookupAnswer
first_address [] = one_address [] 0
first_address (entry ∷ entries) = one_address entry.address entry.family

abbrev pub unless_blocked : Text → Bool → List LookupAddress → List LookupAddress → LookupAnswer
unless_blocked hostname wants_all addresses [] =
    if wants_all then all_addresses addresses else first_address addresses
unless_blocked hostname wants_all addresses (entry ∷ entries) =
    ssrf_blocked hostname (map (λ (e : LookupAddress). e.address) (entry ∷ entries))

unfoldable pub ssrf_safe_lookup : Text → (wants_all : Bool) → Resolution → LookupAnswer
ssrf_safe_lookup hostname wants_all resolver_failed = lookup_error
ssrf_safe_lookup hostname wants_all (resolved addresses) =
    unless_blocked hostname wants_all addresses (blocked_of addresses)

abbrev pub IsReachableText : Text → Type 0
IsReachableText address = IsReachable (parse_ipv4 address) (parse_ipv6 address)

abbrev pub AreReachable : List LookupAddress → Type 0
AreReachable addresses = All (λ (e : LookupAddress). IsReachableText e.address) addresses

abbrev pub address_of : List LookupAddress → Text
address_of [] = []
address_of (e ∷ es) = e.address

-- What an answer tells of the resolution that it answers. Addresses are given only where every one
-- of the resolution is reachable; an error is given for a failure, or for an address that is refused.
abbrev pub IsSafeAnswer : Resolution → LookupAnswer → Type 0
IsSafeAnswer r lookup_error = r ≡ resolver_failed
IsSafeAnswer r (ssrf_blocked hostname blocked) =
    (addresses : List LookupAddress) × (r ≡ resolved addresses)
    × (any (λ (e : LookupAddress). is_private_or_reserved_address e.address) addresses ≡ true)
IsSafeAnswer r (all_addresses addresses) = (r ≡ resolved addresses) × AreReachable addresses
IsSafeAnswer r (one_address address family) =
    (addresses : List LookupAddress) × (r ≡ resolved addresses)
    × AreReachable addresses
    × (address ≡ address_of addresses)

reachable-of_unblocked :
    (addresses : List LookupAddress)
    → blocked_of addresses ≡ []
    → All (λ (e : LookupAddress). IsReachableText e.address) addresses
reachable-of_unblocked [] h = tt
reachable-of_unblocked (e ∷ es) h = elim (Bool-cases (is_private_or_reserved_address e.address)) [
  | inl k ↦ absurd (cc (rw k at h))
  | inr k ↦ (IsReachable-of_allowed e.address k, reachable-of_unblocked es (rw k at h))
]

blocked_of-cons :
    (addresses : List LookupAddress) (e : LookupAddress) (es : List LookupAddress)
    → blocked_of addresses ≡ e ∷ es
    → any (λ (a : LookupAddress). is_private_or_reserved_address a.address) addresses ≡ true
blocked_of-cons [] e es h = cc
blocked_of-cons (a ∷ as_) e es h = elim (Bool-cases (is_private_or_reserved_address a.address)) [
  | inl k ↦ rw k refl
  | inr k ↦ rw k (blocked_of-cons as_ e es (rw k at h))
]

first_address-safe :
    (addresses : List LookupAddress)
    → AreReachable addresses
    → IsSafeAnswer (resolved addresses) (first_address addresses)
first_address-safe [] h = ([], refl, h, refl)
first_address-safe (e ∷ es) h = (e ∷ es, refl, h, refl)

unless_blocked-safe :
    (hostname : Text) (wants_all : Bool) (addresses blocked : List LookupAddress)
    → blocked_of addresses ≡ blocked
    → IsSafeAnswer (resolved addresses) (unless_blocked hostname wants_all addresses blocked)
unless_blocked-safe hostname true addresses [] h = (refl, reachable-of_unblocked addresses h)
unless_blocked-safe hostname false addresses [] h =
    first_address-safe addresses (reachable-of_unblocked addresses h)
unless_blocked-safe hostname wants_all addresses (e ∷ es) h =
    (addresses, refl, blocked_of-cons addresses e es h)

-- Whatever a name resolves to, and whether all addresses or one are asked for: addresses are given
-- only where every address of the resolution lies outside the registry's refused blocks, and then
-- they are those of the resolution, or its first one; so one refused address withholds all of them.
-- An error is given only where the resolver failed or one of its addresses is refused.
pub ssrf_safe_lookup-IsSafe :
    (hostname : Text) (wants_all : Bool) (r : Resolution)
    → IsSafeAnswer r (ssrf_safe_lookup hostname wants_all r)
unfolding ssrf_safe_lookup
ssrf_safe_lookup-IsSafe hostname wants_all resolver_failed = refl
ssrf_safe_lookup-IsSafe hostname wants_all (resolved addresses) =
    unless_blocked-safe hostname wants_all addresses (blocked_of addresses) refl
