-- ===== src/Net/IpPolicy/Policy.antt =====
-- The policy check of src/domain/ip-policy.ts against the registry's blocks: what an address that
-- it lets through can be.
use scraplify.Base.{
  ℕ, ◌%◌, ◌^◌, ◌<◌, ◌≡◌, refl, subst, ap, Bool, true, false, ◌||◌, Option, none, some, List, [],
  ◌∷◌, ◌⊎◌, inl, inr, if◌then◌else◌, arith, All, any, Bool-cases, true_of_not,
}
use scraplify.Net.IpPolicy.{
  IpAddressClassification, public, reserved, parse_ipv4, parse_ipv6, classify_ip_address,
  classify_parsed, is_public, is_private_or_reserved_address,
}
use scraplify.Net.IpPolicy.Blocks.{Block, first_block, ipv4_blocks, classify_ipv4-first_block}
use scraplify.Net.IpPolicy.Ipv6Blocks.{
  within, ipv6_blocks, ipv4_mapped, nat64, global_unicast, ipv6_reference, classify_ipv6-reference,
}
use scraplify.Net.IpPolicy.Parsing.{parse_ipv4-lt, parse_ipv6-lt}

-- The classification by intervals of addresses, from what the parsers return.
abbrev pub reference : Option ℕ → Option ℕ → Option IpAddressClassification
reference (some ip) _ = some (first_block public ipv4_blocks ip)
reference none (some ip) = some (ipv6_reference ip)
reference none none = none

abbrev Below : ℕ → Option ℕ → Type 0
Below bound o = (ip : ℕ) → o ≡ some ip → ip < bound

classify_parsed-reference :
    (four six : Option ℕ)
    → Below (2 ^ 32) four
    → Below (2 ^ 128) six
    → classify_parsed four six ≡ reference four six
unfolding classify_parsed
classify_parsed-reference (some ip) six h k = ap some (classify_ipv4-first_block ip (h ip refl))
classify_parsed-reference none (some ip) h k = ap some (classify_ipv6-reference ip (k ip refl))
classify_parsed-reference none none h k = refl

-- For every text, the classification by masks is the one read from the registry's intervals, of
-- IPv4 and of IPv6 with its two embeddings; a text that is neither has none.
pub classify_ip_address-reference :
    (address : List ℕ)
    → classify_ip_address address ≡ reference (parse_ipv4 address) (parse_ipv6 address)
unfolding classify_ip_address
classify_ip_address-reference address =
    classify_parsed-reference (parse_ipv4 address) (parse_ipv6 address) (parse_ipv4-lt address)
      (parse_ipv6-lt address)

abbrev pub Outside : List Block → ℕ → Type 0
Outside bs ip = All (λ (b : Block). within b.first b.last ip ≡ false) bs

abbrev is_public_class : IpAddressClassification → Bool
is_public_class c = is_public (some c)

Outside-of_public :
    (other : IpAddressClassification) (bs : List Block) (ip : ℕ)
    → any (λ (b : Block). is_public_class b.classification) bs ≡ false
    → is_public_class (first_block other bs ip) ≡ true
    → Outside bs ip × (is_public_class other ≡ true)
Outside-of_public other [] ip k h = (tt, h)
Outside-of_public other (b ∷ bs) ip k h =
    let miss : within b.first b.last ip ≡ false = ground arith in
    let (outside, rest) = Outside-of_public other bs ip (ground arith) (ground arith) in
    ((miss, outside), rest)

public_ipv4 :
    (ip : ℕ) → is_public_class (first_block public ipv4_blocks ip) ≡ true → Outside ipv4_blocks ip
public_ipv4 ip h = (Outside-of_public public ipv4_blocks ip refl h).0

-- An IPv6 address that embeds an IPv4 address outside every block, or a global unicast address
-- outside every IPv6 block.
abbrev pub IsReachableIpv6 : ℕ → Type 0
IsReachableIpv6 ip =
    ((ipv4_mapped ip || nat64 ip) ≡ true) × Outside ipv4_blocks (ip % 2 ^ 32)
    ⊎ (global_unicast ip ≡ true) × Outside ipv6_blocks ip

public_default : (b : Bool) → is_public_class (if b then public else reserved) ≡ true → b ≡ true
public_default true h = refl
public_default false h = cc

public_ipv6 : (ip : ℕ) → is_public_class (ipv6_reference ip) ≡ true → IsReachableIpv6 ip
public_ipv6 ip h = elim (Bool-cases (ipv4_mapped ip || nat64 ip)) [
  | inl embeds ↦ inl (embeds, public_ipv4 (ip % 2 ^ 32) (rw embeds at h))
  | inr direct ↦
      let (outside, other) =
        Outside-of_public (if global_unicast ip then public else reserved) ipv6_blocks ip refl
          (rw direct at h) in
      inr (public_default (global_unicast ip) other, outside)
]

abbrev pub IsReachable : Option ℕ → Option ℕ → Type 0
IsReachable (some ip) _ = Outside ipv4_blocks ip
IsReachable none (some ip) = IsReachableIpv6 ip
IsReachable none none = ⊥

IsReachable-of_public :
    (four six : Option ℕ) → is_public (reference four six) ≡ true → IsReachable four six
IsReachable-of_public (some ip) six h = public_ipv4 ip h
IsReachable-of_public none (some ip) h = public_ipv6 ip h
IsReachable-of_public none none h = cc

-- The check lets an address through only if it parses and is either an IPv4 address outside every
-- blocked range, an IPv6 address that embeds such a one, or a global unicast IPv6 address outside
-- every blocked range; everything else, unparseable texts included, it refuses.
pub IsReachable-of_allowed :
    (address : List ℕ)
    → is_private_or_reserved_address address ≡ false
    → IsReachable (parse_ipv4 address) (parse_ipv6 address)
unfolding is_private_or_reserved_address
IsReachable-of_allowed address h =
    IsReachable-of_public (parse_ipv4 address) (parse_ipv6 address)
      (subst (λ c. is_public c ≡ true) (classify_ip_address-reference address) (true_of_not _ h))
