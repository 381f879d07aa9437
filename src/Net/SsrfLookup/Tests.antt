-- ===== src/Net/SsrfLookup/Tests.antt =====
-- A public address with a private one behind it.
use scraplify.Base.{◌≡◌, refl, true, false, [], ◌∷◌}
use scraplify.Net.IpPolicy.{
  is_private_or_reserved_address, classify_ip_address, parse_ipv4, parse_ipv6, classify_ipv4,
  classify_ipv6, ipv4_in_cidr, ipv6_in_cidr,
}
use scraplify.Net.IpPolicy.Text.{codes}
use scraplify.Net.SsrfLookup.{
  Resolution, resolved, ssrf_blocked, one_address, ssrf_safe_lookup, IsSafeAnswer,
  ssrf_safe_lookup-IsSafe,
}

abbrev decoy : Resolution
decoy = resolved (
    record { address = codes "8.8.8.8"; family = 4 }
    ∷ record { address = codes "10.0.0.1"; family = 4 }
    ∷ [])

abbrev open_one : Resolution
open_one = resolved (record { address = codes "8.8.8.8"; family = 4 } ∷ [])

lookups :
    (ssrf_safe_lookup (codes "h") false decoy ≡ ssrf_blocked (codes "h") (codes "10.0.0.1" ∷ []))
    × (ssrf_safe_lookup (codes "h") false open_one ≡ one_address (codes "8.8.8.8") 4)
unfolding ssrf_safe_lookup is_private_or_reserved_address classify_ip_address parse_ipv4 parse_ipv6
    classify_ipv4 classify_ipv6 ipv4_in_cidr ipv6_in_cidr
lookups = (refl, refl)

ssrf_safe_lookup-IsSafe_example : IsSafeAnswer open_one (ssrf_safe_lookup (codes "h") true open_one)
ssrf_safe_lookup-IsSafe_example = ssrf_safe_lookup-IsSafe (codes "h") true open_one
