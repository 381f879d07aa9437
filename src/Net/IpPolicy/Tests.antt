-- ===== src/Net/IpPolicy/Tests.antt =====
-- Addresses in several spellings, as src/domain/ip-policy.test.ts has them.
use scraplify.Base.{◌≡◌, refl, none, some, [], ◌∷◌, map, false}
use scraplify.Net.IpPolicy.{
  public, private, loopback, link_local, cgnat, reserved, unspecified, parse_ipv4, parse_ipv6,
  classify_ipv4, classify_ipv6, ipv4_in_cidr, ipv6_in_cidr, classify_ip_address,
  is_private_or_reserved_address,
}
use scraplify.Net.IpPolicy.Text.{codes}
use scraplify.Net.IpPolicy.Policy.{
  reference, classify_ip_address-reference, IsReachable, IsReachable-of_allowed,
}

classified :
    map
      (λ s. classify_ip_address (codes s))
      ("8.8.8.8" ∷ "127.0.0.1" ∷ "172.31.255.255" ∷ "100.64.0.1" ∷ "1.2.3.256" ∷ "::ffff:127.0.0.1"
        ∷ "::ffff:7f00:1" ∷ "64:ff9b:1:a00:0:100::" ∷ "64:ff9b::10.0.0.1" ∷ "fe80::1%eth0" ∷ "::"
        ∷ "2606:4700:4700::1111" ∷ "fe00::1" ∷ "1::2::3" ∷ "host" ∷ [])
    ≡ some public
      ∷ some loopback
      ∷ some private
      ∷ some cgnat
      ∷ none
      ∷ some loopback
      ∷ some loopback
      ∷ some reserved
      ∷ some private
      ∷ some link_local
      ∷ some unspecified
      ∷ some public
      ∷ some reserved
      ∷ none
      ∷ none
      ∷ []
unfolding classify_ip_address parse_ipv4 parse_ipv6 classify_ipv4 classify_ipv6 ipv4_in_cidr
    ipv6_in_cidr
classified = refl

classify_ip_address-reference_example :
    classify_ip_address (codes "10.1.2.3")
    ≡ reference (parse_ipv4 (codes "10.1.2.3")) (parse_ipv6 (codes "10.1.2.3"))
classify_ip_address-reference_example = classify_ip_address-reference (codes "10.1.2.3")

dns_allowed : is_private_or_reserved_address (codes "8.8.8.8") ≡ false
unfolding is_private_or_reserved_address parse_ipv4 parse_ipv6 classify_ipv4 classify_ipv6
    ipv4_in_cidr ipv6_in_cidr
dns_allowed = refl

IsReachable-of_allowed_example :
    IsReachable (parse_ipv4 (codes "8.8.8.8")) (parse_ipv6 (codes "8.8.8.8"))
IsReachable-of_allowed_example = IsReachable-of_allowed (codes "8.8.8.8") dns_allowed
