-- ===== src/Net/IpPolicy.antt =====
-- The classification of literal addresses (src/domain/ip-policy.ts), the boundary that decides
-- where the crawler may connect. A text is the list of its code points. A 32-bit value is a
-- number below 2^32, a `bigint` a number; `>>> 0` is `% 2 ^ 32`.
pub mod Text
pub mod Masks
pub mod Blocks
pub mod Ipv6Blocks
pub mod Parsing
pub mod Policy
mod Tests
use Prim.Native.Nat.{bit_and}
use scraplify.Base.{
  ℕ, zero, suc, ◌+◌, ◌-◌, ◌*◌, ◌/◌, ◌%◌, ◌^◌, Bool, true, false, not, ◌&&◌, ◌||◌, Option, none,
  some, List, [], ◌∷◌, ◌++◌, String, ◌==◌, nat_eq, ltb, leb, if◌then◌else◌, length,
}
use scraplify.Net.IpPolicy.Text.{
  codes, is_digits, decimal_value, is_hex_group, hex_value, split, last_index_of, index_of, take,
  drop, double_colon_count, split_double_colon, to_hex, replicate,
}

pub data IpAddressClassification : Type 0 where
  public private loopback link_local cgnat reserved unspecified : IpAddressClassification

pub record IpRange : Type 0 where
  pub network : String
  pub prefix_length : ℕ
  pub classification : IpAddressClassification

abbrev range : String → ℕ → IpAddressClassification → IpRange
range n p c = record { network = n; prefix_length = p; classification = c }

abbrev pub ipv4_ranges : List IpRange
ipv4_ranges =
    range "0.0.0.0" 8 reserved
    ∷ range "10.0.0.0" 8 private
    ∷ range "100.64.0.0" 10 cgnat
    ∷ range "127.0.0.0" 8 loopback
    ∷ range "169.254.0.0" 16 link_local
    ∷ range "172.16.0.0" 12 private
    ∷ range "192.0.0.0" 24 reserved
    ∷ range "192.0.2.0" 24 reserved
    ∷ range "192.88.99.0" 24 reserved
    ∷ range "192.168.0.0" 16 private
    ∷ range "198.18.0.0" 15 reserved
    ∷ range "198.51.100.0" 24 reserved
    ∷ range "203.0.113.0" 24 reserved
    ∷ range "224.0.0.0" 4 reserved
    ∷ range "240.0.0.0" 4 reserved
    ∷ []

abbrev pub ipv6_ranges : List IpRange
ipv6_ranges =
    range "::" 128 unspecified
    ∷ range "::1" 128 loopback
    ∷ range "64:ff9b:1::" 48 reserved
    ∷ range "100::" 64 reserved
    ∷ range "2001:db8::" 32 reserved
    ∷ range "2001::" 23 reserved
    ∷ range "2002::" 16 reserved
    ∷ range "3fff::" 20 reserved
    ∷ range "fc00::" 7 private
    ∷ range "fec0::" 10 private
    ∷ range "fe80::" 10 link_local
    ∷ range "ff00::" 8 reserved
    ∷ []

-- The loop of `parseIpv4` over the parts.
unfoldable pub ipv4_parts : ℕ → List (List ℕ) → Option ℕ
unfolding decimal_value
ipv4_parts result [] = some result
ipv4_parts result (part ∷ parts) =
    let rest = ipv4_parts (result * 256 % 2 ^ 32 + decimal_value part) parts in
    if not (is_digits 1 3 part) then none else if ltb 255 (decimal_value part) then none else rest

unfoldable pub parse_ipv4 : List ℕ → Option ℕ
unfolding split ipv4_parts
parse_ipv4 address =
    let parts = split b'.' address in if not (length parts == 4) then none else ipv4_parts 0 parts

abbrev pub ipv4_mask : ℕ → ℕ
ipv4_mask prefix_length =
    if prefix_length == 0 then 0 else 0xffffffff * 2 ^ (32 - prefix_length) % 2 ^ 32

unfoldable pub ipv4_in_cidr : ℕ → String → ℕ → Bool
unfolding parse_ipv4
ipv4_in_cidr ip network prefix_length = elim (parse_ipv4 (codes network)) [
  | none ↦ false
  | some network_addr ↦
      bit_and ip (ipv4_mask prefix_length) == bit_and network_addr (ipv4_mask prefix_length)
]

unfoldable pub classify_ipv4_by : List IpRange → ℕ → IpAddressClassification
classify_ipv4_by [] ip = public
classify_ipv4_by (r ∷ rs) ip =
    if ipv4_in_cidr ip r.network r.prefix_length then r.classification else classify_ipv4_by rs ip

unfoldable pub classify_ipv4 : ℕ → IpAddressClassification
unfolding classify_ipv4_by
classify_ipv4 ip = classify_ipv4_by ipv4_ranges ip

-- The zone is cut off: `address.slice(0, address.indexOf('%'))`.
abbrev pub without_zone : List ℕ → List ℕ
without_zone address = elim (index_of b'%' address) [ none ↦ address | some i ↦ take i address ]

-- An embedded IPv4 tail is rewritten to two hexadecimal groups; `none` is `return null`.
unfoldable pub rewrite_tail : List ℕ → Option (List ℕ)
unfolding parse_ipv4 index_of last_index_of to_hex
rewrite_tail addr = elim (index_of b'.' addr) [
  | none ↦ some addr
  | some _ ↦ elim (last_index_of b':' addr) [
    | none ↦ none
    | some last_colon ↦ elim (parse_ipv4 (drop (suc last_colon) addr)) [
      | none ↦ none
      | some v ↦
          some (take (suc last_colon) addr ++ to_hex (v / 2 ^ 16) ++ b':' ∷ to_hex (v % 2 ^ 16))
    ]
  ]
]

-- `!side ? [] : side.split(':')`.
abbrev pub side_groups : List ℕ → List (List ℕ)
side_groups [] = []
side_groups (c ∷ s) = split b':' (c ∷ s)

-- The groups of an address, its `::` filled with zeros; `none` is `return null`.
unfoldable pub address_groups : List ℕ → Option (List (List ℕ))
unfolding split split_double_colon double_colon_count
address_groups addr =
    if ltb 1 (double_colon_count addr) then none else elim (split_double_colon addr) [
      | none ↦ some (split b':' addr)
      | some (left, right) ↦
          if ltb 8 (length (side_groups left) + length (side_groups right))
          then none
          else some (
              side_groups left
              ++ replicate (8 - length (side_groups left) - length (side_groups right)) (b'0' ∷ [])
              ++ side_groups right)
    ]

-- The loop of `parseIpv6` over the groups.
unfoldable pub ipv6_groups : ℕ → List (List ℕ) → Option ℕ
unfolding hex_value
ipv6_groups result [] = some result
ipv6_groups result (group ∷ groups) =
    let rest = ipv6_groups (result * 2 ^ 16 + hex_value group) groups in
    if not (is_hex_group group) then none else rest

unfoldable pub parse_groups : Option (List (List ℕ)) → Option ℕ
unfolding ipv6_groups
parse_groups none = none
parse_groups (some groups) = if not (length groups == 8) then none else ipv6_groups 0 groups

abbrev then_parse : Option (List ℕ) → Option ℕ
then_parse none = none
then_parse (some addr) = parse_groups (address_groups addr)

unfoldable pub parse_ipv6 : List ℕ → Option ℕ
unfolding index_of rewrite_tail address_groups parse_groups ipv6_groups
parse_ipv6 address =
    let addr = without_zone address in
    if length addr == 0 then none else then_parse (rewrite_tail addr)

abbrev pub ipv6_max : ℕ
ipv6_max = 2 ^ 128 - 1

abbrev pub ipv6_mask : ℕ → ℕ
ipv6_mask prefix_length =
    if prefix_length == 0 then 0 else bit_and (ipv6_max * 2 ^ (128 - prefix_length)) ipv6_max

unfoldable pub ipv6_in_cidr : ℕ → String → ℕ → Bool
unfolding parse_ipv6
ipv6_in_cidr ip network prefix_length = elim (parse_ipv6 (codes network)) [
  | none ↦ false
  | some network_addr ↦
      bit_and ip (ipv6_mask prefix_length) == bit_and network_addr (ipv6_mask prefix_length)
]

-- The loop of `classifyIpv6` over its ranges, and what follows it.
unfoldable pub classify_ipv6_by : List IpRange → ℕ → IpAddressClassification
classify_ipv6_by [] ip = if not (ipv6_in_cidr ip "2000::" 3) then reserved else public
classify_ipv6_by (r ∷ rs) ip =
    if ipv6_in_cidr ip r.network r.prefix_length then r.classification else classify_ipv6_by rs ip

unfoldable pub classify_ipv6 : ℕ → IpAddressClassification
unfolding classify_ipv6_by
classify_ipv6 ip =
    if ipv6_in_cidr ip "::ffff:0:0" 96 || ipv6_in_cidr ip "64:ff9b::" 96
    then classify_ipv4 (bit_and ip 0xffffffff % 2 ^ 32)
    else classify_ipv6_by ipv6_ranges ip

-- The body of `classifyIpAddress`, from what the two parsers return; the second is only asked
-- where the first fails.
unfoldable pub classify_parsed : Option ℕ → Option ℕ → Option IpAddressClassification
classify_parsed (some ipv4) _ = some (classify_ipv4 ipv4)
classify_parsed none (some ipv6) = some (classify_ipv6 ipv6)
classify_parsed none none = none

unfoldable pub classify_ip_address : List ℕ → Option IpAddressClassification
unfolding classify_parsed
classify_ip_address address = classify_parsed (parse_ipv4 address) (parse_ipv6 address)

abbrev pub is_public : Option IpAddressClassification → Bool
is_public (some public) = true
is_public _ = false

unfoldable pub is_private_or_reserved_address : List ℕ → Bool
unfolding classify_ip_address
is_private_or_reserved_address address = not (is_public (classify_ip_address address))
