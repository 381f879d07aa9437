-- ===== src/Net/IpPolicy/Ipv6Blocks.antt =====
-- The IPv6 side of src/domain/ip-policy.ts against the registry's blocks, written as the first
-- and the last address of each.
use scraplify.Base.{
  ℕ, ◌%◌, ◌^◌, ◌<◌, ◌≡◌, refl, ◌∙◌, Bool, List, [], ◌∷◌, nat_eq, leb, ◌&&◌, ◌||◌, if◌then◌else◌,
  arith, All, map,
}
use scraplify.Net.Bits.{bit_and_ones}
use scraplify.Net.IpPolicy.{
  IpAddressClassification, public, private, loopback, link_local, reserved, unspecified, parse_ipv6,
  ipv6_in_cidr, classify_ipv6_by, classify_ipv6,
}
use scraplify.Net.IpPolicy.Masks.{ipv6_in_cidr-eq}
use scraplify.Net.IpPolicy.Blocks.{
  Block, block, first_block, to_range, ipv4_blocks, classify_ipv4-first_block,
}

abbrev pub within : ℕ → ℕ → ℕ → Bool
within lo hi ip = leb lo ip && leb ip hi

abbrev pub ipv6_blocks : List Block
ipv6_blocks =
    block "::" 128 0x0 0x0 unspecified
    ∷ block "::1" 128 0x1 0x1 loopback
    ∷ block "64:ff9b:1::" 48 0x64ff9b000100000000000000000000 0x64ff9b0001ffffffffffffffffffff
        reserved
    ∷ block "100::" 64 0x1000000000000000000000000000000 0x100000000000000ffffffffffffffff reserved
    ∷ block "2001:db8::" 32 0x20010db8000000000000000000000000 0x20010db8ffffffffffffffffffffffff
        reserved
    ∷ block "2001::" 23 0x20010000000000000000000000000000 0x200101ffffffffffffffffffffffffff
        reserved
    ∷ block "2002::" 16 0x20020000000000000000000000000000 0x2002ffffffffffffffffffffffffffff
        reserved
    ∷ block "3fff::" 20 0x3fff0000000000000000000000000000 0x3fff0fffffffffffffffffffffffffff
        reserved
    ∷ block "fc00::" 7 0xfc000000000000000000000000000000 0xfdffffffffffffffffffffffffffffff private
    ∷ block "fec0::" 10 0xfec00000000000000000000000000000 0xfeffffffffffffffffffffffffffffff
        private
    ∷ block "fe80::" 10 0xfe800000000000000000000000000000 0xfebfffffffffffffffffffffffffffff
        link_local
    ∷ block "ff00::" 8 0xff000000000000000000000000000000 0xffffffffffffffffffffffffffffffff
        reserved
    ∷ []

-- ::ffff:0:0 to ::ffff:ffff:ffff
abbrev pub ipv4_mapped : ℕ → Bool
ipv4_mapped = within 0xffff00000000 0xffffffffffff

-- 64:ff9b:: to 64:ff9b::ffff:ffff
abbrev pub nat64 : ℕ → Bool
nat64 = within 0x64ff9b000000000000000000000000 0x64ff9b0000000000000000ffffffff

-- 2000:: to 3fff:ffff:ffff:ffff:ffff:ffff:ffff:ffff
abbrev pub global_unicast : ℕ → Bool
global_unicast = within 0x20000000000000000000000000000000 0x3fffffffffffffffffffffffffffffff

-- The reference: what an address embeds, else its block, else public inside 2000::/3 alone.
abbrev pub ipv6_reference : ℕ → IpAddressClassification
ipv6_reference ip =
    if ipv4_mapped ip || nat64 ip
    then first_block public ipv4_blocks (ip % 2 ^ 32)
    else first_block (if global_unicast ip then public else reserved) ipv6_blocks ip

abbrev Agrees : ℕ → Block → Type 0
Agrees ip b = ipv6_in_cidr ip b.network b.prefix_length ≡ within b.first b.last ip

classify_ipv6_by-blocks :
    (ip : ℕ) (bs : List Block)
    → All (Agrees ip) bs
    → ipv6_in_cidr ip "2000::" 3 ≡ global_unicast ip
    → classify_ipv6_by (map to_range bs) ip
      ≡ first_block (if global_unicast ip then public else reserved) bs ip
unfolding classify_ipv6_by
classify_ipv6_by-blocks ip [] h g = rw g (ground arith)
classify_ipv6_by-blocks ip (b ∷ bs) (h, hs) g = rw (h, classify_ipv6_by-blocks ip bs hs g)

module _ (ip : ℕ) (small : ip < 2 ^ 128) where
  in_mapped : ipv6_in_cidr ip "::ffff:0:0" 96 ≡ ipv4_mapped ip
  unfolding parse_ipv6
  in_mapped =
      ipv6_in_cidr-eq ip "::ffff:0:0" 96 32 0xffff00000000 refl refl (omega arith) (omega arith)
      ∙ ground arith

  in_nat64 : ipv6_in_cidr ip "64:ff9b::" 96 ≡ nat64 ip
  unfolding parse_ipv6
  in_nat64 =
      ipv6_in_cidr-eq ip "64:ff9b::" 96 32 0x64ff9b000000000000000000000000 refl refl (omega arith)
        (omega arith)
      ∙ ground arith

  in_global_unicast : ipv6_in_cidr ip "2000::" 3 ≡ global_unicast ip
  unfolding parse_ipv6
  in_global_unicast =
      ipv6_in_cidr-eq ip "2000::" 3 125 0x20000000000000000000000000000000 refl refl (omega arith)
        (omega arith)
      ∙ ground arith

  All-agree : All (Agrees ip) ipv6_blocks
  unfolding parse_ipv6
  All-agree =
      ((
        ipv6_in_cidr-eq ip "::" 128 0 0x0 refl refl (omega arith) (omega arith) ∙ ground arith,
        (
          ipv6_in_cidr-eq ip "::1" 128 0 0x1 refl refl (omega arith) (omega arith) ∙ ground arith,
          (
            ipv6_in_cidr-eq ip "64:ff9b:1::" 48 80 0x64ff9b000100000000000000000000 refl refl
                  (omega arith) (omega arith)
                ∙ ground arith,
            (
              ipv6_in_cidr-eq ip "100::" 64 64 0x1000000000000000000000000000000 refl refl
                    (omega arith) (omega arith)
                  ∙ ground arith,
              (
                ipv6_in_cidr-eq ip "2001:db8::" 32 96 0x20010db8000000000000000000000000 refl refl
                      (omega arith) (omega arith)
                    ∙ ground arith,
                (
                  ipv6_in_cidr-eq ip "2001::" 23 105 0x20010000000000000000000000000000 refl refl
                        (omega arith) (omega arith)
                      ∙ ground arith,
                  (
                    ipv6_in_cidr-eq ip "2002::" 16 112 0x20020000000000000000000000000000 refl refl
                          (omega arith) (omega arith)
                        ∙ ground arith,
                    (
                      ipv6_in_cidr-eq ip "3fff::" 20 108 0x3fff0000000000000000000000000000 refl
                            refl (omega arith) (omega arith)
                          ∙ ground arith,
                      (
                        ipv6_in_cidr-eq ip "fc00::" 7 121 0xfc000000000000000000000000000000 refl
                              refl (omega arith) (omega arith)
                            ∙ ground arith,
                        (
                          ipv6_in_cidr-eq ip "fec0::" 10 118 0xfec00000000000000000000000000000 refl
                                refl (omega arith) (omega arith)
                              ∙ ground arith,
                          (
                            ipv6_in_cidr-eq ip "fe80::" 10 118 0xfe800000000000000000000000000000
                                  refl refl (omega arith) (omega arith)
                                ∙ ground arith,
                            (
                              ipv6_in_cidr-eq ip "ff00::" 8 120 0xff000000000000000000000000000000
                                    refl refl (omega arith) (omega arith)
                                  ∙ ground arith,
                              tt,
                            ),
                          ),
                        ),
                      ),
                    ),
                  ),
                ),
              ),
            ),
          ),
        ),
      ))

-- On every 128-bit value the masks agree with the reference read from intervals of addresses.
pub classify_ipv6-reference : (ip : ℕ) → ip < 2 ^ 128 → classify_ipv6 ip ≡ ipv6_reference ip
unfolding classify_ipv6
classify_ipv6-reference ip small =
    let once : ip % 2 ^ 32 % 2 ^ 32 ≡ ip % 2 ^ 32 = omega arith in
    let embedded = classify_ipv4-first_block (ip % 2 ^ 32) (omega arith) in
    let direct =
      classify_ipv6_by-blocks ip ipv6_blocks (All-agree ip small) (in_global_unicast ip small) in
    rw (in_mapped ip small, in_nat64 ip small, bit_and_ones 32 ip, once) (rw (embedded, direct))
