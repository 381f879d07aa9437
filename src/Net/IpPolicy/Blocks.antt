-- ===== src/Net/IpPolicy/Blocks.antt =====
-- The IPv4 side of src/domain/ip-policy.ts against the registry's blocks, written as the first
-- and the last address of each.
use scraplify.Base.{
  ℕ, ◌+◌, ◌*◌, ◌^◌, ◌<◌, ◌≡◌, refl, ◌∙◌, List, [], ◌∷◌, nat_eq, leb, ◌&&◌, if◌then◌else◌, arith,
  String, All, map,
}
use scraplify.Net.IpPolicy.{
  IpAddressClassification, public, private, loopback, link_local, cgnat, reserved, IpRange,
  parse_ipv4, ipv4_in_cidr, classify_ipv4_by, classify_ipv4,
}
use scraplify.Net.IpPolicy.Masks.{ipv4_in_cidr-eq}

pub record Block : Type 0 where
  pub network : String
  pub prefix_length : ℕ
  pub first : ℕ
  pub last : ℕ
  pub classification : IpAddressClassification

abbrev octets : ℕ → ℕ → ℕ → ℕ → ℕ
octets a b c d = ((a * 256 + b) * 256 + c) * 256 + d

abbrev pub block : String → ℕ → ℕ → ℕ → IpAddressClassification → Block
block n p lo hi c = record {
  network = n;
  prefix_length = p;
  first = lo;
  last = hi;
  classification = c;
}

abbrev pub ipv4_blocks : List Block
ipv4_blocks =
    block "0.0.0.0" 8 (octets 0 0 0 0) (octets 0 255 255 255) reserved
    ∷ block "10.0.0.0" 8 (octets 10 0 0 0) (octets 10 255 255 255) private
    ∷ block "100.64.0.0" 10 (octets 100 64 0 0) (octets 100 127 255 255) cgnat
    ∷ block "127.0.0.0" 8 (octets 127 0 0 0) (octets 127 255 255 255) loopback
    ∷ block "169.254.0.0" 16 (octets 169 254 0 0) (octets 169 254 255 255) link_local
    ∷ block "172.16.0.0" 12 (octets 172 16 0 0) (octets 172 31 255 255) private
    ∷ block "192.0.0.0" 24 (octets 192 0 0 0) (octets 192 0 0 255) reserved
    ∷ block "192.0.2.0" 24 (octets 192 0 2 0) (octets 192 0 2 255) reserved
    ∷ block "192.88.99.0" 24 (octets 192 88 99 0) (octets 192 88 99 255) reserved
    ∷ block "192.168.0.0" 16 (octets 192 168 0 0) (octets 192 168 255 255) private
    ∷ block "198.18.0.0" 15 (octets 198 18 0 0) (octets 198 19 255 255) reserved
    ∷ block "198.51.100.0" 24 (octets 198 51 100 0) (octets 198 51 100 255) reserved
    ∷ block "203.0.113.0" 24 (octets 203 0 113 0) (octets 203 0 113 255) reserved
    ∷ block "224.0.0.0" 4 (octets 224 0 0 0) (octets 239 255 255 255) reserved
    ∷ block "240.0.0.0" 4 (octets 240 0 0 0) (octets 255 255 255 255) reserved
    ∷ []

-- The class of the first block that holds the address, or what an address outside them has.
abbrev pub first_block : IpAddressClassification → List Block → ℕ → IpAddressClassification
first_block other [] ip = other
first_block other (b ∷ bs) ip =
    if leb b.first ip && leb ip b.last then b.classification else first_block other bs ip

abbrev pub to_range : Block → IpRange
to_range b = record {
  network = b.network;
  prefix_length = b.prefix_length;
  classification = b.classification;
}

abbrev Agrees : ℕ → Block → Type 0
Agrees ip b = ipv4_in_cidr ip b.network b.prefix_length ≡ (leb b.first ip && leb ip b.last)

classify_ipv4_by-blocks :
    (ip : ℕ) (bs : List Block)
    → All (Agrees ip) bs
    → classify_ipv4_by (map to_range bs) ip ≡ first_block public bs ip
unfolding classify_ipv4_by
classify_ipv4_by-blocks ip [] h = refl
classify_ipv4_by-blocks ip (b ∷ bs) (h, hs) = rw (h, classify_ipv4_by-blocks ip bs hs)

module _ (ip : ℕ) (small : ip < 2 ^ 32) where
  All-agree : All (Agrees ip) ipv4_blocks
  unfolding parse_ipv4
  All-agree =
      ((
        ipv4_in_cidr-eq ip "0.0.0.0" 8 24 0 refl refl (omega arith) (omega arith) ∙ ground arith,
        (
          ipv4_in_cidr-eq ip "10.0.0.0" 8 24 167772160 refl refl (omega arith) (omega arith)
              ∙ ground arith,
          (
            ipv4_in_cidr-eq ip "100.64.0.0" 10 22 1681915904 refl refl (omega arith) (omega arith)
                ∙ ground arith,
            (
              ipv4_in_cidr-eq ip "127.0.0.0" 8 24 2130706432 refl refl (omega arith) (omega arith)
                  ∙ ground arith,
              (
                ipv4_in_cidr-eq ip "169.254.0.0" 16 16 2851995648 refl refl (omega arith)
                      (omega arith)
                    ∙ ground arith,
                (
                  ipv4_in_cidr-eq ip "172.16.0.0" 12 20 2886729728 refl refl (omega arith)
                        (omega arith)
                      ∙ ground arith,
                  (
                    ipv4_in_cidr-eq ip "192.0.0.0" 24 8 3221225472 refl refl (omega arith)
                          (omega arith)
                        ∙ ground arith,
                    (
                      ipv4_in_cidr-eq ip "192.0.2.0" 24 8 3221225984 refl refl (omega arith)
                            (omega arith)
                          ∙ ground arith,
                      (
                        ipv4_in_cidr-eq ip "192.88.99.0" 24 8 3227017984 refl refl (omega arith)
                              (omega arith)
                            ∙ ground arith,
                        (
                          ipv4_in_cidr-eq ip "192.168.0.0" 16 16 3232235520 refl refl (omega arith)
                                (omega arith)
                              ∙ ground arith,
                          (
                            ipv4_in_cidr-eq ip "198.18.0.0" 15 17 3323068416 refl refl (omega arith)
                                  (omega arith)
                                ∙ ground arith,
                            (
                              ipv4_in_cidr-eq ip "198.51.100.0" 24 8 3325256704 refl refl
                                    (omega arith) (omega arith)
                                  ∙ ground arith,
                              (
                                ipv4_in_cidr-eq ip "203.0.113.0" 24 8 3405803776 refl refl
                                      (omega arith) (omega arith)
                                    ∙ ground arith,
                                (
                                  ipv4_in_cidr-eq ip "224.0.0.0" 4 28 3758096384 refl refl
                                        (omega arith) (omega arith)
                                      ∙ ground arith,
                                  (
                                    ipv4_in_cidr-eq ip "240.0.0.0" 4 28 4026531840 refl refl
                                          (omega arith) (omega arith)
                                        ∙ ground arith,
                                    tt,
                                  ),
                                ),
                              ),
                            ),
                          ),
                        ),
                      ),
                    ),
                  ),
                ),
              ),
            ),
          ),
        ),
      ))

-- On every 32-bit value the masks find exactly the first block of the table, read as an interval
-- of addresses, that holds the value; outside all of them an address is public.
pub classify_ipv4-first_block :
    (ip : ℕ) → ip < 2 ^ 32 → classify_ipv4 ip ≡ first_block public ipv4_blocks ip
unfolding classify_ipv4
classify_ipv4-first_block ip small = classify_ipv4_by-blocks ip ipv4_blocks (All-agree ip small)
