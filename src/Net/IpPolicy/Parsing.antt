-- ===== src/Net/IpPolicy/Parsing.antt =====
-- The parsers of src/domain/ip-policy.ts stay inside 32 and 128 bits.
use scraplify.Base.{
  ℕ, ◌+◌, ◌*◌, ◌%◌, ◌^◌, ◌<◌, ◌≤◌, ◌≡◌, subst, true, Option, none, some, List, [], ◌∷◌, nat_eq,
  arith, length, Option-cases, inl, inr, Bool-cases, all, and_left, and_right,
}
use native.Mathlib.Nat.{pow-suc, mul_comm, mul_assoc, le_trans, pow-le-pow_right}
use scraplify.Net.IpPolicy.Text.{
  is_hex_digit, hex_digit_value, hex_from, hex_value, is_hex_group, decimal_value, split,
}
use scraplify.Net.IpPolicy.{
  ipv4_parts, parse_ipv4, ipv6_groups, parse_groups, parse_ipv6, rewrite_tail, without_zone,
  address_groups,
}

ipv4_parts-lt :
    (result : ℕ) (parts : List (List ℕ)) (r : ℕ)
    → result < 2 ^ 32
    → ipv4_parts result parts ≡ some r
    → r < 2 ^ 32
unfolding ipv4_parts
ipv4_parts-lt result [] r h e = ground arith
ipv4_parts-lt result (part ∷ parts) r h e =
    ground (arith, ipv4_parts-lt (result * 256 % 2 ^ 32 + decimal_value part) parts r)

pub parse_ipv4-lt : (address : List ℕ) (r : ℕ) → parse_ipv4 address ≡ some r → r < 2 ^ 32
unfolding parse_ipv4
parse_ipv4-lt address r e = ground (arith, ipv4_parts-lt 0 (split b'.' address) r)

hex_digit_value-lt : (c : ℕ) → is_hex_digit c ≡ true → hex_digit_value c < 16
unfolding hex_digit_value
hex_digit_value-lt c h = ground arith

-- One more hexadecimal digit.
digit_below : (n d bound : ℕ) → n < bound → d < 16 → n * 16 + d < bound * 16
digit_below n d bound h k = omega arith

hex_from-lt :
    (s : List ℕ) (n bound : ℕ)
    → n < bound
    → all is_hex_digit s ≡ true
    → hex_from n s < bound * 16 ^ length s
unfolding hex_from
hex_from-lt [] n bound h a = omega arith
hex_from-lt (c ∷ s) n bound h a =
    let digit = hex_digit_value-lt c (and_left _ _ a) in
    let rest =
      hex_from-lt s (n * 16 + hex_digit_value c) (bound * 16)
        (digit_below n (hex_digit_value c) bound h digit) (and_right _ _ a) in
    rw (pow-suc, mul_comm (16 ^ length s) 16, ← mul_assoc) rest

hex_value-lt : (s : List ℕ) → is_hex_group s ≡ true → hex_value s < 2 ^ 16
unfolding hex_value
hex_value-lt s h =
    let short : length s ≤ 4 = ground arith in
    let below = hex_from-lt s 0 1 (omega arith) (ground arith) in
    le_trans below (omega (arith, pow-le-pow_right {n = 16} (omega arith) short))

group_below : (n v bound : ℕ) → n < bound → v < 2 ^ 16 → n * 2 ^ 16 + v < bound * 2 ^ 16
group_below n v bound h k = omega arith

ipv6_groups-lt :
    (groups : List (List ℕ)) (n bound r : ℕ)
    → n < bound
    → ipv6_groups n groups ≡ some r
    → r < bound * (2 ^ 16) ^ length groups
unfolding ipv6_groups
ipv6_groups-lt [] n bound r h e = ground arith
ipv6_groups-lt (g ∷ groups) n bound r h e = elim (Bool-cases (is_hex_group g)) [
  | inr bad ↦ absurd (ground arith)
  | inl good ↦
      let rest =
        ipv6_groups-lt groups (n * 2 ^ 16 + hex_value g) (bound * 2 ^ 16) r
          (group_below n (hex_value g) bound h (hex_value-lt g good)) (ground arith) in
      rw (pow-suc, mul_comm ((2 ^ 16) ^ length groups) (2 ^ 16), ← mul_assoc) rest
]

parse_groups-lt :
    (groups : Option (List (List ℕ))) (r : ℕ) → parse_groups groups ≡ some r → r < 2 ^ 128
unfolding parse_groups
parse_groups-lt none r e = cc
parse_groups-lt (some groups) r e =
    let eight : length groups ≡ 8 = ground arith in
    let below = ipv6_groups-lt groups 0 1 r (omega arith) (ground arith) in
    subst (λ k. r < 1 * (2 ^ 16) ^ k) eight below

pub parse_ipv6-lt : (address : List ℕ) (r : ℕ) → parse_ipv6 address ≡ some r → r < 2 ^ 128
unfolding parse_ipv6
parse_ipv6-lt address r e = elim (Option-cases (rewrite_tail (without_zone address))) [
  | inl bad ↦ absurd (ground arith)
  | inr (addr, good) ↦ parse_groups-lt (address_groups addr) r (ground arith)
]
