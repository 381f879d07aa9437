-- ===== src/Net/IpPolicy/Masks.antt =====
-- What the masks of src/domain/ip-policy.ts compare: the two numbers without their low bits.
use Prim.Native.Nat.{bit_and}
use scraplify.Base.{
  ℕ, ◌-◌, ◌*◌, ◌/◌, ◌^◌, ◌<◌, ◌≡◌, ap, Bool, true, some, String, ◌==◌, nat_eq, arith, nat_beq_iff,
}
use native.Mathlib.Nat.{eq_of_mul-eq-mul_right}
use scraplify.Net.Bits.{bit_and_prefix, pow-pos}
use scraplify.Net.IpPolicy.Text.{codes}
use scraplify.Net.IpPolicy.{
  parse_ipv4, ipv4_mask, ipv4_in_cidr, parse_ipv6, ipv6_mask, ipv6_in_cidr,
}

-- Two Boolean tests that imply one another are the same.
pub same_test : (a b : Bool) → (a ≡ true → b ≡ true) → (b ≡ true → a ≡ true) → a ≡ b
same_test a b f g = ground arith

-- Scaling does not change whether two numbers are equal.
beq-scaled : (a b m : ℕ) → 0 < m → (a * m == b * m) ≡ (a == b)
beq-scaled a b m h =
    same_test (a * m == b * m) (a == b)
      (λ e.
        (nat_beq_iff a b).1 (eq_of_mul-eq-mul_right m h a b ((nat_beq_iff (a * m) (b * m)).0 e)))
      (λ e. (nat_beq_iff (a * m) (b * m)).1 (ap (λ x. x * m) ((nat_beq_iff a b).0 e)))

pub masked_eq :
    (p k a b m : ℕ)
    → m ≡ (2 ^ p - 1) * 2 ^ k
    → a / 2 ^ k < 2 ^ p
    → b / 2 ^ k < 2 ^ p
    → (bit_and a m == bit_and b m) ≡ (a / 2 ^ k == b / 2 ^ k)
masked_eq p k a b m e h h' =
    rw (e, bit_and_prefix p k a h, bit_and_prefix p k b h')
      (beq-scaled (a / 2 ^ k) (b / 2 ^ k) (2 ^ k) (pow-pos k))

-- An address is in a block when it agrees with the network above the low `k` bits.
pub ipv4_in_cidr-eq :
    (ip : ℕ) (network : String) (p k n : ℕ)
    → parse_ipv4 (codes network) ≡ some n
    → ipv4_mask p ≡ (2 ^ p - 1) * 2 ^ k
    → ip / 2 ^ k < 2 ^ p
    → n / 2 ^ k < 2 ^ p
    → ipv4_in_cidr ip network p ≡ (ip / 2 ^ k == n / 2 ^ k)
unfolding ipv4_in_cidr
ipv4_in_cidr-eq ip network p k n parsed mask h h' =
    rw (parsed, ipv4_in_cidr) (masked_eq p k ip n (ipv4_mask p) mask h h')

pub ipv6_in_cidr-eq :
    (ip : ℕ) (network : String) (p k n : ℕ)
    → parse_ipv6 (codes network) ≡ some n
    → ipv6_mask p ≡ (2 ^ p - 1) * 2 ^ k
    → ip / 2 ^ k < 2 ^ p
    → n / 2 ^ k < 2 ^ p
    → ipv6_in_cidr ip network p ≡ (ip / 2 ^ k == n / 2 ^ k)
unfolding ipv6_in_cidr
ipv6_in_cidr-eq ip network p k n parsed mask h h' =
    rw (parsed, ipv6_in_cidr) (masked_eq p k ip n (ipv6_mask p) mask h h')
