-- ===== src/Net/Bits.antt =====
-- The laws of `&` that the masks of src/domain/ip-policy.ts need, for masks of any width.
use Prim.Native.Nat.{bit_and, digits, bit_and-bitwise}
use scraplify.Base.{
  ℕ, zero, suc, ◌+◌, ◌-◌, ◌*◌, ◌/◌, ◌%◌, ◌^◌, ◌≤◌, ◌<◌, min, ◌≡◌, refl, sym, arith,
}
use native.Mathlib.Nat.{pow-suc, mul_comm, mul_assoc, div-div-eq-div-mul, mod-eq_of_lt}

-- The loop behind `&`: what it reads of its first argument decides how long it must run.
abbrev loop : ℕ → ℕ → ℕ → ℕ
loop fuel a b = digits (λ b. zero) min fuel a b

loop_same : (f g a b : ℕ) → a ≤ f → a ≤ g → loop f a b ≡ loop g a b
loop_same zero zero a b h k = refl
loop_same zero (suc g) zero b h k = refl
loop_same zero (suc g) (suc a) b h k = absurd (omega arith)
loop_same (suc f) zero zero b h k = refl
loop_same (suc f) zero (suc a) b h k = absurd (omega arith)
loop_same (suc f) (suc g) zero b h k = refl
loop_same (suc f) (suc g) (suc a) b h k =
    omega (arith, loop_same f g (suc a / 2) (b / 2) (omega arith) (omega arith))

pub bit_and-halves : (a b : ℕ) → bit_and a b ≡ bit_and (a / 2) (b / 2) * 2 + min (a % 2) (b % 2)
bit_and-halves zero b = omega (arith, bit_and-bitwise 0 b, bit_and-bitwise 0 (b / 2))
bit_and-halves (suc a) b = omega (
  arith,
  bit_and-bitwise (suc a) b,
  bit_and-bitwise (suc a / 2) (b / 2),
  loop_same a (suc a / 2) (suc a / 2) (b / 2) (omega arith) (omega arith),
)

bit_and-zero_below : (n a : ℕ) → a ≤ n → bit_and a 0 ≡ 0
bit_and-zero_below n zero h = refl
bit_and-zero_below zero (suc a) h = absurd (omega arith)
bit_and-zero_below (suc n) (suc a) h =
    omega (arith, bit_and-halves (suc a) 0, bit_and-zero_below n (suc a / 2) (omega arith))

mod-double : (x m : ℕ) → 0 < m → x % (2 * m) ≡ (x / 2 % m) * 2 + x % 2
mod-double x m h = grind arith

pub pow-pos : (n : ℕ) → 0 < 2 ^ n
pow-pos zero = omega arith
pow-pos (suc n) = omega (arith, pow-pos n, pow-suc 2 n)

-- A mask of `n` ones keeps the low `n` bits.
pub bit_and_ones : (n a : ℕ) → bit_and a (2 ^ n - 1) ≡ a % 2 ^ n
bit_and_ones zero a = omega (arith, bit_and-zero_below a a (omega arith))
bit_and_ones (suc n) a =
    let double : 2 ^ suc n ≡ 2 * 2 ^ n = omega (arith, pow-suc 2 n) in
    let half : (2 * 2 ^ n - 1) / 2 ≡ 2 ^ n - 1 = omega (arith, pow-pos n) in
    let odd : (2 * 2 ^ n - 1) % 2 ≡ 1 = omega (arith, pow-pos n) in
    let step : bit_and a (2 * 2 ^ n - 1) ≡ bit_and (a / 2) (2 ^ n - 1) * 2 + min (a % 2) 1 =
      rw (half, odd) at (bit_and-halves a (2 * 2 ^ n - 1)) in
    rw double (omega (arith, step, bit_and_ones n (a / 2), mod-double a (2 ^ n) (pow-pos n)))

bit_and-double : (a m : ℕ) → bit_and a (m * 2) ≡ bit_and (a / 2) m * 2
bit_and-double a m =
    let half : m * 2 / 2 ≡ m = omega arith in
    let even : m * 2 % 2 ≡ 0 = omega arith in
    let step : bit_and a (m * 2) ≡ bit_and (a / 2) m * 2 + min (a % 2) 0 =
      rw (half, even) at (bit_and-halves a (m * 2)) in
    omega arith

times-pow : (m k : ℕ) → m * 2 ^ suc k ≡ m * 2 ^ k * 2
times-pow m k = rw pow-suc (sym (mul_assoc m (2 ^ k) 2))

-- A mask shifted left by `k` looks at the number shifted right by `k`.
pub bit_and_shifted : (k a m : ℕ) → bit_and a (m * 2 ^ k) ≡ bit_and (a / 2 ^ k) m * 2 ^ k
bit_and_shifted zero a m =
    let same : a / 2 ^ 0 ≡ a = omega arith in
    let times : m * 2 ^ 0 ≡ m = omega arith in rw (times, same) (omega arith)
bit_and_shifted (suc k) a m =
    let wide : m * 2 ^ suc k ≡ m * 2 ^ k * 2 = times-pow m k in
    let far : a / 2 ^ suc k ≡ a / 2 / 2 ^ k =
      rw (pow-suc, mul_comm (2 ^ k) 2) (sym (div-div-eq-div-mul a 2 (2 ^ k))) in
    rw (wide, far)
      (omega (
        arith,
        bit_and-double a (m * 2 ^ k),
        bit_and_shifted k (a / 2) m,
        times-pow (bit_and (a / 2 / 2 ^ k) m) k,
      ))

-- The mask of a prefix of `p` bits, in a word of `p + k`.
pub bit_and_prefix :
    (p k a : ℕ) → a / 2 ^ k < 2 ^ p → bit_and a ((2 ^ p - 1) * 2 ^ k) ≡ a / 2 ^ k * 2 ^ k
bit_and_prefix p k a h =
    rw (bit_and_shifted k a (2 ^ p - 1), bit_and_ones p (a / 2 ^ k), mod-eq_of_lt h)
