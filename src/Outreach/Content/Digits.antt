-- ===== src/Outreach/Content/Digits.antt =====
-- The decimals of a number (src/outreach/draft-store.ts by `JSON.stringify`) read back.
use scraplify.Base.{
  ℕ, zero, suc, ◌+◌, ◌-◌, ◌*◌, ◌/◌, ◌%◌, ◌≤◌, ◌<◌, ◌≡◌, refl, sym, ap, ◌∙◌, Bool, true, ◌&&◌, [],
  ◌∷◌, ◌++◌, ltb, nat_eq, inl, inr, all, Text, Bool-cases, and_right, arith,
}
use scraplify.Net.IpPolicy.Text.{is_digit, value_from}
use scraplify.Outreach.Content.{decimal_from, decimal}
use scraplify.Outreach.Content.Quoting.{head_eq}

-- The digits read back.
value_from-append :
    (n : ℕ) (s : Text) (c : ℕ) → value_from n (s ++ c ∷ []) ≡ value_from n s * 10 + (c - b'0')
unfolding value_from
value_from-append n [] c = refl
value_from-append n (d ∷ s) c = value_from-append (n * 10 + (d - b'0')) s c

value_from_nil : (n : ℕ) → value_from n [] ≡ n
unfolding value_from
value_from_nil n = refl

value_from-decimal_from : (fuel n : ℕ) → n < fuel → value_from 0 (decimal_from fuel n) ≡ n
unfolding decimal_from
value_from-decimal_from zero n h = absurd (omega arith)
value_from-decimal_from (suc fuel) n h = elim (Bool-cases (ltb n 10)) [
  | inl e ↦ rw e (value_from-append 0 [] (b'0' + n) ∙ omega (arith, value_from_nil 0))
  | inr e ↦
      let big : 10 ≤ n = ground arith in
      let ih = value_from-decimal_from fuel (n / 10) (omega arith) in
      rw e (value_from-append 0 (decimal_from fuel (n / 10)) (b'0' + n % 10) ∙ omega arith)
]

all-append : (p : ℕ → Bool) (s t : Text) → all p (s ++ t) ≡ (all p s && all p t)
all-append p [] t = refl
all-append p (c ∷ s) t = ground (arith, all-append p s t)

is_digit-decimal_from : (fuel n : ℕ) → all is_digit (decimal_from fuel n) ≡ true
unfolding decimal_from
is_digit-decimal_from zero n = refl
is_digit-decimal_from (suc fuel) n = elim (Bool-cases (ltb n 10)) [
  | inl e ↦ rw e (ground arith)
  | inr e ↦
      rw
        (
          e,
          all-append is_digit (decimal_from fuel (n / 10)) ((b'0' + n % 10) ∷ []),
          is_digit-decimal_from fuel (n / 10),
        )
        (ground arith)
]

-- Texts of digits before a comma.
digits-injective :
    (s t r q : Text)
    → all is_digit s ≡ true
    → all is_digit t ≡ true
    → s ++ b',' ∷ r ≡ t ++ b',' ∷ q
    → (s ≡ t) × (r ≡ q)
digits-injective [] [] r q h k e = (refl, (head_eq _ _ _ _ e).1)
digits-injective [] (d ∷ t) r q h k e = let same = (head_eq _ _ _ _ e).0 in absurd (ground arith)
digits-injective (c ∷ s) [] r q h k e = let same = (head_eq _ _ _ _ e).0 in absurd (ground arith)
digits-injective (c ∷ s) (d ∷ t) r q h k e =
    let (same, rest) = head_eq _ _ _ _ e in
    let (tail, left) =
      digits-injective s t r q (and_right (is_digit c) _ h) (and_right (is_digit d) _ k) rest in
    (cc, left)

-- A number and what stands after its comma can be told apart.
pub decimal-injective :
    (n m : ℕ) (r q : Text) → decimal n ++ b',' ∷ r ≡ decimal m ++ b',' ∷ q → (n ≡ m) × (r ≡ q)
unfolding decimal
decimal-injective n m r q e =
    let (same, rest) =
      digits-injective _ _ r q (is_digit-decimal_from (suc n) n) (is_digit-decimal_from (suc m) m)
        e in
    (
      sym (value_from-decimal_from (suc n) n (omega arith))
          ∙ ap (value_from 0) same
          ∙ value_from-decimal_from (suc m) m (omega arith),
      rest,
    )
