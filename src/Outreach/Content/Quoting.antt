-- ===== src/Outreach/Content/Quoting.antt =====
-- JSON strings (src/outreach/draft-store.ts by `JSON.stringify`): what follows a quoted text, and the
-- text itself, can be read off, so that no text can hold a delimiter.
use mathlib.Core.List.{append_assoc}
use scraplify.Base.{
  ℕ, zero, suc, ◌/◌, ◌%◌, ◌<◌, ◌≡◌, ◌≢◌, refl, sym, ap, ◌∙◌, true, false, ◌&&◌, [], ◌∷◌, ◌++◌, ltb,
  nat_eq, inl, inr, Text, length, Bool-cases, and_left, arith,
}
use scraplify.Net.IpPolicy.Text.{hex_digit}
use scraplify.Outreach.Content.{
  is_high_surrogate, is_low_surrogate, short_escape, hex4, is_hex_escaped, escape_unit, escape,
}

pub head_eq : (c d : ℕ) (r q : Text) → c ∷ r ≡ d ∷ q → (c ≡ d) × (r ≡ q)
head_eq c d r q e = (cc, cc)

hex_digit-injective : (a b : ℕ) → a < 16 → b < 16 → hex_digit a ≡ hex_digit b → a ≡ b
hex_digit-injective a b h k e = ground arith

ne_lit : (c d : ℕ) → c ≡ 92 → d ≡ 34 → c ≢ d
ne_lit c d h k = λ e. omega arith

short_escape-injective : (c d : ℕ) → 0 < short_escape c → short_escape c ≡ short_escape d → c ≡ d
unfolding short_escape
short_escape-injective c d h e = ground arith

hex4-injective :
    (c d : ℕ) (r q : Text) → c < 65536 → d < 65536 → hex4 c ++ r ≡ hex4 d ++ q → (c ≡ d) × (r ≡ q)
unfolding hex4
hex4-injective c d r q h k e =
    let (e1, r1) = head_eq _ _ _ _ e in
    let (e2, r2) = head_eq _ _ _ _ r1 in
    let (e3, r3) = head_eq _ _ _ _ r2 in
    let (e4, r4) = head_eq _ _ _ _ r3 in
    let d1 = hex_digit-injective (c / 4096) (d / 4096) (omega arith) (omega arith) e1 in
    let d2 = hex_digit-injective (c / 256 % 16) (d / 256 % 16) (omega arith) (omega arith) e2 in
    let d3 = hex_digit-injective (c / 16 % 16) (d / 16 % 16) (omega arith) (omega arith) e3 in
    let d4 = hex_digit-injective (c % 16) (d % 16) (omega arith) (omega arith) e4 in
    (omega arith, r4)

-- The three ways in which a code unit is written.
data Written (c : ℕ) : Type 0 where
  short : 0 < short_escape c → escape_unit c ≡ 92 ∷ short_escape c ∷ [] → Written c
  hex : is_hex_escaped c ≡ true → escape_unit c ≡ 92 ∷ b'u' ∷ hex4 c → Written c
  plain : c ≢ 92 → c ≢ 34 → is_hex_escaped c ≡ false → escape_unit c ≡ c ∷ [] → Written c

short_escape-ne_u : (c : ℕ) → short_escape c ≢ b'u'
unfolding short_escape
short_escape-ne_u c = λ e. ground arith

short_escape-zero : (c : ℕ) → ltb 0 (short_escape c) ≡ false → (c ≢ 92) × (c ≢ 34)
unfolding short_escape
short_escape-zero c e = ((λ k. ground arith), (λ k. ground arith))

Written-of : (c : ℕ) → Written c
unfolding escape_unit
Written-of c = elim (Bool-cases (ltb 0 (short_escape c))) [
  | inl e ↦ short (ground arith) (rw e refl)
  | inr e ↦ elim (Bool-cases (is_hex_escaped c)) [
    | inl h ↦ hex h (rw (e, h) refl)
    | inr h ↦ let (ne92, ne34) = short_escape-zero c e in plain ne92 ne34 h (rw (e, h) refl)
  ]
]

-- The equation between two texts, with the first unit of each written out.
opened :
    (c d : ℕ) (u v r q : Text)
    → escape_unit c ≡ u
    → escape_unit d ≡ v
    → escape_unit c ++ r ≡ escape_unit d ++ q
    → u ++ r ≡ v ++ q
opened c d u v r q cu dv e = ap (λ x. x ++ r) (sym cu) ∙ e ∙ ap (λ x. x ++ q) dv

Written-eq :
    (c d : ℕ) (r q : Text)
    → Written c
    → Written d
    → escape_unit c ++ r ≡ escape_unit d ++ q
    → (c ≡ d) × (r ≡ q)
Written-eq c d r q (short h cu) (short k dv) e =
    let (e1, r1) = head_eq _ _ _ _ (opened c d _ _ r q cu dv e) in
    let (e2, r2) = head_eq _ _ _ _ r1 in (short_escape-injective c d h e2, r2)
Written-eq c d r q (short h cu) (hex k dv) e =
    let (e1, r1) = head_eq _ _ _ _ (opened c d _ _ r q cu dv e) in
    absurd (short_escape-ne_u c (head_eq _ _ _ _ r1).0)
Written-eq c d r q (short h cu) (plain ne k l dv) e =
    absurd (ne (sym (head_eq _ _ _ _ (opened c d _ _ r q cu dv e)).0))
Written-eq c d r q (hex h cu) (short k dv) e =
    let (e1, r1) = head_eq _ _ _ _ (opened c d _ _ r q cu dv e) in
    absurd (short_escape-ne_u d (sym (head_eq _ _ _ _ r1).0))
Written-eq c d r q (hex h cu) (hex k dv) e =
    let (e1, r1) = head_eq _ _ _ _ (opened c d _ _ r q cu dv e) in
    let (e2, r2) = head_eq _ _ _ _ r1 in hex4-injective c d r q (ground arith) (ground arith) r2
Written-eq c d r q (hex h cu) (plain ne k l dv) e =
    absurd (ne (sym (head_eq _ _ _ _ (opened c d _ _ r q cu dv e)).0))
Written-eq c d r q (plain ne k l cu) (short h dv) e =
    absurd (ne (head_eq _ _ _ _ (opened c d _ _ r q cu dv e)).0)
Written-eq c d r q (plain ne k l cu) (hex h dv) e =
    absurd (ne (head_eq _ _ _ _ (opened c d _ _ r q cu dv e)).0)
Written-eq c d r q (plain ne k l cu) (plain ne' k' l' dv) e =
    head_eq _ _ _ _ (opened c d _ _ r q cu dv e)

escape_unit-injective :
    (c d : ℕ) (r q : Text) → escape_unit c ++ r ≡ escape_unit d ++ q → (c ≡ d) × (r ≡ q)
escape_unit-injective c d r q = Written-eq c d r q (Written-of c) (Written-of d)

-- A unit never begins like a closing quote.
unit-ne_quote : (c : ℕ) (r q : Text) → Written c → escape_unit c ++ r ≢ 34 ∷ q
unit-ne_quote c r q (short h cu) =
    λ e. absurd (ne_lit 92 34 refl refl (head_eq _ _ _ _ (ap (λ x. x ++ r) (sym cu) ∙ e)).0)
unit-ne_quote c r q (hex h cu) =
    λ e. absurd (ne_lit 92 34 refl refl (head_eq _ _ _ _ (ap (λ x. x ++ r) (sym cu) ∙ e)).0)
unit-ne_quote c r q (plain ne k l cu) = λ e. k (head_eq _ _ _ _ (ap (λ x. x ++ r) (sym cu) ∙ e)).0

-- Nor like a half of a surrogate pair.
unit-ne_surrogate :
    (c d : ℕ) (r q : Text) → Written c → is_high_surrogate d ≡ true → escape_unit c ++ r ≢ d ∷ q
unit-ne_surrogate c d r q (short h cu) k =
    λ e. let same = (head_eq _ _ _ _ (ap (λ x. x ++ r) (sym cu) ∙ e)).0 in ground arith
unit-ne_surrogate c d r q (hex h cu) k =
    λ e. let same = (head_eq _ _ _ _ (ap (λ x. x ++ r) (sym cu) ∙ e)).0 in ground arith
unit-ne_surrogate c d r q (plain ne k l cu) h =
    λ e. let same = (head_eq _ _ _ _ (ap (λ x. x ++ r) (sym cu) ∙ e)).0 in ground arith

-- How a text is written: it has ended, or begins with a surrogate pair, or with another unit.
data Shape : Text → Type 0 where
  finished : Shape []
  paired :
      (c d : ℕ) (s : Text)
      → is_high_surrogate c ≡ true
      → escape (c ∷ d ∷ s) ≡ c ∷ d ∷ escape s
      → Shape (c ∷ d ∷ s)
  single : (c : ℕ) (s : Text) → escape (c ∷ s) ≡ escape_unit c ++ escape s → Shape (c ∷ s)

Shape-of : (s : Text) → Shape s
unfolding escape
Shape-of [] = finished
Shape-of (c ∷ []) = single c [] refl
Shape-of (c ∷ d ∷ s) = elim (Bool-cases (is_high_surrogate c && is_low_surrogate d)) [
  | inl e ↦ paired c d s (and_left _ _ e) (rw e refl)
  | inr e ↦ single c (d ∷ s) (rw e refl)
]

high_ne_quote : (c : ℕ) → is_high_surrogate c ≡ true → c ≢ 34
high_ne_quote c h = λ e. ground arith

escape_nil : escape [] ≡ 34 ∷ []
unfolding escape
escape_nil = refl

-- The equation between two written texts, with the beginning of each written out.
begun :
    (s t u v r q : Text)
    → escape s ≡ u
    → escape t ≡ v
    → escape s ++ r ≡ escape t ++ q
    → u ++ r ≡ v ++ q
begun s t u v r q su tv e = ap (λ x. x ++ r) (sym su) ∙ e ∙ ap (λ x. x ++ q) tv

single_begun :
    (c : ℕ) (s r : Text) → (escape_unit c ++ escape s) ++ r ≡ escape_unit c ++ (escape s ++ r)
single_begun c s r = append_assoc (escape_unit c) (escape s) r

escape_injective_from :
    (n : ℕ) {s t : Text} (r q : Text)
    → length s < n
    → Shape s
    → Shape t
    → escape s ++ r ≡ escape t ++ q
    → (s ≡ t) × (r ≡ q)
escape_injective_from zero r q h _ _ e = absurd (omega arith)
escape_injective_from (suc n) r q h finished finished e =
    (refl, (head_eq 34 34 r q (begun [] [] _ _ r q escape_nil escape_nil e)).1)
escape_injective_from (suc n) r q h finished (paired c d t k l) e =
    absurd (high_ne_quote c k (sym (head_eq _ _ _ _ (begun [] _ _ _ r q escape_nil l e)).0))
escape_injective_from (suc n) r q h finished (single c t l) e = absurd (
    unit-ne_quote c (escape t ++ q) r (Written-of c)
      (sym (begun [] _ _ _ r q escape_nil l e ∙ single_begun c t q)))
escape_injective_from (suc n) r q h (paired c d s k l) finished e =
    absurd (high_ne_quote c k (head_eq _ _ _ _ (begun _ [] _ _ r q l escape_nil e)).0)
escape_injective_from (suc n) r q h (paired c d s k l) (paired c' d' t k' l') e =
    let (e1, r1) = head_eq _ _ _ _ (begun _ _ _ _ r q l l' e) in
    let (e2, r2) = head_eq _ _ _ _ r1 in
    let (same, rest) = escape_injective_from n r q (omega arith) (Shape-of s) (Shape-of t) r2 in
    (cc, rest)
escape_injective_from (suc n) r q h (paired c d s k l) (single c' t l') e = absurd (
    unit-ne_surrogate c' c (escape t ++ q) _ (Written-of c') k
      (sym (begun _ _ _ _ r q l l' e ∙ single_begun c' t q)))
escape_injective_from (suc n) r q h (single c s l) finished e = absurd (
    unit-ne_quote c (escape s ++ r) q (Written-of c)
      (sym (single_begun c s r) ∙ begun _ [] _ _ r q l escape_nil e))
escape_injective_from (suc n) r q h (single c s l) (paired c' d' t k' l') e = absurd (
    unit-ne_surrogate c c' (escape s ++ r) _ (Written-of c) k'
      (sym (single_begun c s r) ∙ begun _ _ _ _ r q l l' e))
escape_injective_from (suc n) r q h (single c s l) (single c' t l') e =
    let (e1, r1) =
      escape_unit-injective c c' (escape s ++ r) (escape t ++ q)
        (sym (single_begun c s r) ∙ begun _ _ _ _ r q l l' e ∙ single_begun c' t q) in
    let (same, rest) = escape_injective_from n r q (omega arith) (Shape-of s) (Shape-of t) r1 in
    (cc, rest)

-- A quoted text and what stands after it can be told apart.
pub escape-injective : (s t r q : Text) → escape s ++ r ≡ escape t ++ q → (s ≡ t) × (r ≡ q)
escape-injective s t r q e =
    escape_injective_from (suc (length s)) r q (omega arith) (Shape-of s) (Shape-of t) e
