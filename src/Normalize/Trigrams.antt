-- ===== src/Normalize/Trigrams.antt =====
-- The similarity of two titles (trigrams and trigramSimilarity of src/normalize/text.ts). The quotient
-- is kept as a fraction: compared with hundredths, a double of it decides as the fraction does.
use scraplify.Base.{
  ℕ, ◌+◌, ◌-◌, ◌*◌, ◌≡◌, refl, sym, ap, ◌∙◌, Bool, true, false, ◌||◌, List, [], ◌∷◌, ◌++◌, ltb,
  ◌==◌, nat_eq, list_eq, Eq, if◌then◌else◌, length, filter, has, Distinct, has-append, eq_of_beq,
  beq_refl, unique, unique_from, Text, Bool-cases, inl, inr, arith,
}

pub record Ratio : Type 0 where
  pub numerator : ℕ
  pub denominator : ℕ

-- `ratio < hundredths / 100`.
abbrev pub is_below : Ratio → ℕ → Bool
is_below r hundredths = ltb (r.numerator * 100) (hundredths * r.denominator)

abbrev pub grams_of : Text → List Text
grams_of [] = []
grams_of (a ∷ []) = []
grams_of (a ∷ b ∷ []) = []
grams_of (a ∷ b ∷ c ∷ s) = (a ∷ b ∷ c ∷ []) ∷ grams_of (b ∷ c ∷ s)

unfoldable pub trigrams : Text → List Text
trigrams value = unique (grams_of (32 ∷ 32 ∷ value ++ 32 ∷ []))

-- How many of the first set are in the second.
abbrev pub shared_count : List Text → List Text → ℕ
shared_count as_set bs = length (filter (λ g. has g bs) as_set)

abbrev pub jaccard : (is_empty : Bool) → (shared union : ℕ) → Ratio
jaccard is_empty shared union =
    if is_empty || union == 0
    then record { numerator = 0; denominator = 1 }
    else record { numerator = shared; denominator = union }

-- What is shared is at most either size, so the subtraction does not stop at 0.
unfoldable pub set_similarity : List Text → List Text → Ratio
set_similarity as_set bs =
    jaccard (length as_set == 0 || length bs == 0) (shared_count as_set bs)
      (length as_set + length bs - shared_count as_set bs)

unfoldable pub trigram_similarity : Text → Text → Ratio
trigram_similarity a b =
    if a == b
    then record { numerator = 1; denominator = 1 }
    else set_similarity (trigrams a) (trigrams b)

abbrev indicator : Bool → ℕ
indicator b = if b then 1 else 0

module _ {ℓ} {A : Type ℓ} ⦃e : Eq A⦄ where
  pub beq_comm : (x y : A) → (x == y) ≡ (y == x)
  beq_comm x y = ground (arith, eq_of_beq x y, eq_of_beq y x, beq_refl x, beq_refl y)

  has-of_eq : (x y : A) (ys : List A) → (x == y) ≡ true → has x ys ≡ has y ys
  has-of_eq x y ys h = ap (λ z. has z ys) (eq_of_beq x y h)

  -- One more value to look for adds the one place where it is.
  length-filter_or :
      (p : A → Bool) (x : A) (ys : List A)
      → Distinct ys
      → p x ≡ false
      → length (filter (λ g. g == x || p g) ys) ≡ length (filter p ys) + indicator (has x ys)
  length-filter_or p x [] d h = omega arith
  length-filter_or p x (y ∷ ys) (fresh, d) h =
      let ih = length-filter_or p x ys d h in
      elim (Bool-cases (y == x)) [
        | inl same ↦
            let gone : has x ys ≡ false = sym (has-of_eq y x ys same) ∙ fresh in
            let missed : p y ≡ false = ap p (eq_of_beq y x same) ∙ h in
            rw (same, beq_comm x y, same, missed, ih, gone) (omega arith)
        | inr other ↦
            rw (other, beq_comm x y, other)
              (elim (Bool-cases (p y)) [
                | inl kept ↦ rw kept (omega (arith, ih))
                | inr dropped ↦ rw dropped ih
              ])
      ]

  filter_none : (ys : List A) → length (filter (λ g. false) ys) ≡ 0
  filter_none [] = refl
  filter_none (y ∷ ys) = filter_none ys

  -- What two sets share does not depend on the set that is walked through.
  shared_comm :
      (xs ys : List A)
      → Distinct xs
      → Distinct ys
      → length (filter (λ g. has g ys) xs) ≡ length (filter (λ g. has g xs) ys)
  shared_comm [] ys d k = sym (filter_none ys)
  shared_comm (x ∷ xs) ys (fresh, d) k =
      let ih = shared_comm xs ys d k in
      let more = length-filter_or (λ g. has g xs) x ys k fresh in
      elim (Bool-cases (has x ys)) [
        | inl shared ↦
            let one : indicator (has x ys) ≡ 1 = rw shared refl in
            rw shared (omega (arith, ih, more, one))
        | inr alone ↦
            let zero_more : indicator (has x ys) ≡ 0 = rw alone refl in
            rw alone (omega (arith, ih, more, zero_more))
      ]

  Distinct-append : (xs : List A) (x : A) → Distinct xs → has x xs ≡ false → Distinct (xs ++ x ∷ [])
  Distinct-append [] x d h = (refl, tt)
  Distinct-append (y ∷ ys) x (fresh, d) h =
      let other : (x == y) ≡ false = ground arith in
      let absent : has x ys ≡ false = ground arith in
      (
        rw (has-append y ys (x ∷ []), fresh, beq_comm y x, other) refl,
        Distinct-append ys x d absent,
      )

  Distinct-unique_from : (seen xs : List A) → Distinct seen → Distinct (unique_from seen xs)
  Distinct-unique_from seen [] d = d
  Distinct-unique_from seen (x ∷ xs) d = elim (Bool-cases (has x seen)) [
    | inl there ↦ rw there (Distinct-unique_from seen xs d)
    | inr new ↦ rw new (Distinct-unique_from (seen ++ x ∷ []) xs (Distinct-append seen x d new))
  ]

trigrams-Distinct : (value : Text) → Distinct (trigrams value)
unfolding trigrams
trigrams-Distinct value =
    Distinct-unique_from {A = Text} [] (grams_of (32 ∷ 32 ∷ value ++ 32 ∷ [])) tt

or_comm : (a b : Bool) → (a || b) ≡ (b || a)
or_comm a b = ground arith

set_similarity_comm :
    (xs ys : List Text) → Distinct xs → Distinct ys → set_similarity xs ys ≡ set_similarity ys xs
unfolding set_similarity
set_similarity_comm xs ys d k =
    let shared : shared_count xs ys ≡ shared_count ys xs = shared_comm xs ys d k in
    let size : length xs + length ys ≡ length ys + length xs = omega arith in
    let either = or_comm (length xs == 0) (length ys == 0) in
    ap (λ n. jaccard (length xs == 0 || length ys == 0) n (length xs + length ys - n)) shared
    ∙ ap
        (λ m.
          jaccard (length xs == 0 || length ys == 0) (shared_count ys xs) (m - shared_count ys xs))
        size
    ∙ ap (λ b. jaccard b (shared_count ys xs) (length ys + length xs - shared_count ys xs)) either

-- Similarity does not depend on which title comes first.
pub trigram_similarity_comm : (a b : Text) → trigram_similarity a b ≡ trigram_similarity b a
unfolding trigram_similarity
trigram_similarity_comm a b =
    rw
      (
        beq_comm a b,
        set_similarity_comm (trigrams a) (trigrams b) (trigrams-Distinct a) (trigrams-Distinct b),
      )
      refl
