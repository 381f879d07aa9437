-- ===== src/Adapters/Refetch/Canaries.antt =====
-- The random sample of skipped listings (`pickCanaries` of src/adapters/refetch.ts).
use scraplify.Base.{
  ℕ, zero, suc, ◌≤◌, ◌<◌, ◌≡◌, refl, true, false, ◌&&◌, ◌||◌, Option, none, some, List, [], ◌∷◌,
  ◌++◌, String, string_eq, ltb, length, has, Distinct, arith, eq_of_beq, beq_refl, has-add,
  has-append, length-append, Bool-cases, inl, inr, ◌⊎◌, ◌∙◌,
}
use scraplify.Adapters.Refetch.{splice_one, add_found, pick_from, pick_canaries}

-- What a draw takes out of the pool.
splice_one-length :
    (i : ℕ) (pool : List String)
    → i < length pool
    → suc (length (splice_one i pool).1) ≡ length pool
unfolding splice_one
splice_one-length i [] h = absurd (omega arith)
splice_one-length zero (x ∷ pool) h = refl
splice_one-length (suc i) (x ∷ pool) h = omega (arith, splice_one-length i pool (omega arith))

-- The pool and the picked ids together hold the same ids before and after a draw.
splice_one-has :
    (i : ℕ) (pool : List String) (picked : List String) (x : String)
    → (has x (splice_one i pool).1 || has x (add_found (splice_one i pool).0 picked))
      ≡ (has x pool || has x picked)
unfolding splice_one
splice_one-has i [] picked x = refl
splice_one-has zero (y ∷ pool) picked x = ground (arith, has-add x y picked)
splice_one-has (suc i) (y ∷ pool) picked x = ground (arith, splice_one-has i pool picked x)

Distinct-append :
    (x : String) (xs : List String) → has x xs ≡ false → Distinct xs → Distinct (xs ++ x ∷ [])
Distinct-append x [] h d = (refl, tt)
Distinct-append x (y ∷ xs) h (d, ds) = (
  ground (arith, has-append y xs (x ∷ []), eq_of_beq y x, beq_refl x),
  Distinct-append x xs (ground arith) ds,
)

Distinct-add_found :
    (found : Option String) (xs : List String) → Distinct xs → Distinct (add_found found xs)
Distinct-add_found none xs d = d
Distinct-add_found (some x) xs d = elim (Bool-cases (has x xs)) [
  | inl old ↦ rw old d
  | inr fresh ↦ rw fresh (Distinct-append x xs fresh d)
]

length-add_found :
    (found : Option String) (xs : List String) → length (add_found found xs) ≤ suc (length xs)
length-add_found none xs = omega arith
length-add_found (some x) xs = ground (arith, length-append xs (x ∷ []))

-- A sample of `size` of the ids `skipped`, or all of them if there are no more.
pub record Sample (size : ℕ) (skipped picked : List String) : Type 0 where
  pub distinct : Distinct picked
  pub from_skipped : (x : String) → has x picked ≡ true → has x skipped ≡ true
  pub bounded : length picked ≤ size
  pub full : (length picked ≡ size) ⊎ ((x : String) → has x picked ≡ has x skipped)

-- The loop ends with a full sample or an empty pool.
ended :
    (size : ℕ) (pool picked skipped : List String)
    → (ltb (length picked) size && ltb 0 (length pool)) ≡ false
    → length picked ≤ size
    → ((x : String) → (has x pool || has x picked) ≡ has x skipped)
    → (length picked ≡ size) ⊎ ((x : String) → has x picked ≡ has x skipped)
ended size [] picked skipped enough small h = inr h
ended size (y ∷ pool) picked skipped enough small h =
    let full : length picked ≡ size = ground arith in inl full

module _ (random : ℕ → ℕ → ℕ) (in_range : (step n : ℕ) → 0 < n → random step n < n) where
  pick_from-Sample :
      (size fuel : ℕ) (pool picked skipped : List String)
      → length pool < fuel
      → length picked ≤ size
      → Distinct picked
      → ((x : String) → (has x pool || has x picked) ≡ has x skipped)
      → (result : List String) × (pick_from random size fuel pool picked ≡ some result)
        × Sample size skipped result
  unfolding pick_from
  pick_from-Sample size zero pool picked skipped short small d h = absurd (omega arith)
  pick_from-Sample size (suc fuel) pool picked skipped short small d h =
      elim (Bool-cases (ltb (length picked) size && ltb 0 (length pool))) [
        | inl more ↦
            let i = random fuel (length pool) in
            let inside : i < length pool = in_range fuel (length pool) (ground arith) in
            let taken = splice_one i pool in
            let shrunk = splice_one-length i pool inside in
            rw more (
              pick_from-Sample size fuel taken.1 (add_found taken.0 picked) skipped (omega arith)
                (ground (arith, length-add_found taken.0 picked))
                (Distinct-add_found taken.0 picked d) (λ x. splice_one-has i pool picked x ∙ h x))
        | inr enough ↦ rw enough (
          picked,
          refl,
          record {
            distinct = d;
            from_skipped = λ x m. ground (arith, h x);
            bounded = small;
            full = ended size pool picked skipped enough small h;
          },
        )
      ]

  -- If a draw among `n` ids gives one of them, the loop ends, and what it returns are distinct ids
  -- of skipped listings: as many as were asked for, or all of them where there are not enough.
  pub pick_canaries-Sample :
      (size : ℕ) (skipped : List String)
      → (picked : List String) × (pick_canaries random size skipped ≡ some picked)
        × Sample size skipped picked
  unfolding pick_canaries
  pick_canaries-Sample size skipped =
      pick_from-Sample size (suc (length skipped)) skipped [] skipped (omega arith) (omega arith) tt
        (λ x. ground arith)
