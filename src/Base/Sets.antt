-- ===== src/Base/Sets.antt =====
-- The JavaScript `Set` and `Map` as lists in insertion order, and what their tests mean.
use Prim.Native.Nat.{◌≤◌}
use mathlib.Core.Path.{◌≡◌, refl}
use mathlib.Core.Bool.{Bool, true, false, ◌&&◌, ◌||◌}
use mathlib.Core.List.{List, [], ◌∷◌, ◌++◌}
use mathlib.Core.Option.{Option, none, some}
use native.Mathlib.Omega.{arith}
use scraplify.Base.Tests.{Eq, ◌==◌, if◌then◌else◌, eq_of_beq, beq_refl}
use scraplify.Base.Lists.{length, filter, all}

module _ {ℓ} {A : Type ℓ} ⦃e : Eq A⦄ where
  -- `set.has(x)`, `list.includes(x)`.
  abbrev pub has : A → List A → Bool
  has x [] = false
  has x (y ∷ ys) = x == y || has x ys

  -- `set.add(x)`: a value that is there already changes nothing.
  abbrev pub add : A → List A → List A
  add x xs = if has x xs then xs else xs ++ x ∷ []

  -- `map.get(key)`.
  abbrev pub lookup {κ} : {V : Type κ} → A → List (A × V) → Option V
  lookup k [] = none
  lookup k ((j, v) ∷ m) = if k == j then some v else lookup k m

  -- What the representation of a `Set` promises.
  abbrev pub Distinct : List A → Type ℓ
  Distinct [] = Unit
  Distinct (x ∷ xs) = (has x xs ≡ false) × Distinct xs

  pub has-append : (x : A) (xs ys : List A) → has x (xs ++ ys) ≡ (has x xs || has x ys)
  has-append x [] ys = refl
  has-append x (y ∷ xs) ys = ground (arith, has-append x xs ys)

  pub has-filter : (p : A → Bool) (x : A) (xs : List A) → has x (filter p xs) ≡ (has x xs && p x)
  has-filter p x [] = refl
  has-filter p x (y ∷ ys) = ground (arith, has-filter p x ys, eq_of_beq x y)

  pub has-add : (x y : A) (xs : List A) → has x (add y xs) ≡ (has x xs || x == y)
  has-add x y xs = ground (arith, has-append x xs (y ∷ []), eq_of_beq x y)

  pub has-of_all :
      (p : A → Bool) (xs : List A) (x : A) → all p xs ≡ true → has x xs ≡ true → p x ≡ true
  has-of_all p [] x h m = cc
  has-of_all p (y ∷ ys) x h m = ground (arith, has-of_all p ys x, eq_of_beq x y)

  pub all-of_has :
      (p : A → Bool) (xs : List A) → ((x : A) → has x xs ≡ true → p x ≡ true) → all p xs ≡ true
  all-of_has p [] h = refl
  all-of_has p (y ∷ ys) h =
      let here : p y ≡ true = h y (ground (arith, beq_refl y)) in
      let later : all p ys ≡ true = all-of_has p ys (λ x m. h x (ground arith)) in ground arith

  -- Two predicates, the first inside the second: what each keeps of a list.
  module _ (p q : A → Bool) where
    pub length-filter_mono :
        (xs : List A)
        → ((x : A) → has x xs ≡ true → p x ≡ true → q x ≡ true)
        → length (filter p xs) ≤ length (filter q xs)
    length-filter_mono [] h = omega arith
    length-filter_mono (y ∷ ys) h =
        let ih = length-filter_mono ys (λ x m. h x (ground arith)) in
        let here = h y (ground (arith, beq_refl y)) in ground arith

    pub filter-eq_of_length :
        (xs : List A)
        → ((x : A) → has x xs ≡ true → p x ≡ true → q x ≡ true)
        → length (filter p xs) ≡ length (filter q xs)
        → filter p xs ≡ filter q xs
    filter-eq_of_length [] h e = refl
    filter-eq_of_length (y ∷ ys) h e =
        let ih = filter-eq_of_length ys (λ x m. h x (ground arith)) in
        let le = length-filter_mono ys (λ x m. h x (ground arith)) in
        let here = h y (ground (arith, beq_refl y)) in ground arith
