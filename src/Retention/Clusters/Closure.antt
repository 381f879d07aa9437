-- ===== src/Retention/Clusters/Closure.antt =====
-- What one round of the closure computes, without its accumulators.
use scraplify.Base.{
  ◌≡◌, refl, sym, ◌∙◌, Bool, true, false, ◌&&◌, ◌||◌, List, [], ◌∷◌, ◌++◌, Eq, ◌==◌, if◌then◌else◌,
  Bool-cases, inl, inr, eq_of_beq, beq_refl, all, has, add, filter, Distinct, has-add, has-append,
  arith,
}
use mathlib.Core.List.{append-nil, append_assoc}
use scraplify.Retention.Clusters.{
  ClusterClosureInput, is_deletable_opportunity, collect_opportunities, opportunities_of,
  collect_listings, round_opportunities, round_listings,
}

module _ {ℓ} {A : Type ℓ} ⦃e : Eq A⦄ (input : ClusterClosureInput A) where
  -- A value is found by the first loop if it was there, or if an entry with that key passes.
  abbrev pub some_passes : List A → A → List (A × List A) → Bool
  some_passes deletable x [] = false
  some_passes deletable x ((o, members) ∷ rest) =
      (x == o && is_deletable_opportunity input deletable o members) || some_passes deletable x rest

  has-collect_opportunities :
      (deletable found : List A) (x : A) (entries : List (A × List A))
      → has x (collect_opportunities input deletable found entries)
        ≡ (has x found || some_passes deletable x entries)
  unfolding collect_opportunities
  has-collect_opportunities deletable found x [] = ground arith
  has-collect_opportunities deletable found x ((o, members) ∷ rest) =
      let passes = is_deletable_opportunity input deletable o members in
      let ih = has-collect_opportunities deletable (if passes then add o found else found) x rest in
      elim (Bool-cases passes) [
        | inl pass ↦ ground (arith, ih, has-add x o found)
        | inr fail ↦ ground (arith, ih)
      ]

  abbrev pub keeps : List A → A → Bool
  keeps opportunities l = all (λ o. has o opportunities) (opportunities_of input l)

  not_yet :
      (found xs : List A) (x y : A)
      → has x xs ≡ false
      → has y xs ≡ true
      → has y found ≡ false
      → has y (found ++ x ∷ []) ≡ false
  not_yet found xs x y d m h = ground (arith, has-append y found (x ∷ []), eq_of_beq y x)

  collect_listings-filter :
      (opportunities found xs : List A)
      → Distinct xs
      → ((x : A) → has x xs ≡ true → has x found ≡ false)
      → collect_listings input opportunities found xs ≡ found ++ filter (keeps opportunities) xs
  unfolding collect_listings
  collect_listings-filter opportunities found [] d h = sym (append-nil found)
  collect_listings-filter opportunities found (x ∷ xs) d h =
      let fresh : has x found ≡ false = h x (ground (arith, beq_refl x)) in
      elim (Bool-cases (keeps opportunities x)) [
        | inl kept ↦
            rw (kept, fresh)
              (collect_listings-filter opportunities (found ++ x ∷ []) xs d.1
                  (λ y m. not_yet found xs x y d.0 m (h y (ground arith)))
                ∙ append_assoc found (x ∷ []) (filter (keeps opportunities) xs))
        | inr lost ↦
            rw lost (collect_listings-filter opportunities found xs d.1 (λ y m. h y (ground arith)))
      ]

  pub round_listings-filter :
      (deletable : List A)
      → Distinct input.candidates
      → round_listings input deletable
        ≡ filter (keeps (round_opportunities input deletable)) input.candidates
  unfolding round_listings
  round_listings-filter deletable d =
      collect_listings-filter (round_opportunities input deletable) [] input.candidates d
        (λ x m. refl)

  pub has-round_opportunities :
      (deletable : List A) (x : A)
      → has x (round_opportunities input deletable)
        ≡ some_passes deletable x input.opportunity_members
  unfolding round_opportunities
  has-round_opportunities deletable x =
      has-collect_opportunities deletable [] x input.opportunity_members
