-- ===== src/Retention/Clusters.antt =====
-- The decision of tier 3 (src/retention/eligibility.ts): which opportunities and listings of a
-- loaded cluster graph may be deleted. Ids are only compared, so they are any type with equality.
-- A `Set` is a list without repetitions, a `Map` an association list, both in insertion order.
pub mod Closure
pub mod Greatest
pub mod Rounds
mod Tests
use scraplify.Base.{
  ℕ, zero, suc, Bool, true, false, not, ◌&&◌, ◌||◌, Option, none, some, List, [], ◌∷◌, Eq, ◌==◌,
  if◌then◌else◌, get_or, all, has, add, lookup, length, nat_eq,
}

pub record ClusterClosureInput {ℓ} (A : Type ℓ) : Type ℓ where
  pub candidates : List A
  pub opportunity_members : List (A × List A)
  pub listing_opportunities : List (A × List A)
  pub user_data : List A

pub record ClusterClosureResult {ℓ} (A : Type ℓ) : Type ℓ where
  pub opportunities : List A
  pub listings : List A

-- The source's 10_000: a round is one unit of fuel, and running out is its `throw`.
abbrev pub max_closure_rounds : ℕ
max_closure_rounds = 10000

abbrev pub is_empty {ℓ} : {A : Type ℓ} → List A → Bool
is_empty [] = true
is_empty (x ∷ xs) = false

module _ {ℓ} {A : Type ℓ} ⦃e : Eq A⦄ where
  unfoldable pub sets_equal : List A → List A → Bool
  sets_equal a b = if not (length a == length b) then false else all (λ v. has v b) a

  module _ (input : ClusterClosureInput A) where
    -- Whether one entry of the map passes the guards of the round's first loop.
    abbrev pub is_deletable_opportunity : List A → A → List A → Bool
    is_deletable_opportunity deletable o members =
        if has o input.user_data
        then false
        else if is_empty members
        then false
        else all (λ l. has l deletable) members

    -- The round's first loop, over the entries of `opportunityMembers`.
    unfoldable pub collect_opportunities : List A → List A → List (A × List A) → List A
    collect_opportunities deletable found [] = found
    collect_opportunities deletable found ((o, members) ∷ rest) =
        collect_opportunities deletable
          (if is_deletable_opportunity deletable o members then add o found else found) rest

    abbrev pub opportunities_of : A → List A
    opportunities_of l = get_or (lookup l input.listing_opportunities) []

    -- The round's second loop, over the candidates.
    unfoldable pub collect_listings : List A → List A → List A → List A
    collect_listings opportunities found [] = found
    collect_listings opportunities found (l ∷ rest) =
        collect_listings opportunities
          (if all (λ o. has o opportunities) (opportunities_of l) then add l found else found) rest

    unfoldable pub round_opportunities : List A → List A
    round_opportunities deletable = collect_opportunities deletable [] input.opportunity_members

    unfoldable pub round_listings : List A → List A
    round_listings deletable = collect_listings (round_opportunities deletable) [] input.candidates

    -- The loop over the rounds.
    unfoldable pub close_rounds : ℕ → List A → Option (ClusterClosureResult A)
    close_rounds zero deletable = none
    close_rounds (suc fuel) deletable =
        let next = round_listings deletable in
        let again = close_rounds fuel next in
        if sets_equal next deletable
        then some (record { opportunities = round_opportunities deletable; listings = next })
        else again

    unfoldable pub close_over_clusters : Option (ClusterClosureResult A)
    close_over_clusters = close_rounds max_closure_rounds input.candidates
