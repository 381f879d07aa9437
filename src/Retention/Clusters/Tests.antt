-- ===== src/Retention/Clusters/Tests.antt =====
-- Two clusters, one of them held back by a decision on one of its opportunities.
use scraplify.Base.{◌≡◌, refl, arith, some, [], ◌∷◌, String, string_eq, nat_eq}
use scraplify.Retention.Clusters.{
  ClusterClosureInput, ClusterClosureResult, sets_equal, close_over_clusters, close_rounds,
  round_listings, collect_listings, round_opportunities, collect_opportunities,
}
use scraplify.Retention.Clusters.Greatest.{IsGreatest}
use scraplify.Retention.Clusters.Rounds.{close_over_clusters-IsGreatest}

-- "l1" and "l2" share "o1"; "l2" was also in "o2", which has a decision; "l3" is alone in "o3".
abbrev sample : ClusterClosureInput String
sample = record {
  candidates = "l1" ∷ "l2" ∷ "l3" ∷ [];
  opportunity_members = ("o1", "l1" ∷ "l2" ∷ []) ∷ ("o2", "l2" ∷ []) ∷ ("o3", "l3" ∷ []) ∷ [];
  listing_opportunities = ("l1", "o1" ∷ []) ∷ ("l2", "o1" ∷ "o2" ∷ []) ∷ ("l3", "o3" ∷ []) ∷ [];
  user_data = "o2" ∷ [];
}

sample_closure :
    close_over_clusters sample ≡ some (record { opportunities = "o3" ∷ []; listings = "l3" ∷ [] })
unfolding close_over_clusters close_rounds sets_equal round_listings collect_listings
    round_opportunities collect_opportunities
sample_closure = refl

close_over_clusters-IsGreatest_example :
    (r : ClusterClosureResult String) × (close_over_clusters sample ≡ some r) × IsGreatest sample r
close_over_clusters-IsGreatest_example =
    close_over_clusters-IsGreatest sample (refl, (refl, (refl, tt))) (omega arith)
