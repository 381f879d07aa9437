-- ===== src/Dedupe/Resolution/Tests.antt =====
-- A cluster of an expired, a suspected and a quarantined listing.
use scraplify.Base.{◌≤◌, ◌≡◌, refl, ◌⊎◌, true, List, [], ◌∷◌, All}
use scraplify.Listings.Model.{SourceListingStatus, expired, missing_suspected, quarantined, closed}
use scraplify.Dedupe.Resolution.{includes, resolve_status}
use scraplify.Dedupe.Resolution.Precedence.{distance, resolve_status-nearest}

abbrev members : List SourceListingStatus
members = expired ∷ missing_suspected ∷ quarantined ∷ []

suspected : resolve_status members ≡ missing_suspected
unfolding resolve_status
suspected = refl

resolve_status-nearest_example :
    All (λ s. distance (resolve_status members) ≤ distance s) members
    × (((members ≡ []) × (resolve_status members ≡ closed))
        ⊎ (includes members (resolve_status members) ≡ true))
resolve_status-nearest_example = resolve_status-nearest members
