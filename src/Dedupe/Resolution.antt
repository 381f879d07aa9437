-- ===== src/Dedupe/Resolution.antt =====
-- The status of an opportunity from its live members (`resolveStatus` of
-- src/dedupe/resolve-canonical.ts).
pub mod Precedence
mod Tests
use scraplify.Base.{ℕ, Bool, true, false, ◌||◌, List, [], ◌∷◌, nat_eq, ◌==◌, if◌then◌else◌, any}
use scraplify.Listings.Model.{
  SourceListingStatus, discovered, active, missing_suspected, closed, expired, quarantined,
}

abbrev pub status_precedence : List SourceListingStatus
status_precedence = active ∷ missing_suspected ∷ discovered ∷ expired ∷ closed ∷ quarantined ∷ []

-- `===` on statuses.
abbrev pub status_index : SourceListingStatus → ℕ
status_index discovered = 0
status_index active = 1
status_index missing_suspected = 2
status_index closed = 3
status_index expired = 4
status_index quarantined = 5

-- `memberStatuses.includes(candidate)`.
abbrev pub includes : List SourceListingStatus → SourceListingStatus → Bool
includes members candidate = any (λ s. status_index s == status_index candidate) members

-- The loop over the candidates.
abbrev pub first_included :
    List SourceListingStatus → List SourceListingStatus → SourceListingStatus
first_included members [] = closed
first_included members (candidate ∷ candidates) =
    if includes members candidate then candidate else first_included members candidates

unfoldable pub resolve_status : List SourceListingStatus → SourceListingStatus
resolve_status members = first_included members status_precedence
