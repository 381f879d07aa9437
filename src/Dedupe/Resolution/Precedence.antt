-- ===== src/Dedupe/Resolution/Precedence.antt =====
-- An opportunity is as available as its most available member (src/dedupe/resolve-canonical.ts).
use scraplify.Base.{
  ℕ, ◌≤◌, ◌≡◌, refl, true, List, [], ◌∷◌, nat_eq, any, All, arith, Bool-cases, inl, inr, ◌⊎◌,
}
use scraplify.Listings.Model.{
  SourceListingStatus, discovered, active, missing_suspected, closed, expired, quarantined,
}
use scraplify.Dedupe.Resolution.{status_precedence, includes, resolve_status, first_included}

-- How far a listing is from being open to a candidate.
abbrev pub distance : SourceListingStatus → ℕ
distance active = 0
distance missing_suspected = 1
distance discovered = 2
distance expired = 3
distance closed = 4
distance quarantined = 5

includes-All :
    (members : List SourceListingStatus) (bound : ℕ)
    → ((s : SourceListingStatus) → includes members s ≡ true → bound ≤ distance s)
    → All (λ s. bound ≤ distance s) members
includes-All [] bound h = tt
includes-All (s ∷ members) bound h =
    (h s (ground arith), includes-All members bound (λ t e. h t (ground arith)))

-- No member is more available than the result.
resolve_status-le :
    (members : List SourceListingStatus) (s : SourceListingStatus)
    → includes members s ≡ true
    → distance (resolve_status members) ≤ distance s
unfolding resolve_status
resolve_status-le members discovered h = ground arith
resolve_status-le members active h = ground arith
resolve_status-le members missing_suspected h = ground arith
resolve_status-le members closed h = ground arith
resolve_status-le members expired h = ground arith
resolve_status-le members quarantined h = ground arith

first_included-included :
    (members candidates : List SourceListingStatus)
    → any (includes members) candidates ≡ true
    → includes members (first_included members candidates) ≡ true
first_included-included members [] h = absurd (ground arith)
first_included-included members (c ∷ candidates) h = elim (Bool-cases (includes members c)) [
  | inl here ↦ rw (here, here) refl
  | inr later ↦ rw later (first_included-included members candidates (ground arith))
]

-- Every status is a candidate.
any-precedence :
    (s : SourceListingStatus) (members : List SourceListingStatus)
    → any (includes (s ∷ members)) status_precedence ≡ true
any-precedence discovered members = ground arith
any-precedence active members = ground arith
any-precedence missing_suspected members = ground arith
any-precedence closed members = ground arith
any-precedence expired members = ground arith
any-precedence quarantined members = ground arith

-- The status of an opportunity with members is the status of one of them, and no member is more
-- available; that of an opportunity without members is `closed`.
pub resolve_status-nearest :
    (members : List SourceListingStatus)
    → All (λ s. distance (resolve_status members) ≤ distance s) members
      × (((members ≡ []) × (resolve_status members ≡ closed))
          ⊎ (includes members (resolve_status members) ≡ true))
unfolding resolve_status
resolve_status-nearest [] = (tt, inl (refl, refl))
resolve_status-nearest (s ∷ members) = (
  includes-All (s ∷ members) _ (resolve_status-le (s ∷ members)),
  inr (first_included-included (s ∷ members) status_precedence (any-precedence s members)),
)
