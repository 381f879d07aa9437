-- ===== src/Listings/Writers/Lifecycle.antt =====
-- The lifecycle of a listing under the three writers (src/db/write-source-listing-revision.ts):
-- which status a row may move to, and in which direction its `lastSeenAt` moves.
use scraplify.Base.{
  Bool, true, false, ◌≤◌, ◌≡◌, refl, some, List, [], ◌∷◌, String, string_eq, ◌==◌, any, arith,
  eq_of_beq, Bool-cases, inl, inr, is_none, not, sym, beq_refl,
}
use scraplify.Listings.Model.{
  SourceListing, SourceListingStatus, discovered, active, missing_suspected, closed, expired,
  quarantined,
}
use scraplify.Listings.Writers.{find_row, has_id, update_listing, touched_status}
use scraplify.Listings.Writers.Write.{next_status, needs_reopening}
use scraplify.Listings.Writers.Rows.{has_id-found}
use scraplify.Listings.Writers.Updates.{DistinctIds}

pub data Writer : Type 0 where
  touching quarantining : Writer
  writing : (allow_reopen : Bool) → Writer

-- The edges of the lifecycle that each writer may take.
pub data Edge : Writer → SourceListingStatus → SourceListingStatus → Type 0 where
  stays : (w : Writer) → (s : SourceListingStatus) → Edge w s s
  sighted_again : Edge touching missing_suspected active
  fetched_again : (b : Bool) → Edge (writing b) missing_suspected active
  fetched_first : (b : Bool) → Edge (writing b) discovered active
  reopens : (s : SourceListingStatus) → needs_reopening s ≡ true → Edge (writing true) s active
  unreliable : (s : SourceListingStatus) → Edge quarantining s quarantined

-- Whether the writer compares the observation with the row's `lastSeenAt`.
abbrev pub checks_staleness : Writer → SourceListing → Bool
checks_staleness (writing b) l = not (is_none l.current_revision_id)
checks_staleness _ l = true

pub record RowStep (w : Writer) (l l' : SourceListing) : Type 0 where
  pub edge : Edge w l.status l'.status
  pub forward : checks_staleness w l ≡ true → l.last_seen_at ≤ l'.last_seen_at
  pub earlier : l'.first_seen_at ≤ l.first_seen_at

-- The same rows in the same order, each after a step.
pub data RowSteps (w : Writer) : List SourceListing → List SourceListing → Type 0 where
  done : RowSteps w [] []
  row :
      {l l' : SourceListing} {rows rows' : List SourceListing}
      → l'.id ≡ l.id
      → RowStep w l l'
      → RowSteps w rows rows'
      → RowSteps w (l ∷ rows) (l' ∷ rows')

kept-RowStep : (w : Writer) (l : SourceListing) → RowStep w l l
kept-RowStep w l = record {
  edge = stays w l.status;
  forward = λ h. omega arith;
  earlier = omega arith;
}

pub kept-RowSteps : (w : Writer) (rows : List SourceListing) → RowSteps w rows rows
kept-RowSteps w [] = done
kept-RowSteps w (l ∷ rows) = row refl (kept-RowStep w l) (kept-RowSteps w rows)

-- No row has the id.
absent-RowSteps :
    (w : Writer) (f : SourceListing → SourceListing) (id : String) (rows : List SourceListing)
    → any (has_id id) rows ≡ false
    → RowSteps w rows (update_listing id f rows)
absent-RowSteps w f id [] h = done
absent-RowSteps w f id (l ∷ rows) h =
    let other : (l.id == id) ≡ false = ground arith in
    rw other (row refl (kept-RowStep w l) (absent-RowSteps w f id rows (ground arith)))

-- An update by id changes the row that was locked, and no other.
pub update-RowSteps :
    (w : Writer) (p : SourceListing → Bool) (f : SourceListing → SourceListing)
    (rows : List SourceListing) (l : SourceListing)
    → DistinctIds rows
    → find_row p rows ≡ some l
    → (f l).id ≡ l.id
    → RowStep w l (f l)
    → RowSteps w rows (update_listing l.id f rows)
update-RowSteps w p f [] l d e k s = done
update-RowSteps w p f (r ∷ rows) l (d, ds) e k s = elim (Bool-cases (p r)) [
  | inl here ↦
      let same : r ≡ l = ground arith in
      let at : (r.id == l.id) ≡ true = ground (arith, same, beq_refl l.id) in
      rw at (row (rw same k) (rw same s) (absent-RowSteps w f l.id rows (rw (sym same) d)))
  | inr later ↦
      let rest : find_row p rows ≡ some l = ground arith in
      let other : (r.id == l.id) ≡ false =
        ground (arith, has_id-found p rows l rest, eq_of_beq r.id l.id) in
      rw other (row refl (kept-RowStep w r) (update-RowSteps w p f rows l ds rest k s))
]

pub touched-Edge : (s : SourceListingStatus) → Edge touching s (touched_status s)
touched-Edge discovered = stays _ _
touched-Edge active = stays _ _
touched-Edge missing_suspected = sighted_again
touched-Edge closed = stays _ _
touched-Edge expired = stays _ _
touched-Edge quarantined = stays _ _

pub written-Edge : (b : Bool) (s : SourceListingStatus) → Edge (writing b) s (next_status b s)
written-Edge b discovered = fetched_first b
written-Edge b active = ground (arith, stays (writing b) active)
written-Edge b missing_suspected = fetched_again b
written-Edge true closed = reopens closed refl
written-Edge true expired = reopens expired refl
written-Edge true quarantined = reopens quarantined refl
written-Edge false closed = stays _ _
written-Edge false expired = stays _ _
written-Edge false quarantined = stays _ _
