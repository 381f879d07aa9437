-- ===== src/Listings/Writers.antt =====
-- What a crawl writes about one listing (src/db/write-source-listing-revision.ts): a fetched and
-- parsed revision, a bare sighting, or a quarantine. Each is one transaction over the listing and
-- revision tables; `randomUUID()` is an argument, and a revision keeps the columns that are read.
pub mod Write
pub mod Sightings
pub mod Rows
pub mod Updates
pub mod Locking
pub mod Lifecycle
pub mod Steps
pub mod Retry
mod Tests
use scraplify.Base.{
  ℕ, Bool, true, false, not, ◌&&◌, ◌||◌, Option, none, some, List, [], ◌∷◌, ◌++◌, String, string_eq,
  ◌==◌, ltb, if◌then◌else◌, any, is_none,
}
use scraplify.Listings.Model.{
  SourceListing, SourceListingStatus, discovered, active, missing_suspected, closed, expired,
  quarantined,
}
use scraplify.Listings.Reconcile.{update_where}

pub record SourceListingIdentity : Type 0 where
  pub source_id : String
  pub source_record_id : Option String
  pub canonical_source_url : String

pub record SourceListingRevision : Type 0 where
  pub id : String
  pub source_listing_id : String
  pub parser_version : String
  pub meaningful_content_hash : String
  pub trimmed_at : Option ℕ
  pub created_at : ℕ

pub record ListingTables : Type 0 where
  pub listings : List SourceListing
  pub revisions : List SourceListingRevision

pub data WriteError : Type 0 where
  listing_row_missing current_revision_missing update_returned_no_row : WriteError

pub data WriteResult {ℓ} (A : Type ℓ) : Type ℓ where
  ok : A → WriteResult A
  err : WriteError → WriteResult A

-- The row that each writer inserts when there is none.
abbrev pub discovered_row : String → SourceListingIdentity → ℕ → Option ℕ → Option ℕ → SourceListing
discovered_row id identity observed_at published deadline = record {
  id = id;
  source_id = identity.source_id;
  source_record_id = identity.source_record_id;
  canonical_source_url = identity.canonical_source_url;
  current_revision_id = none;
  first_seen_at = observed_at;
  last_seen_at = observed_at;
  status = discovered;
  missing_streak = 0;
  source_published_at = published;
  source_deadline_at = deadline;
  last_reconciled_at = none;
}

abbrev pub is_text : Option String → String → Bool
is_text none t = false
is_text (some s) t = s == t

-- The partial unique index that an insert may run into.
abbrev pub conflicts_by : Option String → SourceListingIdentity → SourceListing → Bool
conflicts_by (some record_id) identity l =
    l.source_id == identity.source_id && is_text l.source_record_id record_id
conflicts_by none identity l =
    l.source_id == identity.source_id
    && l.canonical_source_url == identity.canonical_source_url
    && is_none l.source_record_id

-- `onConflictDoNothing`.
abbrev pub insert_or_ignore :
    SourceListingIdentity → SourceListing → List SourceListing → List SourceListing
insert_or_ignore identity row rows =
    if any (conflicts_by identity.source_record_id identity) rows then rows else rows ++ row ∷ []

-- `identityWhere`.
abbrev pub matches_by : Option String → SourceListingIdentity → SourceListing → Bool
matches_by (some record_id) identity l =
    l.source_id == identity.source_id && is_text l.source_record_id record_id
matches_by none identity l =
    l.source_id == identity.source_id && l.canonical_source_url == identity.canonical_source_url

abbrev pub matches : SourceListingIdentity → SourceListing → Bool
matches identity = matches_by identity.source_record_id identity

-- The first row of a SELECT without an order, which may be any that matches: here the first of the
-- list, and a table is a list in any order.
abbrev pub find_row {ℓ} : {A : Type ℓ} → (A → Bool) → List A → Option A
find_row p [] = none
find_row p (r ∷ rs) = if p r then some r else find_row p rs

-- `update(…).set(…).where(eq(id, …))`.
abbrev pub update_listing :
    String → (SourceListing → SourceListing) → List SourceListing → List SourceListing
update_listing id f rows = update_where (λ (l : SourceListing). l.id == id) f rows

-- `nextStatus` of `touchSourceListingSeen`.
abbrev pub touched_status : SourceListingStatus → SourceListingStatus
touched_status missing_suspected = active
touched_status status = status

abbrev pub has_id : String → SourceListing → Bool
has_id id l = l.id == id

-- `const [row] = await tx.update(…).returning()`: the tables and the first row of that id.
abbrev pub returning {ℓ} :
    {A : Type ℓ}
    → ListingTables
    → (SourceListing → A)
    → Option SourceListing
    → WriteResult (ListingTables × A)
returning t result none = err update_returned_no_row
returning t result (some l) = ok (t, result l)

abbrev pub update_returning {ℓ} :
    {A : Type ℓ}
    → String
    → (SourceListing → SourceListing)
    → ListingTables
    → (SourceListing → A)
    → WriteResult (ListingTables × A)
update_returning id f t result =
    let t' = record t { listings = update_listing id f t.listings } in
    returning t' result (find_row (has_id id) t'.listings)

-- The tables after the insert that each writer starts with.
abbrev pub ensure_listing :
    SourceListingIdentity → String → ℕ → Option ℕ → Option ℕ → ListingTables → ListingTables
ensure_listing identity id observed_at published deadline t = record t {
  listings =
      insert_or_ignore identity (discovered_row id identity observed_at published deadline)
        t.listings;
}
