-- ===== src/Listings/Writers/Write.antt =====
-- A fetched and parsed listing (`writeSourceListingRevision` of
-- src/db/write-source-listing-revision.ts).
use scraplify.Base.{
  ℕ, Bool, true, false, ◌&&◌, ◌||◌, Option, none, some, List, [], ◌∷◌, ◌++◌, String, string_eq,
  ◌==◌, ltb, if◌then◌else◌, is_none,
}
use scraplify.Listings.Model.{
  SourceListing, SourceListingStatus, discovered, active, missing_suspected, closed, expired,
  quarantined,
}
use scraplify.Listings.Writers.{
  SourceListingIdentity, SourceListingRevision, ListingTables, WriteResult, matches, find_row,
  update_returning, ensure_listing, ok, err, listing_row_missing, current_revision_missing,
}

pub record SourceListingRevisionContent : Type 0 where
  pub parser_version : String
  pub meaningful_content_hash : String
  pub published_date : Option ℕ
  pub deadline_date : Option ℕ

pub data WriteOutcome : Type 0 where
  new changed unchanged stale : WriteOutcome

abbrev pub needs_reopening : SourceListingStatus → Bool
needs_reopening closed = true
needs_reopening expired = true
needs_reopening quarantined = true
needs_reopening _ = false

abbrev pub is_reopening : Bool → SourceListingStatus → Bool
is_reopening allow_reopen status = allow_reopen && needs_reopening status

abbrev pub is_advanced : SourceListingStatus → Bool
is_advanced discovered = true
is_advanced missing_suspected = true
is_advanced _ = false

-- `nextStatus` of `writeSourceListingRevision`.
abbrev pub next_status : Bool → SourceListingStatus → SourceListingStatus
next_status allow_reopen status =
    if is_advanced status || is_reopening allow_reopen status then active else status

abbrev pub same_content : SourceListingRevision → SourceListingRevisionContent → Bool
same_content r content =
    is_none r.trimmed_at
    && r.parser_version == content.parser_version
    && r.meaningful_content_hash == content.meaningful_content_hash

-- The listing's columns after an unchanged observation, and after a new revision.
abbrev pub refreshed : SourceListingIdentity → ℕ → Bool → SourceListing → SourceListing
refreshed identity observed_at allow_reopen l = record l {
  canonical_source_url = identity.canonical_source_url;
  last_seen_at = observed_at;
  missing_streak = 0;
  status = next_status allow_reopen l.status;
}

abbrev pub repointed :
    SourceListingIdentity
    → SourceListingRevisionContent
    → ℕ
    → Bool
    → String
    → SourceListing
    → SourceListing
repointed identity content observed_at allow_reopen revision_id l = record l {
  current_revision_id = some revision_id;
  canonical_source_url = identity.canonical_source_url;
  last_seen_at = observed_at;
  missing_streak = 0;
  status = next_status allow_reopen l.status;
  source_published_at = content.published_date;
  source_deadline_at = content.deadline_date;
}

abbrev pub new_revision : String → String → SourceListingRevisionContent → ℕ → SourceListingRevision
new_revision id listing_id content observed_at = record {
  id = id;
  source_listing_id = listing_id;
  parser_version = content.parser_version;
  meaningful_content_hash = content.meaningful_content_hash;
  trimmed_at = none;
  created_at = observed_at;
}

pub record WriteSourceListingRevisionResult : Type 0 where
  pub outcome : WriteOutcome
  pub source_listing : SourceListing
  pub revision : SourceListingRevision
  pub reopened : Bool

abbrev pub with_outcome :
    WriteOutcome → SourceListingRevision → Bool → SourceListing → WriteSourceListingRevisionResult
with_outcome outcome revision reopened l = record {
  outcome = outcome;
  source_listing = l;
  revision = revision;
  reopened = reopened;
}

abbrev pub first_seen : ℕ → SourceListing → SourceListing
first_seen observed_at l = record l { first_seen_at = observed_at }

-- The arguments of one call, with the two ids that `randomUUID()` returns.
pub record Observation : Type 0 where
  pub identity : SourceListingIdentity
  pub content : SourceListingRevisionContent
  pub observed_at : ℕ
  pub allow_reopen : Bool
  pub listing_id : String
  pub revision_id : String

abbrev pub insert_revision :
    Observation
    → WriteOutcome
    → SourceListing
    → ListingTables
    → WriteResult (ListingTables × WriteSourceListingRevisionResult)
insert_revision o outcome locked t =
    let revision = new_revision o.revision_id locked.id o.content o.observed_at in
    update_returning locked.id
      (repointed o.identity o.content o.observed_at o.allow_reopen o.revision_id)
      (record t { revisions = t.revisions ++ revision ∷ [] })
      (with_outcome outcome revision (is_reopening o.allow_reopen locked.status))

-- A stale observation only lowers `firstSeenAt`.
abbrev pub reject_stale :
    ℕ
    → SourceListing
    → SourceListingRevision
    → ListingTables
    → WriteResult (ListingTables × WriteSourceListingRevisionResult)
reject_stale observed_at locked revision t =
    if ltb observed_at locked.first_seen_at
    then update_returning locked.id (first_seen observed_at) t (with_outcome stale revision false)
    else ok (t, with_outcome stale revision false locked)

abbrev pub write_unchanged :
    Observation
    → SourceListing
    → SourceListingRevision
    → ListingTables
    → WriteResult (ListingTables × WriteSourceListingRevisionResult)
write_unchanged o locked revision t =
    update_returning locked.id (refreshed o.identity o.observed_at o.allow_reopen) t
      (with_outcome unchanged revision (is_reopening o.allow_reopen locked.status))

-- What follows the lock and the read of the current revision.
abbrev pub write_under_lock :
    Observation
    → SourceListing
    → Option SourceListingRevision
    → ListingTables
    → WriteResult (ListingTables × WriteSourceListingRevisionResult)
write_under_lock o locked none t = insert_revision o new locked t
write_under_lock o locked (some current) t =
    if ltb o.observed_at locked.last_seen_at
    then reject_stale o.observed_at locked current t
    else if same_content current o.content
    then write_unchanged o locked current t
    else insert_revision o changed locked t

abbrev pub is_revision : String → SourceListingRevision → Bool
is_revision id r = r.id == id

-- The revision that was read: `some none` when the listing has none.
abbrev pub some_if_found {ℓ} : {A : Type ℓ} → Option A → Option (Option A)
some_if_found none = none
some_if_found (some a) = some (some a)

abbrev pub current_revision :
    List SourceListingRevision → Option String → Option (Option SourceListingRevision)
current_revision revisions none = some none
current_revision revisions (some id) = some_if_found (find_row (is_revision id) revisions)

abbrev pub write_read :
    Observation
    → SourceListing
    → Option (Option SourceListingRevision)
    → ListingTables
    → WriteResult (ListingTables × WriteSourceListingRevisionResult)
write_read o locked none t = err current_revision_missing
write_read o locked (some current) t = write_under_lock o locked current t

abbrev pub write_locked :
    Observation
    → Option SourceListing
    → ListingTables
    → WriteResult (ListingTables × WriteSourceListingRevisionResult)
write_locked o none t = err listing_row_missing
write_locked o (some locked) t =
    write_read o locked (current_revision t.revisions locked.current_revision_id) t

unfoldable pub write_source_listing_revision :
    Observation → ListingTables → WriteResult (ListingTables × WriteSourceListingRevisionResult)
write_source_listing_revision o t =
    let t' =
      ensure_listing o.identity o.listing_id o.observed_at o.content.published_date
        o.content.deadline_date t in
    write_locked o (find_row (matches o.identity) t'.listings) t'
