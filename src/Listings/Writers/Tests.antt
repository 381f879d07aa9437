-- ===== src/Listings/Writers/Tests.antt =====
-- One listing that closed, fetched again, and one that was never seen.
use scraplify.Base.{ℕ, ◌≡◌, refl, Bool, true, false, Option, none, some, [], ◌∷◌, String, string_eq}
use scraplify.Listings.Model.{SourceListing, SourceListingStatus, active, closed, quarantined}
use scraplify.Listings.Writers.{
  SourceListingIdentity, SourceListingRevision, ListingTables, ensure_listing, WriteResult, ok, err,
}
use scraplify.Listings.Writers.Write.{
  Observation, write_source_listing_revision, WriteSourceListingRevisionResult,
}
use scraplify.Listings.Writers.Sightings.{touch_source_listing_seen, quarantine_source_listing}
use scraplify.Listings.Writers.Lifecycle.{touching, quarantining, writing}
use scraplify.Listings.Writers.Locking.{Returns, write_source_listing_revision-Returns}
use scraplify.Listings.Writers.Retry.{Settles, write_source_listing_revision-Settles}
use scraplify.Listings.Writers.Steps.{
  Follows, sightings_follow, write_source_listing_revision-Follows,
}

abbrev identity : SourceListingIdentity
identity = record {
  source_id = "jobs-ge";
  source_record_id = some "17";
  canonical_source_url = "https://jobs.ge/17";
}

abbrev closed_row : SourceListing
closed_row = record {
  id = "a";
  source_id = "jobs-ge";
  source_record_id = some "17";
  canonical_source_url = "https://jobs.ge/17?old";
  current_revision_id = some "v1";
  first_seen_at = 10;
  last_seen_at = 50;
  status = closed;
  missing_streak = 2;
  source_published_at = none;
  source_deadline_at = none;
  last_reconciled_at = some 90;
}

abbrev first_revision : SourceListingRevision
first_revision = record {
  id = "v1";
  source_listing_id = "a";
  parser_version = "1";
  meaningful_content_hash = "h";
  trimmed_at = none;
  created_at = 10;
}

abbrev tables : ListingTables
tables = record { listings = closed_row ∷ []; revisions = first_revision ∷ [] }

abbrev fetched : ℕ → String → Bool → Observation
fetched at hash allow_reopen = record {
  identity = identity;
  content = record {
    parser_version = "1";
    meaningful_content_hash = hash;
    published_date = none;
    deadline_date = some 900;
  };
  observed_at = at;
  allow_reopen = allow_reopen;
  listing_id = "b";
  revision_id = "v2";
}

abbrev quarantined_row : SourceListing
quarantined_row = record closed_row {
  current_revision_id = none;
  status = quarantined;
  missing_streak = 0;
}

abbrev seen_at :
    WriteResult (ListingTables × WriteSourceListingRevisionResult)
    → Option (ℕ × SourceListingStatus × Bool)
seen_at (ok (t, r)) = some (r.source_listing.last_seen_at, r.source_listing.status, r.reopened)
seen_at (err e) = none

-- An older fetch of a row that never had a revision is not compared with its `lastSeenAt`.
abbrev unparsed : ListingTables
unparsed = record { listings = quarantined_row ∷ []; revisions = [] }

write_source_listing_revision-Settles_example :
    Settles (fetched 100 "g" true) (write_source_listing_revision (fetched 100 "g" true) tables)
write_source_listing_revision-Settles_example =
    write_source_listing_revision-Settles (fetched 100 "g" true) tables (refl, tt) (refl, tt) refl
      refl

write_source_listing_revision-Returns_example :
    Returns (write_source_listing_revision (fetched 20 "h" false) tables)
write_source_listing_revision-Returns_example =
    write_source_listing_revision-Returns (fetched 20 "h" false) tables (refl, tt)

write_source_listing_revision-Follows_example :
    Follows
      (writing true)
      (ensure_listing identity "b" 40 none (some 900) unparsed).listings
      (write_source_listing_revision (fetched 40 "h" true) unparsed)
write_source_listing_revision-Follows_example =
    write_source_listing_revision-Follows (fetched 40 "h" true) unparsed (tt, tt) (refl, tt) refl

sightings_follow_example :
    Follows touching
      (ensure_listing identity "b" 100 none none tables).listings
      (touch_source_listing_seen identity "b" 100 tables)
    × Follows quarantining
        (ensure_listing identity "b" 100 none none tables).listings
        (quarantine_source_listing identity "b" 100 tables)
sightings_follow_example = sightings_follow identity "b" 100 tables (refl, tt) refl

-- It lowers that row's `lastSeenAt` from 50 to 40 and reopens it.
late_write :
    seen_at (write_source_listing_revision (fetched 40 "h" true) unparsed) ≡ some (40, active, true)
unfolding write_source_listing_revision
late_write = refl
