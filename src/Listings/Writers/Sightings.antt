-- ===== src/Listings/Writers/Sightings.antt =====
-- A listing that was only sighted, and one whose page did not parse
-- (`touchSourceListingSeen`, `quarantineSourceListing`).
use scraplify.Base.{ℕ, Bool, true, false, Option, none, some, String, ltb, if◌then◌else◌}
use scraplify.Listings.Model.{SourceListing, quarantined}
use scraplify.Listings.Writers.{
  SourceListingIdentity, ListingTables, WriteResult, ok, err, listing_row_missing, update_returning,
  touched_status, ensure_listing, find_row, matches,
}

pub record SeenResult : Type 0 where
  pub source_listing : SourceListing
  pub stale : Bool

abbrev pub seen_result : Bool → SourceListing → SeenResult
seen_result stale l = record { source_listing = l; stale = stale }

abbrev pub sighted : SourceListingIdentity → ℕ → SourceListing → SourceListing
sighted identity observed_at l = record l {
  canonical_source_url = identity.canonical_source_url;
  last_seen_at = observed_at;
  missing_streak = 0;
  status = touched_status l.status;
}

abbrev pub quarantine : SourceListingIdentity → ℕ → SourceListing → SourceListing
quarantine identity observed_at l = record l {
  canonical_source_url = identity.canonical_source_url;
  last_seen_at = observed_at;
  status = quarantined;
}

-- The guard and the update that the two have in common.
abbrev pub update_seen :
    ℕ
    → (SourceListing → SourceListing)
    → Option SourceListing
    → ListingTables
    → WriteResult (ListingTables × SeenResult)
update_seen observed_at f none t = err listing_row_missing
update_seen observed_at f (some locked) t =
    if ltb observed_at locked.last_seen_at
    then ok (t, seen_result true locked)
    else update_returning locked.id f t (seen_result false)

unfoldable pub touch_source_listing_seen :
    SourceListingIdentity → String → ℕ → ListingTables → WriteResult (ListingTables × SeenResult)
touch_source_listing_seen identity id observed_at t =
    let t' = ensure_listing identity id observed_at none none t in
    update_seen observed_at (sighted identity observed_at) (find_row (matches identity) t'.listings)
      t'

unfoldable pub quarantine_source_listing :
    SourceListingIdentity → String → ℕ → ListingTables → WriteResult (ListingTables × SeenResult)
quarantine_source_listing identity id observed_at t =
    let t' = ensure_listing identity id observed_at none none t in
    update_seen observed_at (quarantine identity observed_at)
      (find_row (matches identity) t'.listings) t'
