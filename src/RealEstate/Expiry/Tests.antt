-- ===== src/RealEstate/Expiry/Tests.antt =====
-- One property on offer, missed by a full read and then asked for, and one long gone.
use scraplify.Base.{
  ℕ, ◌+◌, ◌≡◌, refl, true, ◌||◌, Option, none, some, List, [], ◌∷◌, String, string_eq, All, length,
}
use scraplify.RealEstate.Expiry.{
  RealEstateListing, RealEstateStatus, active, gone, ListingCheck, live, dropped, OtherWriters,
  record_listing_check, has_key, FullRead, mark_missed_listings, Catalogue,
  delete_long_gone_listings, mark_lapsed_listings_gone,
}
use scraplify.RealEstate.Expiry.Archive.{
  holds_listing, holds_change, delete_long_gone_listings-keeps,
}
use scraplify.RealEstate.Expiry.Checks.{IsSettled, record_listing_check-IsSettled}
use scraplify.RealEstate.Expiry.Missed.{IsJudged, record_listing_check-IsJudged}

abbrev flat : String → RealEstateStatus → Option ℕ → RealEstateListing
flat id status gone_at = record {
  id = id;
  source_id = "ss-ge";
  deal_type = "rent";
  property_type = "apartment";
  status = status;
  last_seen_at = 1000;
  expected_end_at = some 2000000000;
  missed_at = none;
  verified_at = none;
  gone_at = gone_at;
  gone_reason = none;
  group_key = none;
  similarity_group = none;
}

abbrev rows : List RealEstateListing
rows = flat "a" active none ∷ []

abbrev read : FullRead
read = record {
  source_id = "ss-ge";
  deal_type = "rent";
  property_type = "apartment";
  read_started_at = 2000;
  at = 3000;
}

-- The prices and details that were written.
abbrev writers : OtherWriters ℕ ℕ (List ℕ)
writers = record {
  record_price_sighting = λ id p at s. p ∷ s;
  record_listing_details = λ id d at s. d ∷ s;
}

abbrev shown : ListingCheck ℕ ℕ
shown = live (some 500) (some 70) none

both_written :
    (record_listing_check writers "a" (live none (some 70) (some 3)) 900 rows []).1 ≡ 3 ∷ 70 ∷ []
unfolding record_listing_check
both_written = refl

lapsed : (mark_lapsed_listings_gone "ss-ge" 3000000000 rows).1 ≡ 1
unfolding mark_lapsed_listings_gone
lapsed = refl

abbrev catalogue : Catalogue
catalogue = record {
  listings = flat "a" active none ∷ flat "b" gone (some 10) ∷ [];
  price_changes = record { id = "c1"; listing_id = "b" } ∷ [];
  archive = [];
  archived_changes = [];
}

record_listing_check-IsSettled_example :
    let ((rows', w), s') = record_listing_check writers "a" shown 900 rows [] in
    All (λ l. has_key "a" l ≡ true → IsSettled w 900 l) rows'
record_listing_check-IsSettled_example =
    record_listing_check-IsSettled writers "a" shown 900 rows []

record_listing_check-IsJudged_example :
    IsJudged read rows 5000
      (flat "a" active none)
      (record_listing_check writers "a"
        (dropped "missing")
        5000
        (mark_missed_listings read rows).0
        []).0.1
record_listing_check-IsJudged_example =
    record_listing_check-IsJudged writers read "a" 5000 rows (flat "a" active none) [] refl

delete_long_gone_listings-keeps_example :
    let t' = (delete_long_gone_listings "ss-ge" 1300000000 catalogue).0 in
    (length t'.listings + (delete_long_gone_listings "ss-ge" 1300000000 catalogue).1 ≡ 2)
    × ((id : String)
        → (holds_listing id t'.listings || holds_listing id t'.archive)
          ≡ (holds_listing id catalogue.listings || holds_listing id catalogue.archive))
    × ((id : String)
        → (holds_change id t'.price_changes || holds_change id t'.archived_changes)
          ≡ (holds_change id catalogue.price_changes || holds_change id catalogue.archived_changes))
delete_long_gone_listings-keeps_example =
    delete_long_gone_listings-keeps "ss-ge" 1300000000 catalogue

one_archived : length (delete_long_gone_listings "ss-ge" 1300000000 catalogue).0.archive ≡ 1
unfolding delete_long_gone_listings
one_archived = refl
