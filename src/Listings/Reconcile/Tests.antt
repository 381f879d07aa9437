-- ===== src/Listings/Reconcile/Tests.antt =====
-- One source with a listing about to close, one first missed and one seen.
use scraplify.Base.{
  ℕ, ◌+◌, ◌≤◌, ◌/◌, ◌≡◌, refl, true, false, none, some, [], ◌∷◌, All, max, String, string_eq,
}
use scraplify.Listings.Model.{
  SourceListing, SourceListingStatus, active, missing_suspected, closed, CrawlRun, completed,
  is_closed_status,
}
use scraplify.Listings.Reconcile.{
  Tables, CloseMissingListingsInput, CloseMissingListingsResult, ok, close_missing,
  close_missing_listings, expire_overdue_listings,
}
use scraplify.Listings.Reconcile.Passes.{
  close_missing-again, close_missing-capped, closed_rows, open_rows,
}
use scraplify.Listings.Reconcile.Misses.{Settled, close_missing_listings-Settled}
use scraplify.Listings.Reconcile.Streaks.{start, pass, miss_count, closes_after_threshold}

abbrev listing : String → SourceListingStatus → ℕ → ℕ → SourceListing
listing id status streak seen = record {
  id = id;
  source_id = "jobs-ge";
  source_record_id = some id;
  canonical_source_url = "https://jobs.ge";
  current_revision_id = some "v1";
  first_seen_at = 10;
  last_seen_at = seen;
  status = status;
  missing_streak = streak;
  source_published_at = none;
  source_deadline_at = some 900;
  last_reconciled_at = none;
}

abbrev run_at : String → ℕ → CrawlRun
run_at id at = record {
  id = id;
  source_id = "jobs-ge";
  started_at = at;
  finished_at = none;
  status = completed;
  full_coverage = true;
}

abbrev input_for : String → CloseMissingListingsInput
input_for id = record {
  crawl_run_id = id;
  missing_streak_threshold = 2;
  allow_mass_closure = false;
}

abbrev tables : Tables
tables = record {
  listings = listing "a" active 0 50 ∷ listing "b" active 0 150 ∷ [];
  runs = run_at "r1" 100 ∷ run_at "r2" 200 ∷ [];
  incidents = [];
}

abbrev missed_row : String → SourceListingStatus → ℕ → ℕ → ℕ → SourceListing
missed_row id status streak seen at =
    let l = listing id status streak seen in record l { last_reconciled_at = some at }

abbrev after_one : Tables
after_one = record tables {
  listings = missed_row "a" missing_suspected 1 50 100 ∷ listing "b" active 0 150 ∷ [];
}

abbrev after_two : Tables
after_two = record tables {
  listings = missed_row "a" closed 2 50 200 ∷ missed_row "b" missing_suspected 1 150 200 ∷ [];
}

abbrev counts : ℕ → ℕ → CloseMissingListingsResult
counts suspected shut = record {
  skipped = false;
  missing_suspected_count = suspected;
  closed_count = shut;
  closure_capped = false;
}

first_pass : close_missing_listings (input_for "r1") 0 tables ≡ ok (after_one, counts 1 0)
unfolding close_missing_listings close_missing
first_pass = refl

second_pass : close_missing_listings (input_for "r2") 0 after_one ≡ ok (after_two, counts 1 1)
unfolding close_missing_listings close_missing
second_pass = refl

expiry : (expire_overdue_listings "jobs-ge" 901 tables).1 ≡ 2
unfolding expire_overdue_listings
expiry = refl

close_missing-again_example :
    let t' = (close_missing (run_at "r1" 100) (input_for "r1") 0 tables).0 in
    let again = close_missing (run_at "r1" 100) (input_for "r1") 7 t' in
    (again.0 ≡ t') × (again.1.closed_count ≡ 0) × (again.1.closure_capped ≡ false)
close_missing-again_example = close_missing-again (run_at "r1" 100) (input_for "r1") 0 7 tables

close_missing-capped_example :
    let (t', r) = close_missing (run_at "r2" 200) (input_for "r2") 0 after_one in
    (closed_rows t'.listings ≡ closed_rows after_one.listings + r.closed_count)
    × ((input_for "r2").allow_mass_closure ≡ false
        → r.closed_count ≤ max 25 (open_rows "jobs-ge" after_one.listings / 10))
close_missing-capped_example = close_missing-capped (run_at "r2" 200) (input_for "r2") 0 after_one

close_missing_listings-Settled_example : Settled (input_for "r1") tables after_one (counts 1 0)
close_missing_listings-Settled_example =
    close_missing_listings-Settled (input_for "r1") 0 tables after_one (counts 1 0) first_pass

closes_after_threshold_example :
    All
      (λ l.
        is_closed_status l.status ≡ true
        → 2 ≤ miss_count (run_at "r2" 200 ∷ run_at "r1" 100 ∷ []) l)
      after_two.listings
closes_after_threshold_example =
    closes_after_threshold 2 (run_at "r2" 200 ∷ run_at "r1" 100 ∷ []) tables after_two
      ((refl, refl), ((refl, refl), tt))
      (pass (input_for "r2") 0 (run_at "r2" 200)
        (pass (input_for "r1") 0 (run_at "r1" 100) start refl refl first_pass) refl refl
        second_pass)
