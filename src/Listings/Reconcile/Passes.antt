-- ===== src/Listings/Reconcile/Passes.antt =====
-- What reconciliation passes (src/db/reconcile-source-listings.ts) promise: a pass repeated changes
-- nothing, closes no more than its cap, and a listing closes only after as many misses as asked.
use scraplify.Base.{
  ℕ, ◌+◌, ◌/◌, ◌≤◌, ◌≡◌, refl, sym, ◌∙◌, subst, Bool, false, ◌&&◌, List, [], ◌∷◌, map, String,
  string_eq, ◌==◌, if◌then◌else◌, arith, max,
}
use scraplify.Listings.Model.{SourceListing, CrawlRun, is_closed_status, is_open_status}
use scraplify.Listings.Reconcile.{
  Tables, CloseMissingListingsInput, is_closable, count_where, close_missing,
}
use scraplify.Listings.Reconcile.Rows.{
  settle, is_missed-settle, listings-close_missing, closed_count-close_missing,
}

module _ (run : CrawlRun) (threshold : ℕ) where
  count_closable-settle :
      (capped : Bool) (rows : List SourceListing)
      → count_where (is_closable run threshold) (map (settle run threshold capped) rows) ≡ 0
  count_closable-settle capped [] = refl
  count_closable-settle capped (l ∷ rows) =
      ground (arith, is_missed-settle run threshold capped l, count_closable-settle capped rows)

  settle_again :
      (capped again : Bool) (rows : List SourceListing)
      → map (settle run threshold again) (map (settle run threshold capped) rows)
        ≡ map (settle run threshold capped) rows
  settle_again capped again [] = refl
  settle_again capped again (l ∷ rows) = rw is_missed-settle (rw (settle_again capped again rows))

  count_closed-settle :
      (capped : Bool) (rows : List SourceListing)
      → count_where (λ l. is_closed_status l.status) (map (settle run threshold capped) rows)
        ≡ count_where (λ l. is_closed_status l.status) rows
          + (if capped then 0 else count_where (is_closable run threshold) rows)
  count_closed-settle capped [] = ground arith
  count_closed-settle capped (l ∷ rows) = ground (arith, count_closed-settle capped rows)

incidents_uncapped :
    (run : CrawlRun) (input : CloseMissingListingsInput) (now : ℕ) (t : Tables)
    → (close_missing run input now t).1.closure_capped ≡ false
    → (close_missing run input now t).0.incidents ≡ t.incidents
unfolding close_missing
incidents_uncapped run input now t h = ground arith

runs-close_missing :
    (run : CrawlRun) (input : CloseMissingListingsInput) (now : ℕ) (t : Tables)
    → (close_missing run input now t).0.runs ≡ t.runs
unfolding close_missing
runs-close_missing run input now t = refl

Tables_path :
    (t u : Tables) → t.listings ≡ u.listings → t.runs ≡ u.runs → t.incidents ≡ u.incidents → t ≡ u
Tables_path t u p q r = λ i. record { listings = p i; runs = q i; incidents = r i }

-- A second pass for the same run, at whatever time, leaves the tables as the first pass left
-- them, opens no incident and closes no listing.
pub close_missing-again :
    (run : CrawlRun) (input : CloseMissingListingsInput) (now later : ℕ) (t : Tables)
    → let t' = (close_missing run input now t).0 in
      let again = close_missing run input later t' in
      (again.0 ≡ t') × (again.1.closed_count ≡ 0) × (again.1.closure_capped ≡ false)
close_missing-again run input now later t =
    let threshold = input.missing_streak_threshold in
    let t' = (close_missing run input now t).0 in
    let capped = (close_missing run input now t).1.closure_capped in
    let again = close_missing run input later t' in
    let first = listings-close_missing run input now t in
    let nothing : count_where (is_closable run threshold) t'.listings ≡ 0 =
      rw first (count_closable-settle run threshold capped t.listings) in
    let (count, cap) = closed_count-close_missing run input later t' in
    let uncapped : again.1.closure_capped ≡ false = ground (arith, cap, nothing) in
    let same : again.0.listings ≡ t'.listings =
      listings-close_missing run input later t'
      ∙ subst (λ rows. map (settle run threshold again.1.closure_capped) rows ≡ rows) (sym first)
          (settle_again run threshold capped again.1.closure_capped t.listings) in
    (
      Tables_path again.0 t' same (runs-close_missing run input later t')
          (incidents_uncapped run input later t' uncapped),
      ground (arith, count, nothing),
      uncapped,
    )

abbrev pub closed_rows : List SourceListing → ℕ
closed_rows rows = count_where (λ l. is_closed_status l.status) rows

abbrev pub open_rows : String → List SourceListing → ℕ
open_rows source_id rows =
    count_where (λ l. l.source_id == source_id && is_open_status l.status) rows

-- Without the reviewed override, a pass adds no more closed listings than the larger of 25 and a
-- tenth of the source's open listings; and the count that it reports is the number it added.
pub close_missing-capped :
    (run : CrawlRun) (input : CloseMissingListingsInput) (now : ℕ) (t : Tables)
    → let (t', r) = close_missing run input now t in
      (closed_rows t'.listings ≡ closed_rows t.listings + r.closed_count)
      × (input.allow_mass_closure ≡ false
          → r.closed_count ≤ max 25 (open_rows run.source_id t.listings / 10))
close_missing-capped run input now t =
    let threshold = input.missing_streak_threshold in
    let capped = (close_missing run input now t).1.closure_capped in
    let (count, cap) = closed_count-close_missing run input now t in
    (
      rw listings-close_missing
          (ground (arith, count, count_closed-settle run threshold capped t.listings)),
      λ h. ground (arith, count, cap),
    )
