-- ===== src/Listings/Reconcile.antt =====
-- Reconciliation after a crawl (src/db/reconcile-source-listings.ts): expiring overdue listings,
-- advancing missing streaks and closing what stayed missing. A transaction is a function of the
-- tables that it reads and writes; a `throw` is an error and leaves them as they were.
pub mod Rows
pub mod Passes
pub mod Misses
pub mod Streaks
mod Tests
use scraplify.Base.{
  ℕ, suc, ◌+◌, ◌/◌, max, Bool, true, false, not, ◌&&◌, ◌||◌, Option, none, some, List, [], ◌∷◌,
  ◌++◌, map, String, string_eq, ◌==◌, ltb, leb, if◌then◌else◌, get_or, filter, any, has, length,
}
use scraplify.Listings.Model.{
  SourceListing, SourceListingStatus, missing_suspected, closed, expired, CrawlRun, ParserIncident,
  ParserIncidentObservation, Evidence, record_parser_incident, mass_closure_suspected, critical,
  is_open_status, is_completed, is_mass_closure,
}

pub record Tables : Type 0 where
  pub listings : List SourceListing
  pub runs : List CrawlRun
  pub incidents : List ParserIncident

pub record CloseMissingListingsInput : Type 0 where
  pub crawl_run_id : String
  pub missing_streak_threshold : ℕ
  pub allow_mass_closure : Bool

pub record CloseMissingListingsResult : Type 0 where
  pub skipped : Bool
  pub missing_suspected_count : ℕ
  pub closed_count : ℕ
  pub closure_capped : Bool

pub data ReconcileError : Type 0 where
  threshold_too_low no_crawl_run : ReconcileError

pub data Result {ℓ} (A : Type ℓ) : Type ℓ where
  ok : A → Result A
  err : ReconcileError → Result A

abbrev pub min_missing_streak_threshold : ℕ
min_missing_streak_threshold = 2

abbrev pub mass_closure_min_cap : ℕ
mass_closure_min_cap = 25

abbrev pub before : Option ℕ → ℕ → Bool
before none t = true
before (some s) t = ltb s t

-- `baseWhere`.
abbrev pub is_missed : CrawlRun → SourceListing → Bool
is_missed run l =
    l.source_id == run.source_id
    && is_open_status l.status
    && ltb l.last_seen_at run.started_at
    && before l.last_reconciled_at run.started_at

-- `closeWhere`.
abbrev pub is_closable : CrawlRun → ℕ → SourceListing → Bool
is_closable run threshold l = is_missed run l && leb threshold (l.missing_streak + 1)

-- `Math.floor(openListingCount * 0.1)` is `/ 10` at every count below 2^52.
abbrev pub closure_cap : ℕ → ℕ
closure_cap open_count = max mass_closure_min_cap (open_count / 10)

-- The columns that both UPDATE statements set.
abbrev pub advance : CrawlRun → SourceListingStatus → SourceListing → SourceListing
advance run status l = record l {
  missing_streak = l.missing_streak + 1;
  status = status;
  last_reconciled_at = some run.started_at;
}

-- UPDATE … SET … WHERE, and the number of rows that RETURNING gives.
abbrev pub update_where {ℓ} : {A : Type ℓ} → (A → Bool) → (A → A) → List A → List A
update_where p f rows = map (λ r. if p r then f r else r) rows

abbrev pub count_where {ℓ} : {A : Type ℓ} → (A → Bool) → List A → ℕ
count_where p rows = length (filter p rows)

abbrev pub find_run : String → List CrawlRun → Option CrawlRun
find_run id [] = none
find_run id (r ∷ rs) = if r.id == id then some r else find_run id rs

abbrev pub mass_closure_observation : CrawlRun → ℕ → Evidence → ParserIncidentObservation
mass_closure_observation run now evidence = record {
  source_id = run.source_id;
  crawl_run_id = some run.id;
  detected_at = get_or run.finished_at now;
  kind = mass_closure_suspected;
  severity = critical;
  evidence = evidence;
}

abbrev pub is_open_mass_closure : CrawlRun → ParserIncident → Bool
is_open_mass_closure run i =
    i.source_id == run.source_id && is_mass_closure i.kind && not i.resolved

-- The transaction once the run is known to be eligible.
unfoldable pub close_missing :
    CrawlRun → CloseMissingListingsInput → ℕ → Tables → Tables × CloseMissingListingsResult
close_missing run input now t =
    let threshold = input.missing_streak_threshold in
    let candidate_ids =
      map (λ (l : SourceListing). l.id) (filter (is_closable run threshold) t.listings) in
    let open_count =
      count_where (λ l. l.source_id == run.source_id && is_open_status l.status) t.listings in
    let capped =
      not input.allow_mass_closure && ltb (closure_cap open_count) (length candidate_ids) in
    let chosen = λ (l : SourceListing). is_closable run threshold l && has l.id candidate_ids in
    let closed_rows = count_where chosen t.listings in
    let listings =
      update_where chosen (advance run (if capped then missing_suspected else closed)) t.listings in
    let incidents =
      if capped && not (any (is_open_mass_closure run) t.incidents)
      then record_parser_incident
          (mass_closure_observation run now (
            Evidence.closure_evidence (length candidate_ids) open_count (closure_cap open_count)
              threshold))
          t.incidents
      else t.incidents in
    let suspected =
      λ (l : SourceListing). is_missed run l && ltb (l.missing_streak + 1) threshold in
    (
      record t {
        listings = update_where suspected (advance run missing_suspected) listings;
        incidents = incidents;
      },
      record {
        skipped = false;
        missing_suspected_count =
            count_where suspected listings + (if capped then closed_rows else 0);
        closed_count = if capped then 0 else closed_rows;
        closure_capped = capped;
      },
    )

abbrev pub skipped_result : CloseMissingListingsResult
skipped_result = record {
  skipped = true;
  missing_suspected_count = 0;
  closed_count = 0;
  closure_capped = false;
}

unfoldable pub close_missing_listings :
    CloseMissingListingsInput → ℕ → Tables → Result (Tables × CloseMissingListingsResult)
close_missing_listings input now t =
    if ltb input.missing_streak_threshold min_missing_streak_threshold
    then err threshold_too_low
    else elim (find_run input.crawl_run_id t.runs) [
      | none ↦ err no_crawl_run
      | some run ↦
          if not (is_completed run.status) || not run.full_coverage
          then ok (t, skipped_result)
          else ok (close_missing run input now t)
    ]

abbrev pub is_overdue : String → ℕ → SourceListing → Bool
is_overdue source_id as_of l =
    l.source_id == source_id
    && is_open_status l.status
    && elim l.source_deadline_at [ none ↦ false | some d ↦ ltb d as_of ]

unfoldable pub expire_overdue_listings : String → ℕ → Tables → Tables × ℕ
expire_overdue_listings source_id as_of t = (
  record t {
    listings =
        update_where (is_overdue source_id as_of) (λ l. record l { status = expired }) t.listings;
  },
  count_where (is_overdue source_id as_of) t.listings,
)
