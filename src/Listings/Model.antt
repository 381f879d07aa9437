-- ===== src/Listings/Model.antt =====
-- The rows that the listing writers share (src/domain/source-listing.ts, src/domain/run.ts,
-- src/db/ingest.ts). Instants are milliseconds since the epoch; columns that no rule reads are
-- left out.
use scraplify.Base.{ℕ, Bool, true, false, Option, none, List, [], ◌∷◌, ◌++◌, String}

pub data SourceListingStatus : Type 0 where
  discovered active missing_suspected closed expired quarantined : SourceListingStatus

pub record SourceListing : Type 0 where
  pub id : String
  pub source_id : String
  pub source_record_id : Option String
  pub canonical_source_url : String
  pub current_revision_id : Option String
  pub first_seen_at : ℕ
  pub last_seen_at : ℕ
  pub status : SourceListingStatus
  pub missing_streak : ℕ
  pub source_published_at : Option ℕ
  pub source_deadline_at : Option ℕ
  pub last_reconciled_at : Option ℕ

pub data CrawlRunStatus : Type 0 where
  running completed failed partial quarantined : CrawlRunStatus

pub record CrawlRun : Type 0 where
  pub id : String
  pub source_id : String
  pub started_at : ℕ
  pub finished_at : Option ℕ
  pub status : CrawlRunStatus
  pub full_coverage : Bool

pub data IncidentKind : Type 0 where
  field_missing count_collapse count_surge access_denied captcha : IncidentKind
  duplicate_spike mass_closure_suspected encoding_error unexpected_mime other : IncidentKind

pub data IncidentSeverity : Type 0 where
  info warning critical : IncidentSeverity

-- The evidence that reconciliation and the run guards store, and whatever else is stored.
pub data Evidence : Type 0 where
  closure_evidence :
      (closure_candidate_count open_listing_count cap missing_streak_threshold : ℕ) → Evidence
  guard_failure :
      (failed_guards : List String)
      → (discovered_count : ℕ) → (baseline_discovered_count : Option ℕ) → Evidence
  surge : (discovered_count baseline_discovered_count surge_ratio : ℕ) → Evidence
  elsewhere : (origin : String) → Evidence

-- `evidence->>'origin'`.
abbrev pub origin : Evidence → String
origin (closure_evidence _ _ _ _) = "closure_cap"
origin (guard_failure _ _ _) = "run_guard"
origin (surge _ _ _) = "run_guard"
origin (elsewhere o) = o

pub record ParserIncident : Type 0 where
  pub source_id : String
  pub crawl_run_id : Option String
  pub detected_at : ℕ
  pub kind : IncidentKind
  pub severity : IncidentSeverity
  pub evidence : Evidence
  pub resolved : Bool
  pub resolved_at : Option ℕ

-- What one caller of `recordParserIncident` observed.
pub record ParserIncidentObservation : Type 0 where
  pub source_id : String
  pub crawl_run_id : Option String
  pub detected_at : ℕ
  pub kind : IncidentKind
  pub severity : IncidentSeverity
  pub evidence : Evidence

-- The new row's random id is not modelled.
unfoldable pub record_parser_incident :
    ParserIncidentObservation → List ParserIncident → List ParserIncident
record_parser_incident o incidents =
    incidents
    ++ record {
      source_id = o.source_id;
      crawl_run_id = o.crawl_run_id;
      detected_at = o.detected_at;
      kind = o.kind;
      severity = o.severity;
      evidence = o.evidence;
      resolved = false;
      resolved_at = none;
    }
      ∷ []

abbrev pub is_open_status : SourceListingStatus → Bool
is_open_status active = true
is_open_status missing_suspected = true
is_open_status _ = false

abbrev pub is_closed_status : SourceListingStatus → Bool
is_closed_status closed = true
is_closed_status _ = false

abbrev pub is_completed : CrawlRunStatus → Bool
is_completed completed = true
is_completed _ = false

abbrev pub is_mass_closure : IncidentKind → Bool
is_mass_closure mass_closure_suspected = true
is_mass_closure _ = false
