-- ===== src/Adapters/RunAnomalies.antt =====
-- Incidents of a whole run (src/adapters/run-anomalies.ts). The measured figures, which are spread
-- into the evidence, are left out.
pub mod OpenIncidents
pub mod Healing
mod Tests
use scraplify.Base.{
  ℕ, ◌+◌, ◌*◌, Bool, true, false, not, ◌&&◌, ◌||◌, Option, none, some, List, [], ◌∷◌, ◌++◌, map,
  String, string_eq, nat_eq, ◌==◌, ltb, leb, if◌then◌else◌, length, filter, all, any,
}
use scraplify.Listings.Model.{
  IncidentKind, field_missing, count_collapse, count_surge, access_denied, captcha, duplicate_spike,
  mass_closure_suspected, encoding_error, unexpected_mime, other, IncidentSeverity, info, warning,
  critical, Evidence, guard_failure, surge, origin, ParserIncident, ParserIncidentObservation,
  record_parser_incident,
}
use scraplify.Listings.Reconcile.{update_where}

abbrev pub run_guard_origin : String
run_guard_origin = "run_guard"

pub record RunGuard : Type 0 where
  pub name : String
  pub ok : Bool
  pub count_guard : Bool

abbrev pub min_surge_baseline : ℕ
min_surge_baseline = 100

abbrev pub default_surge_ratio : ℕ
default_surge_ratio = 2

pub record RunAnomalyInput : Type 0 where
  pub source_id : String
  pub crawl_run_id : Option String
  pub detected_at : ℕ
  pub guards : List RunGuard
  pub discovered_count : ℕ
  pub baseline_discovered_count : Option ℕ
  pub surge_ratio : Option ℕ

pub record RunAnomaly : Type 0 where
  pub kind : IncidentKind
  pub severity : IncidentSeverity
  pub evidence : Evidence

-- `===` on the kinds.
abbrev pub kind_index : IncidentKind → ℕ
kind_index field_missing = 0
kind_index count_collapse = 1
kind_index count_surge = 2
kind_index access_denied = 3
kind_index captcha = 4
kind_index duplicate_spike = 5
kind_index mass_closure_suspected = 6
kind_index encoding_error = 7
kind_index unexpected_mime = 8
kind_index other = 9

abbrev pub same_kind : IncidentKind → IncidentKind → Bool
same_kind a b = kind_index a == kind_index b

abbrev pub is_critical : IncidentSeverity → Bool
is_critical critical = true
is_critical _ = false

abbrev pub failed_guards : List RunGuard → List RunGuard
failed_guards guards = filter (λ g. not g.ok) guards

abbrev pub guard_anomalies : RunAnomalyInput → List RunGuard → List RunAnomaly
guard_anomalies input [] = []
guard_anomalies input (g ∷ gs) =
    record {
      kind = if any (λ (f : RunGuard). f.count_guard) (g ∷ gs) then count_collapse else other;
      severity = critical;
      evidence =
          guard_failure (map (λ (f : RunGuard). f.name) (g ∷ gs)) input.discovered_count
            input.baseline_discovered_count;
    }
    ∷ []

abbrev pub ratio_of : Option ℕ → ℕ
ratio_of none = default_surge_ratio
ratio_of (some ratio) = ratio

abbrev pub surge_anomalies : RunAnomalyInput → Option ℕ → List RunAnomaly
surge_anomalies input none = []
surge_anomalies input (some baseline) =
    let ratio = ratio_of input.surge_ratio in
    if leb min_surge_baseline baseline && ltb (baseline * ratio) input.discovered_count
    then record {
      kind = count_surge;
      severity = warning;
      evidence = surge input.discovered_count baseline ratio;
    }
      ∷ []
    else []

unfoldable pub detect_run_anomalies : RunAnomalyInput → List RunAnomaly
detect_run_anomalies input =
    guard_anomalies input (failed_guards input.guards)
    ++ surge_anomalies input input.baseline_discovered_count

abbrev pub has_origin : ParserIncident → Bool
has_origin i = origin i.evidence == run_guard_origin

-- The incidents that a healthy run resolves.
abbrev pub is_healed : String → ParserIncident → Bool
is_healed source_id i =
    i.source_id == source_id
    && not i.resolved
    && is_critical i.severity
    && (same_kind i.kind count_collapse || same_kind i.kind other)
    && has_origin i

abbrev pub resolve : ℕ → ParserIncident → ParserIncident
resolve at i = record i { resolved = true; resolved_at = some at }

-- An open run-level incident of one source and kind.
abbrev pub is_open : String → IncidentKind → ParserIncident → Bool
is_open source_id kind i =
    i.source_id == source_id && same_kind i.kind kind && not i.resolved && has_origin i

abbrev pub observation : RunAnomalyInput → RunAnomaly → ParserIncidentObservation
observation input a = record {
  source_id = input.source_id;
  crawl_run_id = input.crawl_run_id;
  detected_at = input.detected_at;
  kind = a.kind;
  severity = a.severity;
  evidence = a.evidence;
}

-- The loop over the anomalies: the incidents, and the anomalies that were recorded.
unfoldable pub record_each :
    RunAnomalyInput → List RunAnomaly → List ParserIncident → List ParserIncident × List RunAnomaly
record_each input [] incidents = (incidents, [])
record_each input (a ∷ anomalies) incidents =
    let skipped = record_each input anomalies incidents in
    let rest =
      record_each input anomalies (record_parser_incident (observation input a) incidents) in
    if any (is_open input.source_id a.kind) incidents then skipped else (rest.0, a ∷ rest.1)

abbrev pub heal : RunAnomalyInput → List ParserIncident → List ParserIncident
heal input incidents =
    if all (λ (g : RunGuard). g.ok) input.guards
    then update_where (is_healed input.source_id) (resolve input.detected_at) incidents
    else incidents

unfoldable pub record_run_anomalies :
    RunAnomalyInput → List ParserIncident → List ParserIncident × List RunAnomaly
unfolding record_each
record_run_anomalies input incidents =
    record_each input (detect_run_anomalies input) (heal input incidents)
