-- ===== src/Adapters/RunAnomalies/Tests.antt =====
-- A run that lost a results page, the same run again, and the complete run after it.
use scraplify.Base.{
  ℕ, ◌≡◌, refl, Bool, true, false, none, some, List, [], ◌∷◌, string_eq, all, All, length, arith,
}
use scraplify.Listings.Model.{ParserIncident, record_parser_incident}
use scraplify.Adapters.RunAnomalies.{
  RunGuard, RunAnomalyInput, record_run_anomalies, detect_run_anomalies,
}
use scraplify.Adapters.RunAnomalies.OpenIncidents.{IsSingle, record_run_anomalies-IsSingle}
use scraplify.Adapters.RunAnomalies.Healing.{IsGuardIncident, record_run_anomalies-again}

abbrev run : Bool → ℕ → RunAnomalyInput
run complete discovered = record {
  source_id = "jobs-ge";
  crawl_run_id = some "r1";
  detected_at = 100;
  guards = record { name = "discoveryComplete"; ok = complete; count_guard = true } ∷ [];
  discovered_count = discovered;
  baseline_discovered_count = some 100;
  surge_ratio = none;
}

abbrev doubted : List ParserIncident
unfolding record_run_anomalies detect_run_anomalies record_parser_incident
doubted = (record_run_anomalies (run false 40) []).0

one_incident : length doubted ≡ 1
unfolding record_run_anomalies detect_run_anomalies record_parser_incident
one_incident = refl

-- A complete run that found far more resolves it and warns.
surge_after : length (record_run_anomalies (run true 201) doubted).1 ≡ 1
unfolding record_run_anomalies detect_run_anomalies record_parser_incident
surge_after = refl

record_run_anomalies-IsSingle_example : IsSingle (record_run_anomalies (run false 40) []).0
record_run_anomalies-IsSingle_example =
    record_run_anomalies-IsSingle (run false 40) [] (λ s k. omega arith)

record_run_anomalies-again_example :
    let after = (record_run_anomalies (run true 201) doubted).0 in
    (record_run_anomalies (run true 201) after ≡ (after, []))
    × (all (λ (g : RunGuard). g.ok) (run true 201).guards ≡ true
        → All (λ (i : ParserIncident). IsGuardIncident "jobs-ge" i → i.resolved ≡ true) after)
record_run_anomalies-again_example = record_run_anomalies-again (run true 201) doubted
