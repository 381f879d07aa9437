-- ===== src/Adapters/RunAnomalies/OpenIncidents.antt =====
-- Open run-level incidents do not pile up (src/adapters/run-anomalies.ts).
use scraplify.Base.{
  ℕ, ◌+◌, ◌≤◌, ◌≡◌, refl, sym, true, false, List, [], ◌∷◌, ◌++◌, String, string_eq, nat_eq,
  if◌then◌else◌, length, filter, all, any, arith, eq_of_beq, Bool-cases, inl, inr, ◌⊎◌,
}
use scraplify.Listings.Model.{IncidentKind, ParserIncident, record_parser_incident}
use scraplify.Listings.Reconcile.{update_where}
use scraplify.Adapters.RunAnomalies.{
  RunGuard, RunAnomalyInput, RunAnomaly, kind_index, is_open, is_healed, resolve, record_each, heal,
  record_run_anomalies, detect_run_anomalies,
}

abbrev pub open_count : String → IncidentKind → List ParserIncident → ℕ
open_count source_id kind incidents = length (filter (is_open source_id kind) incidents)

-- At most one open run-level incident of each source and kind.
abbrev pub IsSingle : List ParserIncident → Type 0
IsSingle incidents =
    (source_id : String) → (kind : IncidentKind) → open_count source_id kind incidents ≤ 1

open_count-append :
    (s : String) (k : IncidentKind) (xs : List ParserIncident) (i : ParserIncident)
    → open_count s k (xs ++ i ∷ []) ≡ open_count s k xs + (if is_open s k i then 1 else 0)
open_count-append s k [] i = ground arith
open_count-append s k (x ∷ xs) i = ground (arith, open_count-append s k xs i)

open_count-none :
    (s t : String) (k m : IncidentKind) (xs : List ParserIncident)
    → s ≡ t
    → kind_index k ≡ kind_index m
    → any (is_open t m) xs ≡ false
    → open_count s k xs ≡ 0
open_count-none s t k m [] e f h = refl
open_count-none s t k m (x ∷ xs) e f h = ground (arith, e, f, open_count-none s t k m xs e f)

open_count-heal :
    (s source : String) (k : IncidentKind) (at : ℕ) (xs : List ParserIncident)
    → open_count s k (update_where (is_healed source) (resolve at) xs) ≤ open_count s k xs
open_count-heal s source k at [] = omega arith
open_count-heal s source k at (x ∷ xs) =
    let ih = open_count-heal s source k at xs in
    elim (Bool-cases (is_healed source x)) [
      | inl healed ↦ rw healed (ground arith)
      | inr kept ↦ rw kept (ground arith)
    ]

-- A new incident beside the old ones, none of which is open for the same source and kind.
append-IsSingle :
    (i : ParserIncident) (xs : List ParserIncident)
    → any (is_open i.source_id i.kind) xs ≡ false
    → IsSingle xs
    → IsSingle (xs ++ i ∷ [])
append-IsSingle i xs absent h s k = elim (Bool-cases (is_open s k i)) [
  | inl mine ↦
      let source : s ≡ i.source_id = sym (eq_of_beq i.source_id s (ground arith)) in
      let kind : kind_index k ≡ kind_index i.kind = ground arith in
      ground (
        arith,
        open_count-append s k xs i,
        open_count-none s i.source_id k i.kind xs source kind absent,
      )
  | inr another ↦ ground (arith, open_count-append s k xs i, h s k)
]

record_each-IsSingle :
    (input : RunAnomalyInput) (anomalies : List RunAnomaly) (xs : List ParserIncident)
    → IsSingle xs
    → IsSingle (record_each input anomalies xs).0
unfolding record_each record_parser_incident
record_each-IsSingle input [] xs h = h
record_each-IsSingle input (a ∷ anomalies) xs h =
    elim (Bool-cases (any (is_open input.source_id a.kind) xs)) [
      | inl present ↦ rw present (record_each-IsSingle input anomalies xs h)
      | inr absent ↦
          rw absent (record_each-IsSingle input anomalies _ (append-IsSingle _ xs absent h))
    ]

-- If there is at most one open run-level incident of each source and kind, then so there is after
-- a run of any source has recorded its anomalies.
pub record_run_anomalies-IsSingle :
    (input : RunAnomalyInput) (xs : List ParserIncident)
    → IsSingle xs
    → IsSingle (record_run_anomalies input xs).0
unfolding record_run_anomalies
record_run_anomalies-IsSingle input xs h =
    record_each-IsSingle input (detect_run_anomalies input) (heal input xs)
      (λ s k. heal-le s k (Bool-cases (all (λ (g : RunGuard). g.ok) input.guards)))
  where
    heal-le :
        (s : String) (k : IncidentKind)
        → (all (λ (g : RunGuard). g.ok) input.guards ≡ true)
          ⊎ (all (λ (g : RunGuard). g.ok) input.guards ≡ false)
        → open_count s k (heal input xs) ≤ 1
    heal-le s k (inl healthy) =
        rw healthy (omega (arith, open_count-heal s input.source_id k input.detected_at xs, h s k))
    heal-le s k (inr unhealthy) = rw unhealthy (h s k)
