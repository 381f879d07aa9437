-- ===== src/Adapters/RunAnomalies/Healing.antt =====
-- A run that passes every guard, and a run that is recorded twice (src/adapters/run-anomalies.ts).
use scraplify.Base.{
  ℕ, ◌≡◌, refl, ap, ◌∙◌, Bool, true, false, ◌&&◌, ◌||◌, List, [], ◌∷◌, ◌++◌, String, string_eq,
  nat_eq, ◌==◌, all, any, arith, beq_refl, Bool-cases, inl, inr, Option, none, some, leb, ltb, ◌*◌,
  All, ◌⊎◌,
}
use scraplify.Listings.Model.{
  ParserIncident, record_parser_incident, origin, IncidentKind, count_collapse, other, critical,
}
use scraplify.Listings.Reconcile.{update_where}
use scraplify.Adapters.RunAnomalies.{
  RunGuard, RunAnomalyInput, RunAnomaly, is_open, is_healed, resolve, record_each, heal,
  record_run_anomalies, detect_run_anomalies, run_guard_origin, is_critical, failed_guards,
  same_kind, guard_anomalies, surge_anomalies, ratio_of,
}

abbrev AllOpen : RunAnomalyInput → List RunAnomaly → List ParserIncident → Type 0
AllOpen input [] xs = Unit
AllOpen input (a ∷ anomalies) xs =
    (any (is_open input.source_id a.kind) xs ≡ true) × AllOpen input anomalies xs

any-append :
    (p : ParserIncident → Bool) (xs : List ParserIncident) (i : ParserIncident)
    → any p (xs ++ i ∷ []) ≡ (any p xs || p i)
any-append p [] i = ground arith
any-append p (x ∷ xs) i = ground (arith, any-append p xs i)

-- The anomalies whose evidence a run guard stored.
abbrev FromGuards : List RunAnomaly → Type 0
FromGuards [] = Unit
FromGuards (a ∷ anomalies) = ((origin a.evidence == run_guard_origin) ≡ true) × FromGuards anomalies

-- The loop keeps an open incident open.
record_each-any :
    (input : RunAnomalyInput) (anomalies : List RunAnomaly) (xs : List ParserIncident)
    (p : ParserIncident → Bool)
    → any p xs ≡ true
    → any p (record_each input anomalies xs).0 ≡ true
unfolding record_each record_parser_incident
record_each-any input [] xs p h = h
record_each-any input (a ∷ anomalies) xs p h =
    elim (Bool-cases (any (is_open input.source_id a.kind) xs)) [
      | inl present ↦ rw present (record_each-any input anomalies xs p h)
      | inr absent ↦
          rw absent (record_each-any input anomalies _ p (rw (any-append p xs _, h) refl))
    ]

-- After the loop there is an open incident for each anomaly.
record_each-AllOpen :
    (input : RunAnomalyInput) (anomalies : List RunAnomaly) (xs : List ParserIncident)
    → FromGuards anomalies
    → AllOpen input anomalies (record_each input anomalies xs).0
unfolding record_each record_parser_incident
record_each-AllOpen input [] xs h = tt
record_each-AllOpen input (a ∷ anomalies) xs (h, hs) =
    elim (Bool-cases (any (is_open input.source_id a.kind) xs)) [
      | inl present ↦ rw present (
        record_each-any input anomalies xs (is_open input.source_id a.kind) present,
        record_each-AllOpen input anomalies xs hs,
      )
      | inr absent ↦ rw absent (
        record_each-any input anomalies _ (is_open input.source_id a.kind) (
            rw (any-append (is_open input.source_id a.kind) xs _, absent)
              (ground (arith, h, beq_refl input.source_id))),
        record_each-AllOpen input anomalies _ hs,
      )
    ]

record_each-again :
    (input : RunAnomalyInput) (anomalies : List RunAnomaly) (xs : List ParserIncident)
    → AllOpen input anomalies xs
    → record_each input anomalies xs ≡ (xs, [])
unfolding record_each record_parser_incident
record_each-again input [] xs h = refl
record_each-again input (a ∷ anomalies) xs (h, hs) = rw h (record_each-again input anomalies xs hs)

surge-FromGuards :
    (input : RunAnomalyInput) (baseline : Option ℕ) → FromGuards (surge_anomalies input baseline)
surge-FromGuards input none = tt
surge-FromGuards input (some baseline) =
    elim (Bool-cases
      (leb 100 baseline && ltb (baseline * ratio_of input.surge_ratio) input.discovered_count)) [
        | inl grown ↦ rw grown (refl, tt)
        | inr usual ↦ rw usual tt
      ]

detect-FromGuards :
    (input : RunAnomalyInput) (failed : List RunGuard)
    → FromGuards
        (guard_anomalies input failed ++ surge_anomalies input input.baseline_discovered_count)
detect-FromGuards input [] = surge-FromGuards input input.baseline_discovered_count
detect-FromGuards input (g ∷ gs) = (refl, surge-FromGuards input input.baseline_discovered_count)

-- What a healthy run resolves, and what it records.
update_where-none :
    (p : ParserIncident → Bool) (f : ParserIncident → ParserIncident) (xs : List ParserIncident)
    → any p xs ≡ false
    → update_where p f xs ≡ xs
update_where-none p f [] h = refl
update_where-none p f (x ∷ xs) h = ground (arith, update_where-none p f xs)

resolved-is_healed :
    (source : String) (at : ℕ) (xs : List ParserIncident)
    → any (is_healed source) (update_where (is_healed source) (resolve at) xs) ≡ false
resolved-is_healed source at [] = refl
resolved-is_healed source at (x ∷ xs) =
    let ih = resolved-is_healed source at xs in
    elim (Bool-cases (is_healed source x)) [
      | inl healed ↦ rw healed (ground arith)
      | inr kept ↦ rw kept (ground arith)
    ]

abbrev NotCritical : List RunAnomaly → Type 0
NotCritical [] = Unit
NotCritical (a ∷ anomalies) = (is_critical a.severity ≡ false) × NotCritical anomalies

surge-NotCritical :
    (input : RunAnomalyInput) (baseline : Option ℕ) → NotCritical (surge_anomalies input baseline)
surge-NotCritical input none = tt
surge-NotCritical input (some baseline) =
    elim (Bool-cases
      (leb 100 baseline && ltb (baseline * ratio_of input.surge_ratio) input.discovered_count)) [
        | inl grown ↦ rw grown (refl, tt)
        | inr usual ↦ rw usual tt
      ]

record_each-is_healed :
    (input : RunAnomalyInput) (anomalies : List RunAnomaly) (xs : List ParserIncident)
    → NotCritical anomalies
    → any (is_healed input.source_id) xs ≡ false
    → any (is_healed input.source_id) (record_each input anomalies xs).0 ≡ false
unfolding record_each record_parser_incident
record_each-is_healed input [] xs h e = e
record_each-is_healed input (a ∷ anomalies) xs (h, hs) e =
    elim (Bool-cases (any (is_open input.source_id a.kind) xs)) [
      | inl present ↦ rw present (record_each-is_healed input anomalies xs hs e)
      | inr absent ↦ rw absent (
          record_each-is_healed input anomalies _ hs
            (rw (any-append (is_healed input.source_id) xs _, e) (ground (arith, h))))
    ]

failed_guards-none :
    (guards : List RunGuard)
    → all (λ (g : RunGuard). g.ok) guards ≡ true
    → failed_guards guards ≡ []
failed_guards-none [] h = refl
failed_guards-none (g ∷ gs) h = ground (arith, failed_guards-none gs)

-- After a run that passed every guard, no critical guard incident of its source is open.
pub record_run_anomalies-is_healed :
    (input : RunAnomalyInput) (xs : List ParserIncident)
    → all (λ (g : RunGuard). g.ok) input.guards ≡ true
    → any (is_healed input.source_id) (record_run_anomalies input xs).0 ≡ false
unfolding record_run_anomalies detect_run_anomalies
record_run_anomalies-is_healed input xs healthy =
    rw (healthy, failed_guards-none input.guards healthy)
      (record_each-is_healed input (surge_anomalies input input.baseline_discovered_count) _
        (surge-NotCritical input input.baseline_discovered_count)
        (resolved-is_healed input.source_id input.detected_at xs))

heal-again :
    (input : RunAnomalyInput) (xs : List ParserIncident)
    → heal input (record_run_anomalies input xs).0 ≡ (record_run_anomalies input xs).0
heal-again input xs = elim (Bool-cases (all (λ (g : RunGuard). g.ok) input.guards)) [
  | inl healthy ↦ rw healthy (
      update_where-none (is_healed input.source_id) (resolve input.detected_at) _
        (record_run_anomalies-is_healed input xs healthy))
  | inr unhealthy ↦ rw unhealthy refl
]

-- A critical incident that a run guard recorded for the source, of either kind that it records.
abbrev pub IsGuardIncident : String → ParserIncident → Type 0
IsGuardIncident source_id i =
    (i.source_id ≡ source_id)
    × (i.severity ≡ critical)
    × (origin i.evidence ≡ "run_guard")
    × ((i.kind ≡ count_collapse) ⊎ (i.kind ≡ other))

healed_kind :
    (kind : IncidentKind)
    → (kind ≡ count_collapse) ⊎ (kind ≡ other)
    → (same_kind kind count_collapse || same_kind kind other) ≡ true
healed_kind kind (inl e) = rw e refl
healed_kind kind (inr e) = rw e refl

is_healed-IsGuardIncident :
    (source_id : String) (x : ParserIncident)
    → IsGuardIncident source_id x
    → x.resolved ≡ false
    → is_healed source_id x ≡ true
is_healed-IsGuardIncident source_id x (own, severe, guard, kind) unresolved =
    rw (own, beq_refl source_id, unresolved, severe, healed_kind x.kind kind, guard) refl

open_or_resolved :
    (source_id : String) (x : ParserIncident)
    → is_healed source_id x ≡ false
    → IsGuardIncident source_id x
    → x.resolved ≡ true
open_or_resolved source_id x h own = elim (Bool-cases x.resolved) [
  | inl yes_it_is ↦ yes_it_is
  | inr unresolved ↦
      let healed = is_healed-IsGuardIncident source_id x own unresolved in absurd (cc)
]

resolved-of_healed :
    (source_id : String) (xs : List ParserIncident)
    → any (is_healed source_id) xs ≡ false
    → All (λ (i : ParserIncident). IsGuardIncident source_id i → i.resolved ≡ true) xs
resolved-of_healed source_id [] h = tt
resolved-of_healed source_id (x ∷ xs) h =
    (open_or_resolved source_id x (ground arith), resolved-of_healed source_id xs (ground arith))

-- Recording the same run a second time changes no incident and records nothing, since each of its
-- anomalies has an open incident by then. After a run that passed every guard, every critical
-- incident that a run guard recorded for its source, as a collapsed count or otherwise, is resolved.
pub record_run_anomalies-again :
    (input : RunAnomalyInput) (xs : List ParserIncident)
    → let after = (record_run_anomalies input xs).0 in
      (record_run_anomalies input after ≡ (after, []))
      × (all (λ (g : RunGuard). g.ok) input.guards ≡ true
          → All
              (λ (i : ParserIncident). IsGuardIncident input.source_id i → i.resolved ≡ true)
              after)
unfolding record_run_anomalies detect_run_anomalies
record_run_anomalies-again input xs =
    let anomalies = detect_run_anomalies input in
    (
      ap (λ (ys : List ParserIncident). record_each input anomalies ys) (heal-again input xs)
          ∙ record_each-again input anomalies (record_run_anomalies input xs).0 (
              record_each-AllOpen input anomalies (heal input xs)
                (detect-FromGuards input (failed_guards input.guards))),
      (λ healthy.
          resolved-of_healed input.source_id _ (record_run_anomalies-is_healed input xs healthy)),
    )
