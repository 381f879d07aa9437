-- ===== src/Net/ProxyRecovery/Waits.antt =====
-- How long src/net/proxy-recovery.ts waits, and that a wait ends.
use scraplify.Base.{
  ℕ, ◌+◌, ◌-◌, ◌<◌, ◌≤◌, ◌≡◌, ◌≢◌, refl, subst, max, Bool, ◌||◌, List, [], ◌∷◌, arith, All, length,
  Bool-cases, inl, inr,
}
use scraplify.Net.ProxyRecovery.{
  ProxyRecoveryOptions, Round, Wait, waiting, back, unreachable, may_wait, wait_rounds, Attempt,
  answered, failed, Fetched, not_yet, RunClock, fetch, is_local_refusal, after_wait,
}

-- The time waited in the run, after a wait.
abbrev waited_after : ℕ → Wait → ℕ
waited_after w waiting = w
waited_after w (back waited now) = waited
waited_after w (unreachable waited now) = waited

module _ (o : ProxyRecoveryOptions) (step : ℕ) where
  -- A wait that may begin a round has at most one round more than its allowance behind it.
  wait_rounds-le :
      (waited started_at now : ℕ) (rounds : List Round)
      → started_at ≤ now
      → All (λ (r : Round). r.took ≤ step) rounds
      → waited + (now - started_at) ≤ max waited (o.max_wait_ms + step)
      → waited_after waited (wait_rounds o waited started_at now rounds)
        ≤ max waited (o.max_wait_ms + step)
  unfolding wait_rounds
  wait_rounds-le waited started_at now [] le short h = ground arith
  wait_rounds-le waited started_at now (r ∷ rounds) le (s, ss) h =
      elim (Bool-cases (may_wait o (waited + (now - started_at)) now)) [
        | inr no_more ↦ rw no_more h
        | inl more ↦
            let here : waited + (now - started_at) < o.max_wait_ms = ground arith in
            elim (Bool-cases r.answers) [
              | inl yes_it_does ↦ rw (more, yes_it_does) (omega arith)
              | inr silent ↦
                  rw (more, silent)
                    (wait_rounds-le waited started_at (now + r.took) rounds (omega arith) ss
                      (omega arith))
            ]
      ]

  -- A wait is over after more rounds than milliseconds were left.
  wait_rounds-ne-waiting :
      (waited started_at now : ℕ) (rounds : List Round)
      → started_at ≤ now
      → All (λ (r : Round). 0 < r.took) rounds
      → o.max_wait_ms ≤ waited + (now - started_at) + length rounds
      → wait_rounds o waited started_at now rounds ≢ waiting
  unfolding wait_rounds
  wait_rounds-ne-waiting waited started_at now [] le long h = ground arith
  wait_rounds-ne-waiting waited started_at now (r ∷ rounds) le (l, ls) h = ground (
    arith,
    wait_rounds-ne-waiting waited started_at (now + r.took) rounds (omega arith) ls (omega arith),
  )

-- A wait that ends tells the time waited before it and the time that passed on the clock.
abbrev IsExact : ℕ → ℕ → Wait → Type 0
IsExact waited started_at waiting = Unit
IsExact waited started_at (back t now) = (started_at ≤ now) × (t ≡ waited + (now - started_at))
IsExact waited started_at (unreachable t now) =
    (started_at ≤ now) × (t ≡ waited + (now - started_at))

wait_rounds-IsExact :
    (o : ProxyRecoveryOptions) (waited started_at now : ℕ) (rounds : List Round)
    → started_at ≤ now
    → IsExact waited started_at (wait_rounds o waited started_at now rounds)
unfolding wait_rounds
wait_rounds-IsExact o waited started_at now [] le =
    elim (Bool-cases (may_wait o (waited + (now - started_at)) now)) [
      | inl more ↦ rw more tt
      | inr no_more ↦ rw no_more (le, refl)
    ]
wait_rounds-IsExact o waited started_at now (r ∷ rounds) le =
    elim (Bool-cases (may_wait o (waited + (now - started_at)) now)) [
      | inr no_more ↦ rw no_more (le, refl)
      | inl more ↦ elim (Bool-cases r.answers) [
        | inl yes_it_does ↦ rw (more, yes_it_does) (omega arith, refl)
        | inr silent ↦
            rw (more, silent)
              (wait_rounds-IsExact o waited started_at (now + r.took) rounds (omega arith))
      ]
    ]

waiting_of_not_yet {ℓ} :
    {A : Type ℓ} (clock : RunClock) (again : Attempt A) (w : Wait)
    → (after_wait clock again w).0 ≡ not_yet
    → w ≡ waiting
waiting_of_not_yet clock again waiting h = refl
waiting_of_not_yet clock again (back t now) h = cc
waiting_of_not_yet clock again (unreachable t now) h = cc

-- A run of requests that all end, with the time that its waits took on the clock. Each request finds
-- the time waited that the one before it left.
pub data Run {ℓ} (A : Type ℓ) (o : ProxyRecoveryOptions) (step : ℕ) : RunClock → ℕ → Type ℓ where
  begun : (now : ℕ) → Run A o step (record { waited_ms = 0; now = now }) 0
  passed :
      {clock : RunClock} {total : ℕ}
      → (now : ℕ) → Run A o step clock total
      → clock.now ≤ now
      → Run A o step (record clock { now = now }) total
  requested :
      {clock clock' : RunClock} {total : ℕ} {outcome : Fetched A}
      → (first : Attempt A) → (probe_answers : Bool) → (rounds : List Round) → (again : Attempt A)
      → Run A o step clock total
      → All (λ (r : Round). r.took ≤ step) rounds
      → fetch o clock.waited_ms clock.now first probe_answers rounds again ≡ (outcome, clock')
      → outcome ≢ not_yet
      → Run A o step clock' (total + (clock'.now - clock.now))

-- What a request does to the clock, when it ends.
abbrev IsTimed : ProxyRecoveryOptions → ℕ → RunClock → RunClock → Type 0
IsTimed o step clock clock' =
    (clock'.waited_ms ≡ clock.waited_ms + (clock'.now - clock.now))
    × (clock'.waited_ms ≤ max clock.waited_ms (o.max_wait_ms + step))

after_wait-IsTimed {ℓ} :
    {A : Type ℓ} (o : ProxyRecoveryOptions) (step : ℕ) (clock : RunClock) (again : Attempt A)
    (w : Wait)
    → IsExact clock.waited_ms clock.now w
    → waited_after clock.waited_ms w ≤ max clock.waited_ms (o.max_wait_ms + step)
    → IsTimed o step clock (after_wait clock again w).1
after_wait-IsTimed o step clock again waiting e le = (omega arith, omega arith)
after_wait-IsTimed o step clock again (back t now) (later, e) le = (e, le)
after_wait-IsTimed o step clock again (unreachable t now) (later, e) le = (e, le)

fetch-IsTimed {ℓ} :
    {A : Type ℓ} (o : ProxyRecoveryOptions) (step : ℕ) (clock : RunClock) (first : Attempt A)
    (probe_answers : Bool) (rounds : List Round) (again : Attempt A)
    → All (λ (r : Round). r.took ≤ step) rounds
    → IsTimed o step clock (fetch o clock.waited_ms clock.now first probe_answers rounds again).1
unfolding fetch
fetch-IsTimed o step clock (answered a) probe_answers rounds again short =
    (omega arith, omega arith)
fetch-IsTimed o step clock (failed e) probe_answers rounds again short =
    elim (Bool-cases (is_local_refusal e || probe_answers)) [
      | inl own ↦ rw own (omega arith, omega arith)
      | inr proxy ↦ rw proxy (
          after_wait-IsTimed o step clock again
            (wait_rounds o clock.waited_ms clock.now clock.now rounds)
            (wait_rounds-IsExact o clock.waited_ms clock.now clock.now rounds (omega arith))
            (wait_rounds-le o step clock.waited_ms clock.now clock.now rounds (omega arith) short
              (omega arith)))
    ]

Run-counted {ℓ} :
    {A : Type ℓ} (o : ProxyRecoveryOptions) (step : ℕ) (clock : RunClock) (total : ℕ)
    → Run A o step clock total
    → (clock.waited_ms ≡ total) × (total ≤ o.max_wait_ms + step)
Run-counted o step _ _ (begun now) = (refl, omega arith)
Run-counted o step _ _ (passed now run le) = Run-counted o step _ _ run
Run-counted o step _ _
      (requested {clock} {clock'} {total} first probe_answers rounds again run short ran ended) =
    let (counter, bounded) = Run-counted o step clock total run in
    let (exact, le) =
      subst (λ (r : Fetched _ × RunClock). IsTimed o step clock r.1) ran
        (fetch-IsTimed o step clock first probe_answers rounds again short) in
    (omega arith, omega arith)

-- If a sleep and its probe take at most `step`, the waits of a run take at most its allowance and one
-- `step` more on the clock, all of its requests together.
pub run_waited {ℓ} :
    {A : Type ℓ} (o : ProxyRecoveryOptions) (step : ℕ) (clock : RunClock) (total : ℕ)
    → Run A o step clock total
    → total ≤ o.max_wait_ms + step
run_waited o step clock total run = (Run-counted o step clock total run).1

-- If every round takes some time, `max_wait_ms` of them are enough: the request then returns or
-- throws, whatever the probes say.
pub fetch-ne-not_yet {ℓ} :
    {A : Type ℓ} (o : ProxyRecoveryOptions) (waited_ms now : ℕ) (first : Attempt A)
    (probe_answers : Bool) (rounds : List Round) (again : Attempt A)
    → All (λ (r : Round). 0 < r.took) rounds
    → o.max_wait_ms ≤ length rounds
    → (fetch o waited_ms now first probe_answers rounds again).0 ≢ not_yet
unfolding fetch
fetch-ne-not_yet o waited_ms now (answered a) probe_answers rounds again long h = λ e. cc
fetch-ne-not_yet o waited_ms now (failed e) probe_answers rounds again long h =
    elim (Bool-cases (is_local_refusal e || probe_answers)) [
      | inl own ↦ rw own (λ q. cc)
      | inr proxy ↦ rw proxy (λ q.
          wait_rounds-ne-waiting o 0 waited_ms now now rounds (omega arith) long (omega arith)
            (waiting_of_not_yet _ again (wait_rounds o waited_ms now now rounds) q))
    ]
