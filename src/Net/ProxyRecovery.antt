-- ===== src/Net/ProxyRecovery.antt =====
-- Waiting for a proxy that went away (src/net/proxy-recovery.ts). The clock, the probe and the
-- inner fetcher are outside that file, so what they do is given: a request's outcome, and for each
-- round of the wait the time that its sleep and probe took and whether the proxy answered. A list
-- of rounds that runs out is a wait that still goes on. Logging is left out.
pub mod Waits
mod Tests
use scraplify.Base.{
  ℕ, ◌+◌, ◌-◌, Bool, true, false, not, ◌&&◌, ◌||◌, Option, none, some, List, [], ◌∷◌, ltb,
  if◌then◌else◌,
}

pub record ProxyRecoveryOptions : Type 0 where
  pub max_wait_ms : ℕ
  pub wait_until : Option ℕ

pub record Round : Type 0 where
  pub took : ℕ
  pub answers : Bool

-- The errors of src/net/http-fetcher.ts that are refusals of our own, and any other.
pub data FetchError : Type 0 where
  url_not_allowed ssrf_blocked too_many_redirects response_too_large : FetchError
  transport : FetchError

abbrev pub is_local_refusal : FetchError → Bool
is_local_refusal transport = false
is_local_refusal _ = true

pub data Wait : Type 0 where
  waiting : Wait
  back : (waited_ms now : ℕ) → Wait
  unreachable : (waited_ms now : ℕ) → Wait

abbrev pub is_before : ℕ → Option ℕ → Bool
is_before now none = true
is_before now (some t) = ltb now t

-- `waitLeft() > 0`.
abbrev pub may_wait : ProxyRecoveryOptions → ℕ → ℕ → Bool
may_wait o spent now = ltb spent o.max_wait_ms && is_before now o.wait_until

-- The loop of `waitForProxy`, begun at `started_at` with `waited_ms` already waited in this run.
unfoldable pub wait_rounds : ProxyRecoveryOptions → ℕ → ℕ → ℕ → List Round → Wait
wait_rounds o waited_ms started_at now [] =
    if may_wait o (waited_ms + (now - started_at)) now
    then waiting
    else unreachable (waited_ms + (now - started_at)) now
wait_rounds o waited_ms started_at now (r ∷ rounds) =
    let later = wait_rounds o waited_ms started_at (now + r.took) rounds in
    if may_wait o (waited_ms + (now - started_at)) now
    then if r.answers then back (waited_ms + (now + r.took - started_at)) (now + r.took) else later
    else unreachable (waited_ms + (now - started_at)) now

unfoldable pub wait_for_proxy : ProxyRecoveryOptions → ℕ → ℕ → List Round → Wait
unfolding wait_rounds
wait_for_proxy o waited_ms now rounds = wait_rounds o waited_ms now now rounds

pub data Attempt {ℓ} (A : Type ℓ) : Type ℓ where
  answered : A → Attempt A
  failed : FetchError → Attempt A

pub data Fetched {ℓ} (A : Type ℓ) : Type ℓ where
  result : Attempt A → Fetched A
  proxy_unreachable : Fetched A
  not_yet : Fetched A

-- The time waited in this run, and the clock.
pub record RunClock : Type 0 where
  pub waited_ms : ℕ
  pub now : ℕ

abbrev pub after_wait {ℓ} : {A : Type ℓ} → RunClock → Attempt A → Wait → Fetched A × RunClock
after_wait clock again waiting = (not_yet, clock)
after_wait clock again (back waited now) = (result again, record { waited_ms = waited; now = now })
after_wait clock again (unreachable waited now) =
    (proxy_unreachable, record { waited_ms = waited; now = now })

-- `fetch`, of a request whose first attempt ended at `now`, and the clock after it. The time that the
-- requests themselves take passes before and after it.
unfoldable pub fetch {ℓ} :
    {A : Type ℓ}
    → ProxyRecoveryOptions
    → ℕ
    → ℕ
    → Attempt A
    → Bool
    → List Round
    → Attempt A
    → Fetched A × RunClock
unfolding wait_for_proxy
fetch o waited_ms now (answered a) probe_answers rounds again =
    (result (answered a), record { waited_ms = waited_ms; now = now })
fetch o waited_ms now (failed e) probe_answers rounds again =
    if is_local_refusal e || probe_answers
    then (result (failed e), record { waited_ms = waited_ms; now = now })
    else after_wait (record { waited_ms = waited_ms; now = now }) again
        (wait_for_proxy o waited_ms now rounds)
