-- ===== src/Net/RateLimiter/Spacing.antt =====
-- The distance between requests that src/net/rate-limiter.ts keeps.
use scraplify.Base.{ℕ, ◌+◌, ◌-◌, ◌≤◌, ◌≡◌, some, List, [], ◌∷◌, ◌++◌, arith, All}
use scraplify.Net.RateLimiter.{
  RateLimitConfig, create_rate_limiter, fire, release, acquire, back_off,
}
use scraplify.Net.RateLimiter.Runs.{
  World, Event, acquires, fires, releases, backs_off, Enabled, happen, Run, start, event,
  pump-Pumped, fire-Fired,
}

-- `earliestNextStart` is no earlier than anything that was demanded, and at most one spacing ahead.
record IsSpaced (w : World) : Type 0 where
  kept : All (λ t. t ≤ w.limiter.earliest_next_start) w.not_before
  near : w.limiter.earliest_next_start ≤ w.clock + w.limiter.min_spacing_ms

All-le : (a b : ℕ) (ts : List ℕ) → a ≤ b → All (λ t. t ≤ a) ts → All (λ t. t ≤ b) ts
All-le a b [] h k = tt
All-le a b (t ∷ ts) h (k, ks) = (omega arith, All-le a b ts h ks)

happen-IsSpaced :
    (w : World) (now : ℕ) (e : Event) → IsSpaced w → Enabled w now e → IsSpaced (happen w now e)
unfolding happen acquire release back_off
happen-IsSpaced w now (acquires waiter) s h =
    let p = pump-Pumped now (record w.limiter { waiters = w.limiter.waiters ++ waiter ∷ [] }) in
    record { kept = All-le _ _ w.not_before (omega arith) s.kept; near = omega (arith, s.near) }
happen-IsSpaced w now fires s h =
    let f = fire-Fired now w.limiter in
    record { kept = All-le _ _ w.not_before (omega arith) s.kept; near = omega (arith, s.near) }
happen-IsSpaced w now releases s h =
    let p = pump-Pumped now (record w.limiter {
      active = w.limiter.active - 1;
      earliest_next_start = now + w.limiter.min_spacing_ms;
    }) in
    record {
      kept = (omega arith, All-le _ _ w.not_before (omega (arith, s.near)) s.kept);
      near = omega (arith, s.near);
    }
happen-IsSpaced w now (backs_off spacing_ms) s h = record {
  kept = (omega arith, All-le _ _ w.not_before (omega arith) s.kept);
  near = omega (arith, s.near);
}

run-IsSpaced : (config : RateLimitConfig) (w : World) → Run config w → IsSpaced w
unfolding create_rate_limiter
run-IsSpaced config w start = record { kept = tt; near = omega arith }
run-IsSpaced config w (event {w = v} r now e h) =
    happen-IsSpaced v now e (run-IsSpaced config v r) h

-- In every run in which the clock does not go back, a request starts no earlier than the spacing
-- of that moment after every release before it, and than every pause that a push-back asked for.
pub start_spaced :
    (config : RateLimitConfig) (w : World) (now waiter : ℕ)
    → Run config w
    → w.clock ≤ now
    → (fire now w.limiter).1 ≡ some waiter
    → All (λ t. t ≤ now) w.not_before
start_spaced config w now waiter r h started =
    let f = fire-Fired now w.limiter in
    let in_time : w.limiter.earliest_next_start ≤ now = f.in_time (ground arith) in
    All-le _ _ w.not_before in_time (run-IsSpaced config w r).kept
