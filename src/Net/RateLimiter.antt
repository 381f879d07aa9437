-- ===== src/Net/RateLimiter.antt =====
-- The per-source pacing of requests (src/net/rate-limiter.ts). The closure's variables are the
-- fields of a record; a waiter is the number of its `acquire` call; `pumpTimer` is the time at
-- which the pending timer is due. `Date.now()` is an argument of each function that reads it.
pub mod Runs
pub mod Spacing
mod Tests
use scraplify.Base.{
  ℕ, suc, ◌+◌, ◌-◌, ◌*◌, ◌<◌, ◌≤◌, max, Bool, true, false, ◌||◌, Option, none, some, List, [], ◌∷◌,
  ◌++◌, ltb, leb, if◌then◌else◌, is_none,
}

pub record RateLimitConfig : Type 0 where
  pub crawl_delay_seconds : Option ℕ
  pub max_concurrency : ℕ

pub record Limiter : Type 0 where
  pub max_concurrency : ℕ
  pub min_spacing_ms : ℕ
  pub back_off_count : ℕ
  pub active : ℕ
  pub earliest_next_start : ℕ
  pub waiters : List ℕ
  pub pump_timer : Option ℕ

abbrev pub is_idle : List ℕ → Bool
is_idle [] = true
is_idle (w ∷ ws) = false

abbrev pub spacing_of : Option ℕ → ℕ
spacing_of none = 0
spacing_of (some s) = s * 1000

unfoldable pub create_rate_limiter : RateLimitConfig → Limiter
create_rate_limiter config = record {
  max_concurrency = config.max_concurrency;
  min_spacing_ms = spacing_of config.crawl_delay_seconds;
  back_off_count = 0;
  active = 0;
  earliest_next_start = 0;
  waiters = [];
  pump_timer = none;
}

-- `Math.max(0, earliestNextStart - Date.now())` is the subtraction that stops at 0.
unfoldable pub pump : ℕ → Limiter → Limiter
pump now s =
    if is_none s.pump_timer
    then if is_idle s.waiters || leb s.max_concurrency s.active
      then s
      else record s { pump_timer = some (now + (s.earliest_next_start - now)) }
    else s

abbrev pub next_waiter : List ℕ → Option ℕ
next_waiter [] = none
next_waiter (w ∷ ws) = some w

abbrev pub shift : List ℕ → List ℕ
shift [] = []
shift (w ∷ ws) = ws

-- The timer's callback: the state after it, and the waiter that it let start.
unfoldable pub fire : ℕ → Limiter → Limiter × Option ℕ
unfolding pump
fire now s =
    let t = record s { pump_timer = none } in
    if is_idle t.waiters || leb t.max_concurrency t.active
    then (t, none)
    else if ltb now t.earliest_next_start
    then (pump now t, none)
    else (
      pump now (record t { waiters = shift t.waiters; active = t.active + 1 }),
      next_waiter t.waiters,
    )

-- The caller owes one call for each request that it was let start, so `active` is not 0 here.
unfoldable pub release : ℕ → Limiter → Limiter
unfolding pump
release now s =
    pump now (record s { active = s.active - 1; earliest_next_start = now + s.min_spacing_ms })

unfoldable pub acquire : ℕ → ℕ → Limiter → Limiter
unfolding pump
acquire now waiter s = pump now (record s { waiters = s.waiters ++ waiter ∷ [] })

unfoldable pub back_off : ℕ → ℕ → Limiter → Limiter
back_off now spacing_ms s = record s {
  back_off_count = s.back_off_count + 1;
  min_spacing_ms = max s.min_spacing_ms spacing_ms;
  earliest_next_start = max s.earliest_next_start (now + spacing_ms);
}
