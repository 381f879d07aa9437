-- ===== src/Net/RateLimiter/Runs.antt =====
-- The runs of a limiter (src/net/rate-limiter.ts): its calls and timers in any order, with the
-- history that the limiter itself does not keep.
use scraplify.Base.{
  ℕ, ◌+◌, ◌<◌, ◌≤◌, ◌≡◌, max, true, false, ◌||◌, Option, none, some, List, [], ◌∷◌, ◌++◌, leb,
  is_none, arith,
}
use scraplify.Net.RateLimiter.{
  RateLimitConfig, Limiter, create_rate_limiter, pump, fire, release, acquire, back_off, is_idle,
}

-- A limiter with the time, the `acquire` calls and the starts so far, in order, and the instants
-- before which no further request may start: a release plus the spacing of that moment, and the
-- time that a push-back asked for.
pub record World : Type 0 where
  pub limiter : Limiter
  pub clock : ℕ
  pub acquired : List ℕ
  pub started : List ℕ
  pub not_before : List ℕ

abbrev pub start_list : Option ℕ → List ℕ
start_list none = []
start_list (some w) = w ∷ []

abbrev pub fresh : RateLimitConfig → World
fresh config = record {
  limiter = create_rate_limiter config;
  clock = 0;
  acquired = [];
  started = [];
  not_before = [];
}

-- One event, at a time no earlier than the last. A timer fires only while it is pending, and a
-- release answers a start.
pub data Event : Type 0 where
  acquires : (waiter : ℕ) → Event
  fires releases : Event
  backs_off : (spacing_ms : ℕ) → Event

abbrev pub Enabled : World → ℕ → Event → Type 0
Enabled w now (acquires waiter) = w.clock ≤ now
Enabled w now fires = (w.clock ≤ now) × (is_none w.limiter.pump_timer ≡ false)
Enabled w now releases = (w.clock ≤ now) × (0 < w.limiter.active)
Enabled w now (backs_off spacing_ms) = w.clock ≤ now

unfoldable pub happen : World → ℕ → Event → World
happen w now (acquires waiter) = record w {
  limiter = acquire now waiter w.limiter;
  clock = now;
  acquired = w.acquired ++ waiter ∷ [];
}
happen w now fires =
    let (s, next) = fire now w.limiter in
    record w { limiter = s; clock = now; started = w.started ++ start_list next }
happen w now releases = record w {
  limiter = release now w.limiter;
  clock = now;
  not_before = (now + w.limiter.min_spacing_ms) ∷ w.not_before;
}
happen w now (backs_off spacing_ms) = record w {
  limiter = back_off now spacing_ms w.limiter;
  clock = now;
  not_before = (now + spacing_ms) ∷ w.not_before;
}

pub data Run (config : RateLimitConfig) : World → Type 0 where
  start : Run config (fresh config)
  event :
      {w : World}
      → Run config w
      → (now : ℕ) → (e : Event) → Enabled w now e
      → Run config (happen w now e)

-- What holds between two events: no more requests are in flight than allowed; while a request
-- waits and could go, a timer is pending; and starts come in the order of the calls.
pub record IsSound (config : RateLimitConfig) (w : World) : Type 0 where
  pub limit : w.limiter.max_concurrency ≡ config.max_concurrency
  pub capped : w.limiter.active ≤ w.limiter.max_concurrency
  pub awake :
      is_none w.limiter.pump_timer ≡ true
      → (is_idle w.limiter.waiters || leb w.limiter.max_concurrency w.limiter.active) ≡ true
  pub in_order : w.started ++ w.limiter.waiters ≡ w.acquired

-- What `pump` leaves alone, and that it leaves a timer pending where one is needed.
pub record Pumped (s t : Limiter) : Type 0 where
  pub max_concurrency : t.max_concurrency ≡ s.max_concurrency
  pub min_spacing_ms : t.min_spacing_ms ≡ s.min_spacing_ms
  pub active : t.active ≡ s.active
  pub earliest_next_start : t.earliest_next_start ≡ s.earliest_next_start
  pub waiters : t.waiters ≡ s.waiters
  pub awake :
      is_none t.pump_timer ≡ true → (is_idle t.waiters || leb t.max_concurrency t.active) ≡ true

pub pump-Pumped : (now : ℕ) (s : Limiter) → Pumped s (pump now s)
unfolding pump
pump-Pumped now s = ground arith

-- The firing timer either starts nothing, or the first waiter, where there is room and the time
-- has come.
pub record Fired (now : ℕ) (s t : Limiter) (next : Option ℕ) : Type 0 where
  pub max_concurrency : t.max_concurrency ≡ s.max_concurrency
  pub min_spacing_ms : t.min_spacing_ms ≡ s.min_spacing_ms
  pub earliest_next_start : t.earliest_next_start ≡ s.earliest_next_start
  pub waiters : start_list next ++ t.waiters ≡ s.waiters
  pub active : t.active ≤ max s.active s.max_concurrency
  pub in_time : is_none next ≡ false → s.earliest_next_start ≤ now
  pub awake :
      is_none t.pump_timer ≡ true → (is_idle t.waiters || leb t.max_concurrency t.active) ≡ true

pub fire-Fired : (now : ℕ) (s : Limiter) → Fired now s (fire now s).0 (fire now s).1
unfolding fire
fire-Fired now s = ground arith
