-- ===== src/Net/RateLimiter/Tests.antt =====
-- Two requests, one at a time, three seconds apart.
use scraplify.Base.{◌≡◌, ◌≤◌, refl, none, some, arith, All}
use scraplify.Net.RateLimiter.{
  RateLimitConfig, create_rate_limiter, fire, release, acquire, back_off,
}
use scraplify.Net.RateLimiter.Runs.{
  World, acquires, fires, releases, fresh, happen, Run, start, event,
}
use scraplify.Net.RateLimiter.Spacing.{start_spaced}

abbrev config : RateLimitConfig
config = record { crawl_delay_seconds = some 3; max_concurrency = 1 }

abbrev world : World
unfolding happen acquire fire release back_off create_rate_limiter
world =
    happen (happen (happen (happen (fresh config) 5 (acquires 1)) 5 (acquires 2)) 6 fires) 100
      releases

run : Run config world
unfolding happen acquire fire release back_off create_rate_limiter
run =
    event
      (event (event (event start 5 (acquires 1) (omega arith)) 5 (acquires 2) (omega arith)) 6 fires
        (omega arith, refl))
      100 releases (omega arith, omega arith)

too_soon : (fire 3099 world.limiter).1 ≡ none
unfolding happen acquire fire release back_off create_rate_limiter
too_soon = refl

in_time : (fire 3100 world.limiter).1 ≡ some 2
unfolding happen acquire fire release back_off create_rate_limiter
in_time = refl

start_spaced_example : All (λ t. t ≤ 3100) world.not_before
unfolding happen acquire fire release back_off create_rate_limiter
start_spaced_example = start_spaced config world 3100 2 run (omega arith) in_time
