-- ===== src/Net/ProxyRecovery/Tests.antt =====
-- Two outages of a run that may wait 100 ms in all.
use scraplify.Base.{ℕ, ◌≡◌, ◌≢◌, ◌≤◌, ◌+◌, refl, true, false, none, List, [], ◌∷◌, arith}
use scraplify.Net.ProxyRecovery.{
  ProxyRecoveryOptions, Round, answered, failed, transport, ssrf_blocked, result, proxy_unreachable,
  not_yet, RunClock, fetch,
}
use scraplify.Net.ProxyRecovery.Waits.{Run, begun, passed, requested, run_waited, fetch-ne-not_yet}

abbrev options : ProxyRecoveryOptions
options = record { max_wait_ms = 100; wait_until = none }

abbrev polls : List Round
polls =
    record { took = 40; answers = false }
    ∷ record { took = 40; answers = true }
    ∷ record { took = 40; answers = false }
    ∷ []

abbrev at : (waited_ms now : ℕ) → RunClock
at waited_ms now = record { waited_ms = waited_ms; now = now }

outages :
    (fetch {A = ℕ} options 0 7 (failed transport) false polls (answered 200)
      ≡ (result (answered 200), at 80 87))
    × (fetch {A = ℕ} options 80 7 (failed transport) false polls (answered 200)
        ≡ (proxy_unreachable, at 120 47))
    × (fetch {A = ℕ} options 0 7 (failed ssrf_blocked) false polls (answered 200)
        ≡ (result (failed ssrf_blocked), at 0 7))
unfolding fetch
outages = (refl, refl, refl)

first_one :
    fetch {A = ℕ} options 0 7 (failed transport) false polls (answered 200)
    ≡ (result (answered 200), at 80 87)
unfolding fetch
first_one = refl

second_one :
    fetch {A = ℕ} options 80 1000 (failed transport) false polls (answered 200)
    ≡ (proxy_unreachable, at 120 1040)
unfolding fetch
second_one = refl

-- The second outage begins with 80 ms waited, and is given up after one more poll.
both : Run ℕ options 40 (at 120 1040) 120
both =
    requested (failed transport) false polls (answered 200)
      (passed 1000
        (requested (failed transport) false polls (answered 200) (begun 7) (omega arith) first_one
          (λ e. cc))
        (omega arith))
      (omega arith) second_one (λ e. cc)

run_waited_example : 120 ≤ 100 + 40
run_waited_example = run_waited options 40 (at 120 1040) 120 both

abbrev brief : ProxyRecoveryOptions
brief = record { max_wait_ms = 3; wait_until = none }

fetch-ne-not_yet_example :
    (fetch {A = ℕ} brief 0 7 (failed transport) false polls (answered 200)).0 ≢ not_yet
fetch-ne-not_yet_example =
    fetch-ne-not_yet brief 0 7 (failed transport) false polls (answered 200) (omega arith)
      (omega arith)
