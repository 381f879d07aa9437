-- ===== src/Hermes/ProxyWatch.antt =====
-- Which outage of a source's proxy is told (src/hermes/proxy-watch.ts, `nextProxyWatch`). Instants
-- are milliseconds; the file that keeps the state between two checks is left out.
pub mod History
mod Tests
use scraplify.Base.{
  ℕ, ◌+◌, ◌-◌, ◌*◌, ◌/◌, Bool, true, false, ◌||◌, Option, none, some, ltb, if◌then◌else◌, get_or,
}

abbrev pub down_after_ms : ℕ
down_after_ms = 10 * 60 * 1000

pub data Reported : Type 0 where
  up down : Reported

pub record ProxyWatchState : Type 0 where
  pub reported : Reported
  pub failing_since : Option ℕ

pub record ProxyCheck : Type 0 where
  pub answers : Bool
  pub tunnel : Bool

pub record ProxyChange : Type 0 where
  pub state : Reported
  pub since : ℕ
  pub tunnel : Bool
  pub down_minutes : Option ℕ

abbrev pub initial_proxy_watch_state : ProxyWatchState
initial_proxy_watch_state = record { reported = up; failing_since = none }

-- `Math.max(0, Math.round((now - since) / 60_000))`: below `since` the difference stops at 0.
abbrev pub down_minutes : ℕ → Option ℕ → Option ℕ
down_minutes now none = none
down_minutes now (some since) = some ((now - since + 30000) / 60000)

-- A check that passed.
unfoldable pub after_answer :
    ProxyWatchState → Bool → ℕ → Reported → ProxyWatchState × Option ProxyChange
after_answer state tunnel now up = (initial_proxy_watch_state, none)
after_answer state tunnel now down = (
  initial_proxy_watch_state,
  some (record {
    state = up;
    since = now;
    tunnel = tunnel;
    down_minutes = down_minutes now state.failing_since;
  }),
)

abbrev pub is_down : Reported → Bool
is_down up = false
is_down down = true

-- A check that failed: nothing is told in the first ten minutes, nor a second time.
unfoldable pub after_failure : ProxyWatchState → Bool → ℕ → ℕ → ProxyWatchState × Option ProxyChange
after_failure state tunnel now failing_since =
    if is_down state.reported || ltb (now - failing_since) down_after_ms
    then (record { reported = state.reported; failing_since = some failing_since }, none)
    else (
      record { reported = down; failing_since = some failing_since },
      some (record { state = down; since = failing_since; tunnel = tunnel; down_minutes = none }),
    )

unfoldable pub next_proxy_watch :
    ProxyWatchState → ProxyCheck → ℕ → ProxyWatchState × Option ProxyChange
unfolding after_answer after_failure
next_proxy_watch state check now =
    if check.answers
    then after_answer state check.tunnel now state.reported
    else after_failure state check.tunnel now (get_or state.failing_since now)
