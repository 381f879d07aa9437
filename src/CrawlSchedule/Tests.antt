-- ===== src/CrawlSchedule/Tests.antt =====
-- The schedule of ss.ge around the noon of a day.
use scraplify.Base.{ℕ, ◌+◌, ◌*◌, ◌≤◌, ◌<◌, ◌≡◌, refl, none, arith}
use scraplify.CrawlSchedule.{DailySchedule, day_ms, previous_slot, next_slot}
use scraplify.CrawlSchedule.Slots.{IsSlot, slots-around}

abbrev ss_ge : DailySchedule
ss_ge = record { hour_utc = 21; minute_utc = 30; max_running_ms = none }

abbrev noon : ℕ
noon = 20000 * 86400000 + 43200000

this_evening : next_slot ss_ge noon ≡ 20000 * 86400000 + 77400000
unfolding next_slot
this_evening = refl

slots-around_example :
    (previous_slot ss_ge noon ≤ noon)
    × (noon < next_slot ss_ge noon)
    × (next_slot ss_ge noon ≡ previous_slot ss_ge noon + day_ms)
    × IsSlot ss_ge (previous_slot ss_ge noon)
    × IsSlot ss_ge (next_slot ss_ge noon)
slots-around_example = slots-around ss_ge noon (omega arith) (omega arith) (omega arith)
