-- ===== src/CrawlSchedule.antt =====
-- When each source's crawl runs (src/crawl-schedule.ts). Instants are milliseconds since the epoch,
-- whose days are those of UTC; the site asks for slots of the present, so not of the first day.
pub mod Slots
mod Tests
use scraplify.Base.{
  ℕ, ◌+◌, ◌-◌, ◌*◌, ◌/◌, Option, none, some, List, [], ◌∷◌, String, string_eq, leb, ltb,
  if◌then◌else◌,
}

pub record DailySchedule : Type 0 where
  pub hour_utc : ℕ
  pub minute_utc : ℕ
  pub max_running_ms : Option ℕ

abbrev daily : ℕ → ℕ → DailySchedule
daily hour minute = record { hour_utc = hour; minute_utc = minute; max_running_ms = none }

abbrev pub crawl_schedules : List (String × DailySchedule)
crawl_schedules =
    ("jobs-ge", daily 16 10)
    ∷ ("hr-ge", daily 16 10)
    ∷ ("etenders-ge", daily 16 10)
    ∷ (
      "ss-ge",
      record { hour_utc = 21; minute_utc = 30; max_running_ms = some (20 * 60 * 60 * 1000) },
    )
    ∷ []

abbrev pub day_ms : ℕ
day_ms = 24 * 60 * 60 * 1000

-- `Date.UTC(year, month, day, hour, minute)` on the day of an instant.
abbrev pub slot_on_day_of : DailySchedule → ℕ → ℕ
slot_on_day_of schedule now =
    now / day_ms * day_ms + schedule.hour_utc * 3600000 + schedule.minute_utc * 60000

unfoldable pub previous_slot : DailySchedule → ℕ → ℕ
previous_slot schedule now =
    let today = slot_on_day_of schedule now in if leb today now then today else today - day_ms

unfoldable pub next_slot : DailySchedule → ℕ → ℕ
next_slot schedule now =
    let today = slot_on_day_of schedule now in if ltb now today then today else today + day_ms
