-- ===== src/CrawlSchedule/Slots.antt =====
-- The slots around an instant (src/crawl-schedule.ts).
use scraplify.Base.{
  ℕ, ◌+◌, ◌*◌, ◌%◌, ◌≤◌, ◌<◌, ◌≡◌, true, false, leb, ltb, arith, Bool-cases, inl, inr,
}
use scraplify.CrawlSchedule.{DailySchedule, day_ms, slot_on_day_of, previous_slot, next_slot}

-- An instant at the schedule's time of day.
abbrev pub IsSlot : DailySchedule → ℕ → Type 0
IsSlot schedule t = t % day_ms ≡ schedule.hour_utc * 3600000 + schedule.minute_utc * 60000

-- After the first day, and for an hour and a minute of the clock: the previous slot is the last
-- instant at the schedule's time of day that is not after the present, and the next slot, a day
-- later, the first one that is.
pub slots-around :
    (schedule : DailySchedule) (now : ℕ)
    → schedule.hour_utc < 24
    → schedule.minute_utc < 60
    → day_ms ≤ now
    → (previous_slot schedule now ≤ now)
      × (now < next_slot schedule now)
      × (next_slot schedule now ≡ previous_slot schedule now + day_ms)
      × IsSlot schedule (previous_slot schedule now)
      × IsSlot schedule (next_slot schedule now)
unfolding previous_slot next_slot
slots-around schedule now hour minute late =
    elim (Bool-cases (leb (slot_on_day_of schedule now) now)) [
      | inl past ↦
          let behind : ltb now (slot_on_day_of schedule now) ≡ false = ground arith in
          rw (past, behind) (ground arith, omega arith, omega arith, omega arith, omega arith)
      | inr ahead ↦
          let after : ltb now (slot_on_day_of schedule now) ≡ true = ground arith in
          let far : now < slot_on_day_of schedule now = ground arith in
          rw (ahead, after) (omega arith, far, omega arith, omega arith, omega arith)
    ]
