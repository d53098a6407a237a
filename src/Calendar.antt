-- ===== src/Calendar.antt =====
-- Days and instants: `dayStart`, `startOfDay` (internal/policy/cycle.go), `dateKey`,
-- `dateKeyOffset` and `shiftDate` (internal/policy/ledger.go).
-- An instant is the number of nanoseconds since Go's zero Time. A calendar date is the number of
-- its day, from 1; the fixed-width layout 2006-01-02 orders keys as the days are ordered, and 0 is
-- the empty key, which comes before every date.
use cpa_plugin_key_policy.Base.{
  ℕ, zero, suc, ◌+◌, ◌-◌, ◌<◌, ◌≤◌, ◌≡◌, ◌≢◌, ◌↔◌, arith, ◌==◌, nat_eq, if◌then◌else◌,
}

abbrev pub Time : Type 0
Time = ℕ

abbrev pub Date : Type 0
Date = ℕ

-- Go's zone data, which is not part of the program: the local date of an instant, what
-- `time.Date(y, m, d, 0, 0, 0, 0, loc)` returns, and the end of the zone in force (`ZoneBounds`).
pub record Location : Type 0 where
  pub civil : Time → Date
  pub midnight : Date → Time
  pub zone_end : Time → Time

-- `dayStart` from its target day on. `start.Day() != day` compares days of the month: `start` is
-- within a day of its date, where that is a comparison of the dates.
unfoldable pub day_begin : Location → Date → Time
day_begin loc day =
    let start = loc.midnight day in if loc.civil start == day then start else loc.zone_end start

-- `dayStart(at, days, loc)` for `days` of 0 or more, and for `-days`
unfoldable pub day_start : Location → Time → ℕ → Time
day_start loc at days = day_begin loc (loc.civil at + days)

unfoldable pub day_start_back : Location → Time → ℕ → Time
day_start_back loc at days = day_begin loc (loc.civil at - days)

-- `dateKey`
unfoldable pub date_key : Location → Time → Date
date_key loc at = loc.civil at

-- `dateKeyOffset` for `-days`
unfoldable pub date_key_back : Location → Time → ℕ → Date
unfolding day_start_back
date_key_back loc at days = loc.civil (day_start_back loc at days)

-- `shiftDate` forward; an empty key stays empty
unfoldable pub shift_date : Date → ℕ → Date
shift_date zero days = 0
shift_date (suc d) days = suc d + days

-- `shiftDate` back
unfoldable pub shift_date_back : Date → ℕ → Date
shift_date_back date days = date - days

-- A location whose days begin once: a local midnight that exists is the first instant of its day, and
-- where a change of zone skips it, the day begins where the zone that `time.Date` resolved it in ends.
-- Go documents that in such a gap `time.Date` is right in one of the two zones; a midnight that comes
-- twice, of which Go guarantees neither, is left out.
pub record IsCalendar (loc : Location) : Type 0 where
  pub midnight_exists :
      (d : Date) (t : Time)
      → loc.civil (loc.midnight d) ≡ d
      → (loc.midnight d ≤ t) ↔ (d ≤ loc.civil t)
  pub midnight_skipped :
      (d : Date) (t : Time)
      → loc.civil (loc.midnight d) ≢ d
      → (loc.zone_end (loc.midnight d) ≤ t) ↔ (d ≤ loc.civil t)

module _ {loc : Location} (cal : IsCalendar loc) where
  -- With zone data that is a calendar, an instant is at or after the beginning of a day exactly
  -- when its local date is that day or a later one.
  pub day_begin_iff : (d : Date) (t : Time) → (day_begin loc d ≤ t) ↔ (d ≤ loc.civil t)
  unfolding day_begin
  day_begin_iff d t = ground (arith, cal.midnight_exists d t, cal.midnight_skipped d t)

  pub lt-day_start : (t : Time) (days : ℕ) → 0 < days → t < day_start loc t days
  unfolding day_start
  lt-day_start t days h = ground (arith, day_begin_iff (loc.civil t + days) t)

  pub day_start_zero-le : (t : Time) → day_start loc t 0 ≤ t
  unfolding day_start
  day_start_zero-le t = ground (arith, day_begin_iff (loc.civil t + 0) t)
