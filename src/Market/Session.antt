-- ===== src/Market/Session.antt =====
-- market-simulator/internal/market/session.go
use agentic_sim_trading.Common.{ℕ, ◌+◌, ◌-◌, ◌*◌, ◌/◌, Bool, false, ◌&&◌, ◌||◌, ◌==◌, if◌then◌else◌}
use agentic_sim_trading.Market.Civil.{year, month, day_of_month}
use agentic_sim_trading.Common.Text.{Text, codes, text_eq}

abbrev pub Time : Type 0
Time = ℕ

abbrev pub is_zero : Time → Bool
is_zero t = t == 0

abbrev pub day_seconds : ℕ
day_seconds = 86400

-- `t.UTC().Truncate(24 * time.Hour)`, which counts from the zero time
abbrev pub truncate_day : Time → Time
truncate_day t = t / day_seconds * day_seconds

-- the offset of `IST`
abbrev pub ist_offset : ℕ
ist_offset = 5 * 3600 + 30 * 60

-- `Interval1d` and `Interval60m`
pub data Interval : Type 0 where
  daily hourly : Interval

unfoldable pub normalize_interval : Text → Interval
normalize_interval s =
    if text_eq s (codes "60m")
      || (text_eq s (codes "60min") || (text_eq s (codes "1h") || text_eq s (codes "60")))
    then Interval.hourly
    else Interval.daily

-- `SessionDate`, as the number of the civil day in IST, from January 1 of year 1 on. Go holds the day as its
-- midnight in IST, of which it reads the year, the month and the day.
abbrev pub session_day : Time → ℕ
session_day ts = (ts + ist_offset) / day_seconds

-- `SessionCalendarUTC`: that civil day as a midnight in UTC. The zero time stays zero.
unfoldable pub session_calendar_utc : Time → Time
session_calendar_utc ts = if is_zero ts then 0 else session_day ts * day_seconds

unfoldable pub same_session : Time → Time → Bool
unfolding year month day_of_month
same_session a b =
    if is_zero a || is_zero b
    then false
    else let da = session_day a in
      let db = session_day b in
      year da == year db && (month da == month db && day_of_month da == day_of_month db)

-- `ISTDayRangeUTC` of a date that is stored as a midnight in UTC: from its midnight in IST on, for
-- 24 hours. A date in the first day of year 1 would begin before the zero time.
unfoldable pub ist_day_range_utc : Time → Time × Time
ist_day_range_utc day =
    let start = day / day_seconds * day_seconds - ist_offset in (start, start + day_seconds)

-- `InclusiveDateRangeUTC`
unfoldable pub inclusive_date_range_utc : Time → Time → Time × Time
unfolding ist_day_range_utc
inclusive_date_range_utc start_date end_date =
    ((ist_day_range_utc start_date).0, (ist_day_range_utc end_date).1)
