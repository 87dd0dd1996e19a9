-- ===== src/Examples/Market.antt =====
-- Sessions and price lookups, run.
use agentic_sim_trading.Common.{◌+◌, ◌*◌, ◌≤◌, ◌<◌, ◌≡◌, refl, ◌↔◌, true, arith}
use agentic_sim_trading.Market.Session.{
  truncate_day, day_seconds, session_calendar_utc, same_session, inclusive_date_range_utc,
}
use agentic_sim_trading.Common.{◌&&◌, leb, ltb, ◌==◌, any}
use agentic_sim_trading.Market.Days.{IsAscending, distinct_trading_days, distinct_bars}
use agentic_sim_trading.Market.Calendar.{has, calendar_lem}
use agentic_sim_trading.Examples.Trading.{tables, day}
use agentic_sim_trading.Market.Sessions.{session_calendar_lem, inclusive_date_range_iff}

-- 18:30 UTC is midnight in IST.
evening_is_next_session : session_calendar_utc (10 * 86400 + 18 * 3600 + 1800) ≡ 11 * 86400
unfolding session_calendar_utc
evening_is_next_session = refl

session_calendar_example :
    ((same_session 900000 910000 ≡ true)
      ↔ (session_calendar_utc 900000 ≡ session_calendar_utc 910000))
    × (truncate_day (session_calendar_utc 900000) ≡ session_calendar_utc 900000)
    × (session_calendar_utc 900000 ≤ 900000 + 5 * 3600 + 30 * 60)
    × (900000 + 5 * 3600 + 30 * 60 < session_calendar_utc 900000 + day_seconds)
session_calendar_example = session_calendar_lem 900000 910000 (omega arith) (omega arith)

inclusive_date_range_example :
    let range = inclusive_date_range_utc (10 * day_seconds) (12 * day_seconds) in
    ((range.0 ≤ 900000) × (900000 < range.1)) ↔ (
      (10 * day_seconds ≤ session_calendar_utc 900000)
      × (session_calendar_utc 900000 ≤ 12 * day_seconds))
inclusive_date_range_example =
    inclusive_date_range_iff 10 12 900000 (omega arith) (omega arith) (omega arith)

calendar_example :
    let range = inclusive_date_range_utc (10 * day_seconds) (12 * day_seconds) in
    IsAscending (distinct_trading_days tables (10 * day_seconds) (12 * day_seconds))
    × (has (day 11) (distinct_trading_days tables (10 * day_seconds) (12 * day_seconds))
        ≡ any
            (λ q.
              (leb (10 * day_seconds) q.date && leb q.date (12 * day_seconds)) && q.date == day 11)
            tables.ohlcv)
    × IsAscending (distinct_bars tables (10 * day_seconds) (12 * day_seconds))
    × (has (day 11) (distinct_bars tables (10 * day_seconds) (12 * day_seconds))
        ≡ any (λ q. (leb range.0 q.ts && ltb q.ts range.1) && q.ts == day 11) tables.ohlcv_bars)
calendar_example = calendar_lem tables (10 * day_seconds) (12 * day_seconds) (day 11)
