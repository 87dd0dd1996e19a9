-- ===== src/Market/Sessions.antt =====
-- Session dates and session ranges agree.
use agentic_sim_trading.Common.{
  ℕ, ◌+◌, ◌*◌, ◌≤◌, ◌<◌, ◌≡◌, sym, ap, ◌∙◌, ◌≢◌, ◌↔◌, Bool, true, false, ◌&&◌, ◌||◌, arith, ◌==◌,
  if◌then◌else◌,
}
use agentic_sim_trading.Market.Civil.{civil_injective, year, month, day_of_month}
use agentic_sim_trading.Market.Session.{
  Time, day_seconds, truncate_day, is_zero, session_day, session_calendar_utc, same_session,
  inclusive_date_range_utc,
}

same_parts :
    (y y' m m' d d' : ℕ)
    → ((y == y' && (m == m' && d == d')) ≡ true) ↔ ((y ≡ y') × (m ≡ m') × (d ≡ d'))
same_parts y y' m m' d d' = ground arith

not_zero :
    (a b : Time) (x : Bool) → a ≢ 0 → b ≢ 0 → (if is_zero a || is_zero b then false else x) ≡ x
not_zero a b x ha hb = ground arith

same_session_iff :
    (a b : Time) → a ≢ 0 → b ≢ 0 → (same_session a b ≡ true) ↔ (session_day a ≡ session_day b)
unfolding same_session
same_session_iff a b ha hb =
    let da = session_day a in
    let db = session_day b in
    let parts =
      same_parts (year da) (year db) (month da) (month db) (day_of_month da) (day_of_month db) in
    let shown = not_zero a b _ ha hb in
    (
      λ e. let p = parts.0 (sym shown ∙ e) in civil_injective da db p.0 p.1 p.2,
      λ e. shown ∙ parts.1 (ap year e, ap month e, ap day_of_month e),
    )

-- Two times that are not zero are in the same session, by year, month and day, exactly when their session dates are
-- equal. The session date of such a time is a midnight, and the time, 5 hours and 30 minutes later, is in the 24
-- hours that begin with it.
pub session_calendar_lem :
    (a b : Time)
    → a ≢ 0
    → b ≢ 0
    → ((same_session a b ≡ true) ↔ (session_calendar_utc a ≡ session_calendar_utc b))
      × (truncate_day (session_calendar_utc a) ≡ session_calendar_utc a)
      × (session_calendar_utc a ≤ a + 5 * 3600 + 30 * 60)
      × (a + 5 * 3600 + 30 * 60 < session_calendar_utc a + day_seconds)
unfolding session_calendar_utc
session_calendar_lem a b ha hb =
    let days = same_session_iff a b ha hb in
    (
      (λ e. ground (arith, days.0 e), λ e. days.1 (ground arith)),
      ground arith,
      ground arith,
      ground arith,
    )

-- A time that is not zero lies in the range of a range of dates (midnights in UTC, neither in the first
-- day of year 1) exactly when its session date is one of those dates.
pub inclusive_date_range_iff :
    (start_date end_date ts : ℕ)
    → 0 < start_date
    → 0 < end_date
    → ts ≢ 0
    → let range = inclusive_date_range_utc (start_date * day_seconds) (end_date * day_seconds) in
      ((range.0 ≤ ts) × (ts < range.1)) ↔ (
        (start_date * day_seconds ≤ session_calendar_utc ts)
        × (session_calendar_utc ts ≤ end_date * day_seconds))
unfolding inclusive_date_range_utc session_calendar_utc
inclusive_date_range_iff start_date end_date ts h h' hz = (ground arith, ground arith)
