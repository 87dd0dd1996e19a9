-- ===== src/Api/Quotes/Past.antt =====
-- What a simulation's clock lets `GetOHLCV` of market-simulator/internal/api/handlers.go show.
use agentic_sim_trading.Common.{
  ℕ, ◌-◌, ◌≤◌, ◌<◌, ◌≡◌, refl, ap, ◌⊎◌, inl, inr, Bool, true, false, not, ◌&&◌, Option, none, some,
  List, arith, ltb, leb, if◌then◌else◌, Bool-cases, Option-cases, All, All-impl,
}
use agentic_sim_trading.Common.Int.{ℤ, pos, negsuc}
use agentic_sim_trading.Common.Text.{text_eq}
use agentic_sim_trading.Market.Session.{
  Time, Interval, truncate_day, day_seconds, normalize_interval, session_calendar_utc,
}
use agentic_sim_trading.Market.Data.{Quote, Tables}
use agentic_sim_trading.Market.Bars.{or_twenty, bars_for_symbol, intraday_bars_for_symbol}
use agentic_sim_trading.Market.Newest.{IsMidnight, IsNewest, newest-IsNewest, select-congr}
use agentic_sim_trading.Clock.SimClock.{SimClock, hourly, is_last_bar_of_session}
use agentic_sim_trading.Api.{Handler, Body, Response, QueryId, not_implemented}
use agentic_sim_trading.Clock.State.{State, as_of_date}
use agentic_sim_trading.Api.Quotes.{
  BarsRequest, count_or, limit_in, resolve_simulation_as_of, session_view, read_bars, get_ohlcv,
}
use agentic_sim_trading.Validation.{listed_symbol}
use agentic_sim_trading.Simulation.{is_completed}

count_or_pos : (n : ℕ) (v : Option ℤ) → 0 < n → 0 < count_or n v
count_or_pos n none h = h
count_or_pos n (some (pos k)) h = ground arith
count_or_pos n (some (negsuc k)) h = ground arith

limit_in_lem : (req : BarsRequest) → or_twenty (limit_in req) ≡ limit_in req
limit_in_lem req =
    let some_days = count_or_pos 20 req.days (omega arith) in
    let some_bars = count_or_pos (count_or 20 req.days) req.bars some_days in ground arith

module _ {F : Type 0} where
  -- An hourly bar may be shown once the clock has reached its time. A daily bar may be shown from its day on, but on an hourly
  -- clock only from the last bar of the session on.
  abbrev pub may_see : SimClock → Interval → Quote F → Bool
  may_see c Interval.hourly q = leb q.ts c.current_date
  may_see c Interval.daily q =
      if hourly c && not (is_last_bar_of_session c)
      then ltb q.date (session_calendar_utc c.current_date)
      else leb q.date c.current_date

  abbrev pub rows_of : Tables F → Interval → List (Quote F)
  rows_of tables Interval.hourly = tables.ohlcv_bars
  rows_of tables Interval.daily = tables.ohlcv

  abbrev pub time_of : Interval → Quote F → Time
  time_of Interval.hourly q = q.ts
  time_of Interval.daily q = q.date

  abbrev pub IsPast : Tables F → BarsRequest → SimClock → List (Quote F) → Type 0
  IsPast tables req c shown =
      let interval = normalize_interval req.interval in
      IsNewest (time_of interval) (λ q. text_eq q.symbol req.symbol && may_see c interval q)
        (limit_in req) (rows_of tables interval) shown

  abbrev pub ShowsPast : Tables F → BarsRequest → SimClock → Response F → Type 0
  ShowsPast tables req c r =
      ((shown : List (Quote F)) × (r ≡ record { status = 200; body = Body.bars shown })
        × IsPast tables req c shown)
      ⊎ (400 ≤ r.status)

  -- the day that is asked for up to, and what may be seen of the days
  same_days :
      (c : SimClock) (q : Quote F)
      → day_seconds ≤ c.current_date
      → IsMidnight q.date
      → leb q.date (
          truncate_day (
            if hourly c && not (is_last_bar_of_session c)
            then session_calendar_utc c.current_date - day_seconds
            else c.current_date))
        ≡ may_see c Interval.daily q
  unfolding session_calendar_utc
  same_days c q late midnight = elim (Bool-cases (hourly c && not (is_last_bar_of_session c))) [
    | inl e ↦ rw e (ground arith)
    | inr e ↦ rw e (ground arith)
  ]

  read_bars-IsPast :
      (h : Handler) (tables : Tables F) (req : BarsRequest) (c : SimClock) (view : Bool × Bool)
      (interval : Interval)
      → day_seconds ≤ c.current_date
      → All (λ q. IsMidnight q.date) tables.ohlcv
      → (view.0 && not view.1) ≡ (hourly c && not (is_last_bar_of_session c))
      → normalize_interval req.interval ≡ interval
      → ShowsPast tables req c (read_bars h tables req c.current_date view)
  unfolding read_bars bars_for_symbol intraday_bars_for_symbol not_implemented
  read_bars-IsPast h tables req c view Interval.hourly late dates same e = elim (Bool-cases h.db) [
    | inr none_there ↦ rw (read_bars, none_there) (inr (omega arith))
    | inl there ↦
        rw (read_bars, there, e, limit_in_lem req)
          (inl (
            _,
            refl,
            newest-IsNewest (λ q. q.ts)
                (λ q. text_eq q.symbol req.symbol && may_see c Interval.hourly q) (limit_in req)
                tables.ohlcv_bars,
          ))
  ]
  read_bars-IsPast h tables req c view Interval.daily late dates same e = elim (Bool-cases h.db) [
    | inr none_there ↦ rw (read_bars, none_there) (inr (omega arith))
    | inl there ↦
        let asked = λ (q : Quote F).
          text_eq q.symbol req.symbol
          && leb q.date (
              truncate_day (
                if hourly c && not (is_last_bar_of_session c)
                then session_calendar_utc c.current_date - day_seconds
                else c.current_date)) in
        let seen = λ (q : Quote F). text_eq q.symbol req.symbol && may_see c Interval.daily q in
        let agree = select-congr asked seen tables.ohlcv (
          All-impl (λ q m. ap (λ b. text_eq q.symbol req.symbol && b) (same_days c q late m))
            tables.ohlcv dates) in
        rw (read_bars, there, e, same, limit_in_lem req)
          (inl (_, refl, rw agree (newest-IsNewest (λ q. q.date) seen (limit_in req) tables.ohlcv)))
  ]

  same_view :
      (h : Handler) (req : BarsRequest) (s : State F) (c : SimClock)
      → h.clocks ≡ true
      → s.clock ≡ some c
      → let view = session_view h req s in
        (view.0 && not view.1) ≡ (hourly c && not (is_last_bar_of_session c))
  unfolding session_view
  same_view h req s c clocks loaded = elim (Bool-cases (hourly c)) [
    | inl e ↦ rw (session_view, loaded, clocks, e)
    | inr e ↦ rw (session_view, loaded, clocks, e) (ground arith)
  ]

  -- Where the bars' days are dates, and the clock of the simulation that is asked for is loaded, not completed and past
  -- the first day: GetOHLCV either refuses with a status of 400 or more, or shows, oldest first, the newest bars of the
  -- symbol, up to the limit, among those that the clock has come to; on an hourly clock, a day's own bar is not
  -- among them before the last bar of its session.
  pub get_ohlcv-ShowsPast :
      (h : Handler) (tables : Tables F) (now : Time) (req : BarsRequest) (s : State F)
      (c : SimClock) (simulation_id : ℕ)
      → req.simulation ≡ QueryId.given simulation_id
      → h.clocks ≡ true
      → s.clock ≡ some c
      → is_completed c.status ≡ false
      → day_seconds ≤ c.current_date
      → All (λ q. IsMidnight q.date) tables.ohlcv
      → ShowsPast tables req c (get_ohlcv h tables now req s)
  unfolding get_ohlcv resolve_simulation_as_of as_of_date
  get_ohlcv-ShowsPast h tables now req s c simulation_id named clocks loaded open_clock late dates =
      elim (Option-cases (listed_symbol req.symbol)) [
        | inr (e, wrong) ↦ rw (get_ohlcv, wrong) (inr (omega arith))
        | inl fine ↦
            rw
              (
                get_ohlcv, fine, named, resolve_simulation_as_of, clocks, as_of_date, loaded,
                open_clock,
              )
              (read_bars-IsPast h tables req c (session_view h req s)
                (normalize_interval req.interval) late dates (same_view h req s c clocks loaded)
                refl)
      ]
