-- ===== src/Api/Quotes.antt =====
-- `GetOHLCV` and `GetQuote` of market-simulator/internal/api/handlers.go, and `resolveSimulationAsOf`. The state is that
-- of the simulation which the request names; `now` is the wall clock.
pub mod Past
use agentic_sim_trading.Common.{
  ℕ, ◌-◌, ◌⊎◌, inl, inr, Bool, true, false, not, ◌&&◌, ◌||◌, Option, none, some, [], if◌then◌else◌,
  ok, err,
}
use agentic_sim_trading.Common
use agentic_sim_trading.Common.Int.{ℤ, pos, pos_part, ltb_ℤ, leb_ℤ}
use agentic_sim_trading.Common.Text.{Text, codes, text_eq}
use agentic_sim_trading.Market.Session.{
  Time, Interval, day_seconds, normalize_interval, session_calendar_utc,
}
use agentic_sim_trading.Market.Data.{Tables}
use agentic_sim_trading.Market.Bars.{bars_for_symbol, intraday_bars_for_symbol, current}
use agentic_sim_trading.Float.{Float64}
use agentic_sim_trading.Simulation.{bar_interval}
use agentic_sim_trading.Clock.SimClock.{hourly, is_hourly, is_last_bar_of_session}
use agentic_sim_trading.Clock.State.{State, as_of_date}
use agentic_sim_trading.Validation.{listed_symbol}
use agentic_sim_trading.Api.{Handler, Body, Response, QueryId, reply, not_implemented}
use agentic_sim_trading.Api.PlaceOrder.{order_error_text}

-- the parameters of the URL; a number that is missing or is none is `none`
pub record BarsRequest : Type 0 where
  pub symbol : Text
  pub days : Option ℤ
  pub bars : Option ℤ
  pub interval : Text
  pub simulation : QueryId

-- one of the parameters `days` and `bars`, over what was chosen before
abbrev pub count_or : ℕ → Option ℤ → ℕ
count_or n none = n
count_or n (some v) = if ltb_ℤ (pos 0) v && leb_ℤ v (pos 500) then pos_part v else n

abbrev pub limit_in : BarsRequest → ℕ
limit_in req = count_or (count_or 20 req.days) req.bars

module _ {F : Type 0} where
  -- the time that the simulation stands at, or the response to an error
  unfoldable pub resolve_simulation_as_of : Handler → State F → Response F ⊎ Time
  unfolding as_of_date
  resolve_simulation_as_of h s =
      let loaded : Option Time = if h.clocks then as_of_date s else none in
      elim loaded [
        | some t ↦ inr t
        | none ↦
            if not h.db then inl (reply 400 (codes "database not configured")) else elim s.row [
              | none ↦ inl (reply 404 (codes "simulation not found"))
              | some row ↦ elim row.as_of_date [
                | some t ↦ inr t
                | none ↦
                    inl (reply 400 (codes "simulation has no as_of_date yet; POST .../start first"))
              ]
            ]
      ]

  -- `hourlySim` and `lastBar`
  unfoldable pub session_view : Handler → BarsRequest → State F → Bool × Bool
  unfolding bar_interval is_last_bar_of_session
  session_view h req s =
      let (by_clock, last_bar) : Bool × Bool = elim s.clock [
        | none ↦ (false, true)
        | some c ↦ if h.clocks && hourly c then (true, is_last_bar_of_session c) else (false, true)
      ] in
      let by_row : Bool = elim s.row [
        | none ↦ false
        | some row ↦ h.db && (text_eq req.interval [] && is_hourly (bar_interval row.config))
      ] in
      (by_clock || by_row, last_bar)

  -- `GetOHLCV` from the queries on
  unfoldable pub read_bars :
      Handler → Tables F → BarsRequest → (as_of : Time) → (view : Bool × Bool) → Response F
  unfolding bars_for_symbol intraday_bars_for_symbol normalize_interval session_calendar_utc
      not_implemented
  read_bars h tables req as_of view =
      if not h.db
      then not_implemented (codes "DATABASE_URL not set — cannot load OHLCV")
      else if is_hourly (normalize_interval req.interval)
      then record {
        status = 200;
        body = Body.bars (intraday_bars_for_symbol tables req.symbol as_of (limit_in req));
      }
      else let daily_as_of =
          if view.0 && not view.1 then session_calendar_utc as_of - day_seconds else as_of in
        record {
          status = 200;
          body = Body.bars (bars_for_symbol tables req.symbol daily_as_of (limit_in req));
        }

  unfoldable pub get_ohlcv : Handler → Tables F → (now : Time) → BarsRequest → State F → Response F
  unfolding listed_symbol order_error_text resolve_simulation_as_of session_view read_bars
  get_ohlcv h tables now req s = elim (listed_symbol req.symbol) [
    | some e ↦ reply 400 (order_error_text e)
    | none ↦ elim req.simulation [
      | QueryId.missing ↦ read_bars h tables req now (false, true)
      | QueryId.malformed ↦ reply 400 (codes "invalid simulation_id")
      | QueryId.given simulation_id ↦ elim (resolve_simulation_as_of h s) [
        | inl refused ↦ refused
        | inr as_of ↦ read_bars h tables req as_of (session_view h req s)
      ]
    ]
  ]

module _ {F : Type 0} ⦃fl : Float64 F⦄ where
  -- the interval of the provider: that of the simulation's configuration
  abbrev pub interval_of : Handler → State F → Interval
  interval_of h s = elim s.row [
    | none ↦ Interval.daily
    | some row ↦ if h.db then bar_interval row.config else Interval.daily
  ]

  -- `GetQuote` from `Current` on
  unfoldable pub read_quote :
      Handler → Tables F → (now : Time) → Text → (as_of : Time) → Interval → Response F
  unfolding current not_implemented
  read_quote h tables now symbol as_of interval =
      if not h.db
      then not_implemented (codes "DATABASE_URL not set — cannot load OHLCV")
      else elim (current tables now as_of interval symbol) [
        | ok q ↦ record { status = 200; body = Body.quote q }
        | err Common.Error.no_rows ↦ reply 404 (codes "no bars for symbol")
        | err e ↦ reply 500 (codes "quote failed")
      ]

  unfoldable pub get_quote :
      Handler → Tables F → (now : Time) → Text → QueryId → State F → Response F
  unfolding listed_symbol order_error_text resolve_simulation_as_of read_quote
  get_quote h tables now symbol simulation s = elim (listed_symbol symbol) [
    | some e ↦ reply 400 (order_error_text e)
    | none ↦ elim simulation [
      | QueryId.missing ↦ read_quote h tables now symbol 0 Interval.daily
      | QueryId.malformed ↦ reply 400 (codes "invalid simulation_id")
      | QueryId.given simulation_id ↦ elim (resolve_simulation_as_of h s) [
        | inl refused ↦ refused
        | inr as_of ↦ read_quote h tables now symbol as_of (interval_of h s)
      ]
    ]
  ]
