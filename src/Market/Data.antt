-- ===== src/Market/Data.antt =====
-- market-simulator/internal/market/data.go: the queries on the tables `ohlcv` and `ohlcv_bars`.
-- A table is the list of its rows. The pool is configured and a query itself does not fail.
use agentic_sim_trading.Common.{
  ℕ, ◌≤◌, ◌≡◌, Bool, true, false, ◌&&◌, not, Option, none, some, List, [], ◌∷◌, Result, ok, err,
  query_row, select, find?, order_by, ltb, leb, ◌==◌, if◌then◌else◌,
}
use agentic_sim_trading.Common
use agentic_sim_trading.Common.Text.{Text, text_eq}
use agentic_sim_trading.Market.Session.{Time, session_calendar_utc, ist_day_range_utc}

-- `Quote`. A volume that is NULL is read as 0.
pub record Quote (F : Type 0) : Type 0 where
  pub symbol : Text
  pub date : Time
  pub ts : Time
  pub open_price : F
  pub high : F
  pub low : F
  pub close : F
  pub volume : ℕ

-- `ohlcv` by day, and the rows of `ohlcv_bars` with interval 60m
pub record Tables (F : Type 0) : Type 0 where
  pub ohlcv : List (Quote F)
  pub ohlcv_bars : List (Quote F)

-- scanning MIN(...) into a `time.Time`
abbrev pub scan_time : Option Time → Result Time
scan_time none = err Common.Error.null_scan
scan_time (some t) = ok t

module _ {F : Type 0} where
  -- ORDER BY time DESC LIMIT 1
  unfoldable pub latest : (Quote F → Time) → List (Quote F) → Option (Quote F)
  latest time [] = none
  latest time (q ∷ qs) = elim (latest time qs) [
    | none ↦ some q
    | some r ↦ if ltb (time q) (time r) then some r else some q
  ]

  -- MIN(time)
  unfoldable pub earliest : (Quote F → Time) → List (Quote F) → Option Time
  earliest time [] = none
  earliest time (q ∷ qs) = elim (earliest time qs) [
    | none ↦ some (time q)
    | some t ↦ if ltb t (time q) then some t else some (time q)
  ]

  -- `BarOnDate`
  unfoldable pub bar_on_date : Tables F → Text → Time → Result (Quote F)
  bar_on_date tables symbol day =
      query_row (find? (λ q. text_eq q.symbol symbol && q.date == day) tables.ohlcv)

  -- `PrevTradingDayBar`
  unfoldable pub prev_trading_day_bar : Tables F → Text → Time → Result (Quote F)
  unfolding latest
  prev_trading_day_bar tables symbol day =
      query_row (
        latest (λ q. q.date) (select (λ q. text_eq q.symbol symbol && ltb q.date day) tables.ohlcv))

  -- `NextTradingDay`
  unfoldable pub next_trading_day : Tables F → Time → Result Time
  unfolding earliest
  next_trading_day tables day =
      scan_time (earliest (λ q. q.date) (select (λ q. ltb day q.date) tables.ohlcv))

  -- `NextBar` for interval 60m
  unfoldable pub next_bar : Tables F → Time → Result Time
  unfolding earliest
  next_bar tables ts =
      scan_time (earliest (λ q. q.ts) (select (λ q. ltb ts q.ts) tables.ohlcv_bars))

  -- `IntradayBarOnTs`
  unfoldable pub intraday_bar_on_ts : Tables F → Text → Time → Result (Quote F)
  intraday_bar_on_ts tables symbol ts =
      query_row (find? (λ q. text_eq q.symbol symbol && q.ts == ts) tables.ohlcv_bars)

  -- `IntradayBarAtOrBefore`
  unfoldable pub intraday_bar_at_or_before : Tables F → Text → Time → Result (Quote F)
  unfolding latest
  intraday_bar_at_or_before tables symbol as_of = query_row (
      latest (λ q. q.ts)
        (select (λ q. text_eq q.symbol symbol && leb q.ts as_of) tables.ohlcv_bars))

  -- `SessionBarsUpTo`
  unfoldable pub session_bars_up_to : Tables F → Text → Time → Time → List (Quote F)
  unfolding session_calendar_utc ist_day_range_utc
  session_bars_up_to tables symbol session_ts as_of =
      let range = ist_day_range_utc (session_calendar_utc session_ts) in
      order_by (λ q r. leb q.ts r.ts)
        (select
          (λ q.
            text_eq q.symbol symbol && (leb range.0 q.ts && (ltb q.ts range.1 && leb q.ts as_of)))
          tables.ohlcv_bars)
