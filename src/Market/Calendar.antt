-- ===== src/Market/Calendar.antt =====
-- What `DistinctTradingDays` and `DistinctBars` return.
use agentic_sim_trading.Common.{
  ◌≡◌, refl, Bool, ◌&&◌, ◌||◌, List, [], ◌∷◌, map, arith, ltb, leb, ◌==◌, select, any,
}
use agentic_sim_trading.Market.Session.{Time, inclusive_date_range_utc}
use agentic_sim_trading.Market.Data.{Quote, Tables}
use agentic_sim_trading.Market.Days.{
  insert_distinct, distinct, distinct_trading_days, distinct_bars, IsAscending,
  distinct-IsAscending,
}

abbrev pub has : Time → List Time → Bool
has t ts = any (λ u. u == t) ts

has-insert_distinct :
    (t u : Time) (us : List Time) → has t (insert_distinct u us) ≡ (u == t) || has t us
has-insert_distinct t u [] = ground arith
has-insert_distinct t u (v ∷ us) = ground (arith, has-insert_distinct t u us)

module _ {F : Type 0} where
  has-distinct :
      (t : Time) (time : Quote F → Time) (p : Quote F → Bool) (rows : List (Quote F))
      → has t (distinct (map time (select p rows))) ≡ any (λ q. p q && time q == t) rows
  has-distinct t time p [] = refl
  has-distinct t time p (q ∷ rows) =
      let step = has-insert_distinct t (time q) (distinct (map time (select p rows))) in
      ground (arith, step, has-distinct t time p rows)

  -- The calendar of a simulation, of days or of hourly bars, is strictly ascending, and has exactly the times of the
  -- rows in the range of dates.
  pub calendar_lem :
      (tables : Tables F) (start_date end_date t : Time)
      → let days = distinct_trading_days tables start_date end_date in
        let bars = distinct_bars tables start_date end_date in
        let range = inclusive_date_range_utc start_date end_date in
        IsAscending days
        × (has t days
            ≡ any (λ q. (leb start_date q.date && leb q.date end_date) && q.date == t) tables.ohlcv)
        × IsAscending bars
        × (has t bars
            ≡ any (λ q. (leb range.0 q.ts && ltb q.ts range.1) && q.ts == t) tables.ohlcv_bars)
  unfolding distinct_trading_days distinct_bars
  calendar_lem tables start_date end_date t =
      let range = inclusive_date_range_utc start_date end_date in
      let of_day = λ (q : Quote F). leb start_date q.date && leb q.date end_date in
      let of_bar = λ (q : Quote F). leb range.0 q.ts && ltb q.ts range.1 in
      (
        distinct-IsAscending (map (λ q. q.date) (select of_day tables.ohlcv)),
        has-distinct t (λ q. q.date) of_day tables.ohlcv,
        distinct-IsAscending (map (λ q. q.ts) (select of_bar tables.ohlcv_bars)),
        has-distinct t (λ q. q.ts) of_bar tables.ohlcv_bars,
      )
