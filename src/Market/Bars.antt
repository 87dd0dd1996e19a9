-- ===== src/Market/Bars.antt =====
-- `LatestBar`, `BarsForSymbol` and `IntradayBarsForSymbol` of market-simulator/internal/market/data.go, and
-- `QuoteProvider` of quote.go: what a caller sees of the prices.
use agentic_sim_trading.Common.{
  ℕ, ◌&&◌, List, [], ◌∷◌, ◌++◌, leb, ◌==◌, if◌then◌else◌, take, select, order_by, Result, ok,
  query_row,
}
use agentic_sim_trading.Common.Text.{Text, text_eq}
use agentic_sim_trading.Market.Session.{Time, Interval, is_zero, truncate_day}
use agentic_sim_trading.Market.Data.{Quote, Tables, latest, intraday_bar_at_or_before}
use agentic_sim_trading.Float.{Float64, nought}

-- a limit that is not positive is given as 0
abbrev pub or_twenty : ℕ → ℕ
or_twenty limit = if limit == 0 then 20 else limit

module _ {F : Type 0} where
  -- the loop that swaps the rows from both ends
  abbrev pub reversed : List (Quote F) → List (Quote F)
  reversed [] = []
  reversed (q ∷ qs) = reversed qs ++ (q ∷ [])

  -- ORDER BY time DESC LIMIT n, then oldest first
  abbrev pub newest : (Quote F → Time) → ℕ → List (Quote F) → List (Quote F)
  newest time n rows = reversed (take n (order_by (λ q r. leb (time r) (time q)) rows))

  unfoldable pub latest_bar : Tables F → Text → Result (Quote F)
  unfolding latest
  latest_bar tables symbol =
      query_row (latest (λ q. q.date) (select (λ q. text_eq q.symbol symbol) tables.ohlcv))

  unfoldable pub bars_for_symbol : Tables F → Text → (as_of : Time) → ℕ → List (Quote F)
  bars_for_symbol tables symbol as_of limit =
      newest (λ q. q.date) (or_twenty limit)
        (select (λ q. text_eq q.symbol symbol && leb q.date (truncate_day as_of)) tables.ohlcv)

  -- for interval 60m
  unfoldable pub intraday_bars_for_symbol : Tables F → Text → (as_of : Time) → ℕ → List (Quote F)
  intraday_bars_for_symbol tables symbol as_of limit =
      newest (λ q. q.ts) (or_twenty limit)
        (select (λ q. text_eq q.symbol symbol && leb q.ts as_of) tables.ohlcv_bars)

module _ {F : Type 0} ⦃fl : Float64 F⦄ where
  -- `models.Quote{Symbol: symbol}`
  abbrev pub no_quote : Text → Quote F
  no_quote symbol = record {
    symbol = symbol;
    date = 0;
    ts = 0;
    open_price = nought;
    high = nought;
    low = nought;
    close = nought;
    volume = 0;
  }

  abbrev pub last_or : Quote F → List (Quote F) → Quote F
  last_or d [] = d
  last_or d (q ∷ qs) = last_or q qs

  -- `Current` of a provider with the fields `as_of` and `interval`; `now` is the wall clock
  unfoldable pub current :
      Tables F → (now : Time) → (as_of : Time) → Interval → Text → Result (Quote F)
  unfolding intraday_bar_at_or_before latest_bar bars_for_symbol
  current tables now as_of Interval.hourly symbol =
      intraday_bar_at_or_before tables symbol (if is_zero as_of then now else as_of)
  current tables now as_of Interval.daily symbol =
      if is_zero as_of
      then latest_bar tables symbol
      else ok (last_or (no_quote symbol) (bars_for_symbol tables symbol as_of 1))
