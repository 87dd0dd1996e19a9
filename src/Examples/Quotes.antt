-- ===== src/Examples/Quotes.antt =====
-- What a simulation shows of the prices, run on concrete data.
use agentic_sim_trading.Common.{
  ℕ, ◌+◌, ◌*◌, ◌≡◌, refl, none, some, List, [], ◌∷◌, map, arith, Result, ok, err,
}
use agentic_sim_trading.Common.Int.{ℤ, pos}
use agentic_sim_trading.Common.Text.{codes}
use agentic_sim_trading.Market.Session.{Interval}
use agentic_sim_trading.Market.Data.{Quote, Tables}
use agentic_sim_trading.Universe.{is_nifty50}
use agentic_sim_trading.Simulation.{ClockStatus}
use agentic_sim_trading.Clock.SimClock.{SimClock}
use agentic_sim_trading.Clock.State.{State}
use agentic_sim_trading.Api.{Body, QueryId}
use agentic_sim_trading.Api.Quotes.{BarsRequest, get_ohlcv}
use agentic_sim_trading.Api.Quotes.Past.{ShowsPast, get_ohlcv-ShowsPast}
use agentic_sim_trading.Common.Text.{text_eq}
use agentic_sim_trading.Portfolio.Detail.{
  PortfolioDetail, HoldingDetail, get_portfolio_detail, mark_bar, mark_lines,
}
use agentic_sim_trading.Portfolio.Marked.{DetailOutcome, get_portfolio_detail-DetailOutcome}
use agentic_sim_trading.Portfolio.Tx.{portfolio_id_tx, get_cash_tx, load_holdings_tx}
use agentic_sim_trading.Float.Fixed.{fixed, unit}
use agentic_sim_trading.Examples.Trading.{day, tables, start_db}
use agentic_sim_trading.Examples.Clock.{fresh}
use agentic_sim_trading.Examples.Api.{server}

abbrev listed : List (Quote ℤ) → List (Quote ℤ)
listed = map {A = Quote ℤ} (λ q. record q { symbol = codes "TCS.NS" })

abbrev listed_tables : Tables ℤ
listed_tables = record { ohlcv = listed tables.ohlcv; ohlcv_bars = listed tables.ohlcv_bars }

-- at the first of two bars of a session
abbrev hour_clock : SimClock
hour_clock = record {
  current_date = day 11 + 4 * 3600;
  trading_days = (day 11 + 4 * 3600) ∷ (day 11 + 5 * 3600) ∷ [];
  current_index = 0;
  status = ClockStatus.running;
  interval = Interval.hourly;
}

abbrev in_session : State ℤ
in_session = record fresh { clock = some hour_clock }

abbrev ask : BarsRequest
ask = record {
  symbol = codes "TCS.NS";
  days = some (pos 5);
  bars = none;
  interval = [];
  simulation = QueryId.given 1;
}

abbrev dates_of : Body ℤ → List ℕ
dates_of (Body.bars qs) = map (λ q. q.date) qs
dates_of b = []

-- The bar of day 11 is not shown yet.
in_session_sample : dates_of (get_ohlcv server listed_tables 0 ask in_session).body ≡ day 10 ∷ []
unfolding get_ohlcv is_nifty50
in_session_sample = refl

get_ohlcv-ShowsPast_example :
    ShowsPast listed_tables ask hour_clock (get_ohlcv server listed_tables 0 ask in_session)
get_ohlcv-ShowsPast_example =
    get_ohlcv-ShowsPast server listed_tables 0 ask in_session hour_clock 1 refl refl refl refl
      (omega arith) (refl, (refl, (refl, tt)))

abbrev marks_of : Result (PortfolioDetail ℤ) → List ℤ
marks_of (ok d) = map {A = HoldingDetail ℤ} (λ l. l.mark_price) d.holdings
marks_of (err e) = []

-- The portfolio's one holding at the close of day 11.
portfolio_sample :
    marks_of (get_portfolio_detail text_eq tables 1 3 (day 11) start_db) ≡ pos (101 * unit) ∷ []
unfolding get_portfolio_detail portfolio_id_tx get_cash_tx load_holdings_tx mark_bar mark_lines
portfolio_sample = refl

get_portfolio_detail_example :
    DetailOutcome text_eq tables 1 3
      (day 11)
      start_db
      (get_portfolio_detail text_eq tables 1 3 (day 11) start_db)
get_portfolio_detail_example =
    get_portfolio_detail-DetailOutcome text_eq tables 1 3 (day 11) start_db
