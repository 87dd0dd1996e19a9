-- ===== src/Portfolio/Detail.antt =====
-- `GetPortfolioDetail` of market-simulator/internal/portfolio/detail.go.
use agentic_sim_trading.Common.{
  ℕ, Bool, not, Option, none, some, List, [], ◌∷◌, ◌==◌, if◌then◌else◌, order_by, Result, ok, err,
  ◌>>=◌,
}
use agentic_sim_trading.Common
use agentic_sim_trading.Common.Text.{Text}
use agentic_sim_trading.Market.Session.{Time, truncate_day, session_calendar_utc}
use agentic_sim_trading.Market.Data.{Quote, Tables, bar_on_date, intraday_bar_at_or_before}
use agentic_sim_trading.Float.{Float64, nought, ◌⊕◌, ◌⊖◌, ◌⊗◌, ◌⊘◌, gt}
use agentic_sim_trading.Database.{Db, HoldingRow}
use agentic_sim_trading.Portfolio.Tx.{portfolio_id_tx, get_cash_tx, load_holdings_tx}
use agentic_sim_trading.Portfolio.Dq.{starting_capital_inr}

pub record HoldingDetail (F : Type 0) : Type 0 where
  pub symbol : Text
  pub quantity : ℕ
  pub avg_buy_price : F
  pub mark_price : F
  pub position_value : F
  pub unrealized_pnl : F

-- Times are given as times, not as text.
pub record PortfolioDetail (F : Type 0) : Type 0 where
  pub simulation_id : ℕ
  pub agent_id : ℕ
  pub as_of_date : Time
  pub as_of_ts : Option Time
  pub cash : F
  pub holdings : List (HoldingDetail F)
  pub invested_value : F
  pub total_value : F
  pub total_pnl : F
  pub total_return_pct : F
  pub starting_capital : F

-- `hourlyMark`
abbrev pub hourly_mark : Time → Bool
hourly_mark as_of = not (as_of == truncate_day as_of)

module _ {F : Type 0} where
  -- the bar that a position is marked by; `bars` is a `*market.Data`, which marks by hourly bars too
  unfoldable pub mark_bar : Tables F → (as_of : Time) → Text → Result (Quote F)
  unfolding bar_on_date intraday_bar_at_or_before
  mark_bar tables as_of symbol =
      if hourly_mark as_of
      then intraday_bar_at_or_before tables symbol as_of
      else bar_on_date tables symbol (truncate_day as_of)

module _ {F : Type 0} ⦃fl : Float64 F⦄ where
  -- a position without a bar is worth nothing
  abbrev pub mark_of : Result (Quote F) → Result F
  mark_of (ok q) = ok q.close
  mark_of (err Common.Error.no_rows) = ok nought
  mark_of (err e) = err e

  abbrev pub detail_of : HoldingRow F → F → HoldingDetail F
  detail_of h mark = record {
    symbol = h.symbol;
    quantity = h.quantity;
    avg_buy_price = h.avg_buy_price;
    mark_price = mark;
    position_value = fl.of_nat h.quantity ⊗ mark;
    unrealized_pnl = fl.of_nat h.quantity ⊗ (mark ⊖ h.avg_buy_price);
  }

  -- the loop over the rows: the lines and `invested`
  unfoldable pub mark_lines :
      (Text → Result (Quote F)) → List (HoldingRow F) → F → Result (List (HoldingDetail F) × F)
  mark_lines bar_of [] invested = ok ([], invested)
  mark_lines bar_of (h ∷ hs) invested = mark_of (bar_of h.symbol) >>= λ mark.
      mark_lines bar_of hs (invested ⊕ fl.of_nat h.quantity ⊗ mark) >>= λ r.
      ok (detail_of h mark ∷ r.0, r.1)

  -- `before` is the order of symbols in the database's collation.
  unfoldable pub get_portfolio_detail :
      (before : Text → Text → Bool)
      → Tables F
      → (simulation_id agent_id : ℕ) → (as_of : Time) → Db F
      → Result (PortfolioDetail F)
  unfolding portfolio_id_tx get_cash_tx load_holdings_tx mark_bar mark_lines session_calendar_utc
  get_portfolio_detail before tables simulation_id agent_id as_of db =
      portfolio_id_tx simulation_id agent_id db >>= λ pid. get_cash_tx pid db >>= λ cash.
      mark_lines (mark_bar tables as_of)
        (order_by (λ h k. before h.symbol k.symbol) (load_holdings_tx pid db)) nought
      >>= λ r.
          let capital : F = starting_capital_inr in
          let total = cash ⊕ r.1 in
          let pnl = total ⊖ capital in
          ok (record {
            simulation_id = simulation_id;
            agent_id = agent_id;
            as_of_date =
                if hourly_mark as_of then session_calendar_utc as_of else truncate_day as_of;
            as_of_ts = if hourly_mark as_of then some as_of else none;
            cash = cash;
            holdings = r.0;
            invested_value = r.1;
            total_value = total;
            total_pnl = pnl;
            total_return_pct = if gt capital nought then pnl ⊘ capital ⊗ fl.dec 100 0 else nought;
            starting_capital = capital;
          })
