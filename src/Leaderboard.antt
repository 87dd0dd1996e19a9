-- ===== src/Leaderboard.antt =====
-- market-simulator/internal/leaderboard/leaderboard.go: the agents of a simulation, ranked.
pub mod Ranking
use agentic_sim_trading.Common.{
  ℕ, ◌+◌, Bool, true, false, not, ◌&&◌, ◌||◌, none, some, List, [], ◌∷◌, ◌++◌, map, ltb, leb, ◌==◌,
  if◌then◌else◌, is_some, select, any, order_by,
}
use agentic_sim_trading.Common.Text.{Text, codes, text_eq}
use agentic_sim_trading.Common.Counting.{distinct_ids}
use agentic_sim_trading.Market.Session.{Time}
use agentic_sim_trading.Float.{Float64, ◌⊕◌, ◌⊖◌, ◌⊗◌, ◌⊘◌, gt, feq, nought}
use agentic_sim_trading.Universe.{sector_of}
use agentic_sim_trading.Database.{OrderStatus, OrderRow, HoldingRow, SnapshotRow, Db}
use agentic_sim_trading.Portfolio.Dq.{is_disqualified, starting_capital_inr}
use agentic_sim_trading.Portfolio.Metrics.{
  FillLot, ClosedTradeStats, no_trades, stats_of, analyze_closed_trades, sharpe_ratio, max_drawdown,
  turnover_rate, sector_percents,
}
use agentic_sim_trading.Orders.{coalesce}

pub record Entry (F : Type 0) : Type 0 where
  pub rank : ℕ
  pub agent_id : ℕ
  pub agent_name : Text
  pub disqualified : Bool
  pub snapshot_date : Time
  pub total_value : F
  pub cash : F
  pub invested_value : F
  pub total_return_pct : F
  pub sharpe_ratio : F
  pub max_drawdown_pct : F
  pub win_rate_pct : F
  pub avg_holding_days : F
  pub turnover_rate : F
  pub sector_exposure : List (Text × F)

abbrev is_filled : OrderStatus → Bool
is_filled OrderStatus.filled = true
is_filled OrderStatus.pending = false
is_filled OrderStatus.rejected = false
is_filled OrderStatus.canceled = false

-- the keys of a map by symbol
abbrev distinct_texts : List Text → List Text
distinct_texts [] = []
distinct_texts (s ∷ ss) =
    let rest = distinct_texts ss in if any (text_eq s) ss then rest else s ∷ rest

module _ {F : Type 0} where
  -- `byAgent[aid]`: ORDER BY date
  unfoldable pub series_of : ℕ → ℕ → Db F → List (SnapshotRow F)
  series_of simulation_id agent_id db =
      order_by (λ a b. leb a.date b.date)
        (select (λ s. s.simulation_id == simulation_id && s.agent_id == agent_id) db.snapshots)

  -- `agentIDs`, sorted
  unfoldable pub ranked_agents : ℕ → Db F → List ℕ
  ranked_agents simulation_id db = order_by leb (
      distinct_ids
        (map (λ s. s.agent_id) (select (λ s. s.simulation_id == simulation_id) db.snapshots)))

  abbrev pub last_of : SnapshotRow F → List (SnapshotRow F) → SnapshotRow F
  last_of s [] = s
  last_of s (t ∷ ts) = last_of t ts

  -- ORDER BY filled_at, created_at
  abbrev filled_before : OrderRow F → OrderRow F → Bool
  filled_before a b = elim a.filled_at [
    | none ↦ true
    | some t ↦ elim b.filled_at [
      | none ↦ true
      | some u ↦ ltb t u || (t == u && leb a.created_at b.created_at)
    ]
  ]

  -- the agent's holdings, by the portfolio they are in
  unfoldable pub holdings_of : ℕ → ℕ → Db F → List (HoldingRow F)
  holdings_of simulation_id agent_id db =
      select
        (λ h.
          any
            (λ p.
              p.id == h.portfolio_id
              && (p.simulation_id == simulation_id && p.agent_id == agent_id))
            db.portfolios)
        db.holdings

module _ {F : Type 0} ⦃fl : Float64 F⦄ where
  abbrev pub lot_of : OrderRow F → FillLot F
  lot_of r = record {
    symbol = r.symbol;
    side = r.side;
    quantity = r.quantity;
    price = coalesce r.filled_price;
    trade_val = coalesce r.trade_value;
    filled_at = elim r.filled_at [ none ↦ 0 | some t ↦ t ];
  }

  unfoldable pub fills_of : ℕ → ℕ → Db F → List (FillLot F)
  fills_of simulation_id agent_id db = map lot_of (
      order_by filled_before (
        select
          (λ r.
            r.simulation_id == simulation_id
            && (r.agent_id == agent_id && (is_filled r.status && is_some r.filled_at)))
          db.orders))

  -- The analysis always returns; an agent without fills has the zero statistics.
  unfoldable pub load_trade_stats : ℕ → ℕ → Db F → ClosedTradeStats F
  unfolding fills_of analyze_closed_trades
  load_trade_stats simulation_id agent_id db =
      let fills = fills_of simulation_id agent_id db in
      elim (analyze_closed_trades (distinct_texts (map (λ f. f.symbol) fills)) fills) [
        | none ↦ stats_of nought no_trades
        | some s ↦ s
      ]

  -- `raw[aid][sector] += v`
  abbrev pub add_to : Text → F → List (Text × F) → List (Text × F)
  add_to sector v [] = (sector, nought ⊕ v) ∷ []
  add_to sector v ((k, w) ∷ m) =
      if text_eq k sector then (k, w ⊕ v) ∷ m else (k, w) ∷ add_to sector v m

  abbrev pub invested_by : (Text → Text) → List (HoldingRow F) → List (Text × F) → List (Text × F)
  unfolding sector_of
  invested_by stock_sector [] m = m
  invested_by stock_sector (h ∷ hs) m =
      let stored = stock_sector h.symbol in
      let sector = if text_eq stored [] then sector_of h.symbol else stored in
      invested_by stock_sector hs (add_to sector (fl.of_nat h.quantity ⊗ h.avg_buy_price) m)

  unfoldable pub load_sector_exposure : (Text → Text) → ℕ → ℕ → Db F → List (Text × F)
  unfolding holdings_of sector_percents
  load_sector_exposure stock_sector simulation_id agent_id db =
      sector_percents (invested_by stock_sector (holdings_of simulation_id agent_id db) [])

  -- `SharpeRatio` breaks ties.
  abbrev pub ranks_before : Entry F → Entry F → Bool
  ranks_before a b =
      if not (feq a.total_value b.total_value)
      then gt a.total_value b.total_value
      else gt a.sharpe_ratio b.sharpe_ratio

  -- `Rank = i + 1`
  abbrev pub number_from : ℕ → List (Entry F) → List (Entry F)
  number_from i [] = []
  number_from i (e ∷ es) = record e { rank = i + 1 } ∷ number_from (i + 1) es

-- The columns that the queries read of the tables `agents` and `stocks`: names, and sectors, each the
-- empty text where there is none.
module _ {F : Type 0} ⦃fl : Float64 F⦄ (names : ℕ → Text) (stock_sector : Text → Text) where
  -- one pass of the loop over `agentIDs`, for the snapshots `s ∷ ss` of the agent
  abbrev pub scored : ℕ → Db F → ℕ → SnapshotRow F → List (SnapshotRow F) → Entry F
  unfolding is_disqualified load_trade_stats load_sector_exposure sharpe_ratio max_drawdown
      turnover_rate
  scored simulation_id db aid s ss =
      let last = last_of s ss in
      let values = map (λ r. r.total_value) (s ∷ ss) in
      let dq = is_disqualified simulation_id aid db in
      let ts = load_trade_stats simulation_id aid db in
      record {
        rank = 0;
        agent_id = aid;
        agent_name = if dq then codes "[DQ] " ++ names aid else names aid;
        disqualified = dq;
        snapshot_date = last.date;
        total_value = last.total_value;
        cash = last.cash;
        invested_value = last.invested_value;
        total_return_pct =
            (last.total_value ⊖ starting_capital_inr) ⊘ starting_capital_inr ⊗ fl.dec 100 0;
        sharpe_ratio = sharpe_ratio values nought;
        max_drawdown_pct = max_drawdown values ⊗ fl.dec 100 0;
        win_rate_pct = ts.win_rate_pct;
        avg_holding_days = ts.avg_holding_days;
        turnover_rate = turnover_rate ts.total_trade_value values;
        sector_exposure = load_sector_exposure stock_sector simulation_id aid db;
      }

  abbrev pub scored_rows : ℕ → Db F → List ℕ → List (Entry F)
  unfolding series_of
  scored_rows simulation_id db [] = []
  scored_rows simulation_id db (aid ∷ aids) = elim (series_of simulation_id aid db) [
    | [] ↦ scored_rows simulation_id db aids
    | s ∷ ss ↦ scored simulation_id db aid s ss ∷ scored_rows simulation_id db aids
  ]

  -- Go leaves the order of equal rows open; here they keep theirs.
  unfoldable pub build : ℕ → Db F → List (Entry F)
  unfolding ranked_agents
  build simulation_id db = number_from 0 (
      order_by (λ a b. not (ranks_before b a))
        (scored_rows simulation_id db (ranked_agents simulation_id db)))
