-- ===== src/Examples/Metrics.antt =====
-- Ratios, lots and the leaderboard, run on concrete data.
use agentic_sim_trading.Common.{
  ℕ, ◌*◌, ◌/◌, ◌≤◌, ◌≡◌, refl, Option, none, some, List, [], ◌∷◌, arith, if◌then◌else◌,
}
use agentic_sim_trading.Common.Int.{ℤ, pos}
use agentic_sim_trading.Common.Text.{to_lower, Text, codes}
use agentic_sim_trading.Common.Counting.{count}
use agentic_sim_trading.Float.Fixed.{unit, fixed, fixed-IsFloat64}
use agentic_sim_trading.Database.{SnapshotRow, Db}
use agentic_sim_trading.Portfolio.Metrics.{
  FillLot, Lot, Tally, ClosedTradeStats, match_sell, no_trades, analyze_closed_trades, max_drawdown,
}
use agentic_sim_trading.Portfolio.Metrics.Fifo.{Matched, match_sell_lem, analyze_closed_trades_lem}
use agentic_sim_trading.Portfolio.Metrics.Drawdown.{IsFraction, max_drawdown-IsFraction}
use agentic_sim_trading.Leaderboard.{build}
use agentic_sim_trading.Leaderboard.Ranking.{IsRankedFrom, is_of, has_snapshot, build_lem}
use agentic_sim_trading.Examples.Trading.{day, start_db}

abbrev a_fill : Text → ℕ → ℕ → ℕ → FillLot ℤ
a_fill side quantity price n = record {
  symbol = codes "TCS";
  side = side;
  quantity = quantity;
  price = pos (price * unit);
  trade_val = pos (quantity * price * unit);
  filled_at = day n;
}

abbrev fills : List (FillLot ℤ)
fills =
    a_fill (codes "buy") 10 100 10
    ∷ a_fill (codes "buy") 5 104 11
    ∷ a_fill (codes "sell") 12 102 14
    ∷ []

abbrev lots : List (Lot ℤ)
lots =
    record { qty = 10; price = pos (100 * unit); day = day 10 }
    ∷ record { qty = 5; price = pos (104 * unit); day = day 11 }
    ∷ []

abbrev sale : FillLot ℤ
sale = a_fill (codes "sell") 12 102 14

match_sell_example :
    (r : ℕ × List (Lot ℤ) × Tally ℤ) × (match_sell 3 sale 12 lots no_trades ≡ some r)
    × Matched 12 lots no_trades r
match_sell_example = match_sell_lem 3 sale 12 lots no_trades (omega arith)

-- two parts are closed, one of them with a profit
abbrev counts : Option (ClosedTradeStats ℤ) → ℕ × ℕ
counts none = (0, 0)
counts (some s) = (s.closed_trades, s.profitable)

closed_sample : ◌≡◌ {A = ℕ × ℕ} (counts (analyze_closed_trades (codes "TCS" ∷ []) fills)) (2, 1)
unfolding analyze_closed_trades to_lower
closed_sample = refl

analyze_closed_trades_example :
    (s : ClosedTradeStats ℤ) × (analyze_closed_trades (codes "TCS" ∷ []) fills ≡ some s)
    × (s.profitable ≤ s.closed_trades)
analyze_closed_trades_example = analyze_closed_trades_lem (codes "TCS" ∷ []) fills

abbrev values : List ℤ
values = pos (120 * unit) ∷ pos (90 * unit) ∷ pos (130 * unit) ∷ []

max_drawdown_sample : max_drawdown (pos (100 * unit) ∷ values) ≡ pos (unit / 4)
unfolding max_drawdown
max_drawdown_sample = refl

max_drawdown_example : IsFraction (max_drawdown (pos (100 * unit) ∷ values))
max_drawdown_example =
    max_drawdown-IsFraction fixed-IsFloat64 (pos (100 * unit)) values refl
      ((refl, refl), ((refl, refl), ((refl, refl), ((refl, refl), tt))))

abbrev a_snapshot : ℕ → ℕ → ℕ → SnapshotRow ℤ
a_snapshot agent_id n value = record {
  simulation_id = 1;
  agent_id = agent_id;
  date = day n;
  total_value = pos (value * unit);
  cash = pos (value * unit);
  invested_value = pos 0;
}

abbrev scored_db : Db ℤ
scored_db = record start_db {
  snapshots =
      a_snapshot 3 10 1000 ∷ a_snapshot 4 10 1000 ∷ a_snapshot 3 11 990 ∷ a_snapshot 4 11 1010 ∷ [];
}

abbrev no_names : ℕ → Text
no_names agent_id = []

abbrev no_sector : Text → Text
no_sector symbol = []

build_example :
    IsRankedFrom 0 (build no_names no_sector 1 scored_db)
    × ((a : ℕ)
        → count (is_of a) (build no_names no_sector 1 scored_db)
          ≡ (if has_snapshot 1 a scored_db then 1 else 0))
build_example =
    build_lem no_names no_sector fixed-IsFloat64 1 scored_db (refl, (refl, (refl, (refl, tt))))
