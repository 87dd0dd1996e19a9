-- ===== src/Examples/Fees.antt =====
-- Fees, run at numbers with nine decimals.
use agentic_sim_trading.Common.{◌*◌, ◌≡◌, refl}
use agentic_sim_trading.Common.Int.{pos}
use agentic_sim_trading.Float.{◌⊕◌, ◌≼◌}
use agentic_sim_trading.Float.Fixed.{unit, fixed, fixed-IsFloat64}
use agentic_sim_trading.Fees.{
  total_debit, total_credit, buy_fees, sell_fees, sell_fees_mixed, buy_debit,
}
use agentic_sim_trading.Fees.Bounds.{IsCharge, fees_bounds}

-- A trade of 100,000: brokerage 100, GST 18, exchange 3.45, SEBI 0.1, stamp 15.
buy_of_100000 : buy_debit (pos (100_000 * unit)) ≡ (pos 100_136_550_000_000, pos 136_550_000_000)
unfolding buy_debit
buy_of_100000 = refl

fees_bounds_example :
    let v = pos (100_000 * unit) in
    let d = pos (300 * unit) in
    IsCharge (buy_fees v)
    × IsCharge (sell_fees v)
    × IsCharge (sell_fees_mixed d d)
    × (v ≼ total_debit (buy_fees v) v)
    × (total_credit (sell_fees v) v ≼ v)
    × (total_credit (sell_fees_mixed d d) (d ⊕ d) ≼ d ⊕ d)
fees_bounds_example =
    fees_bounds fixed-IsFloat64 (pos (100_000 * unit)) (pos (300 * unit)) (pos (300 * unit)) refl
      refl refl refl refl
