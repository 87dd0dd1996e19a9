-- ===== src/Examples/Checks.antt =====
-- Order checks and solvency, at concrete orders.
use agentic_sim_trading.Common.{
  ◌+◌, ◌*◌, ◌/◌, ◌≡◌, refl, ◌↔◌, inl, inr, true, false, none, some, [], arith, ◌==◌, Bool-cases, ok,
  err,
}
use agentic_sim_trading.Market.Data.{Quote}
use agentic_sim_trading.Orderbook.Events.{Work, Screens}
use agentic_sim_trading.Orderbook.Rules.{
  Reason, side_of, order_type_of, apply_market_impact, concentration_exceeded,
}
use agentic_sim_trading.Orderbook.Path.{
  PathResult, resolve_path_fill, participation_cap, apply_aggressive_spread, half_spread,
  vwap_proxy,
}
use agentic_sim_trading.Orderbook.Hourly.{fill_slice, slice_px}
use agentic_sim_trading.Orderbook.LastSlice.{IsWhole, SharesMoved, last_bar_fill}
use agentic_sim_trading.Common
use agentic_sim_trading.Orders.{working_qty}
use agentic_sim_trading.Portfolio.Tx.{portfolio_id_tx, load_holdings_tx}
use agentic_sim_trading.Market.Data.{prev_trading_day_bar}
use agentic_sim_trading.Orderbook.Fill.{portfolio_pv, prev_close, settle_buy}
use agentic_sim_trading.Examples.Trading.{bar_of}
use agentic_sim_trading.Common.Int.{ℤ, pos}
use agentic_sim_trading.Common.Text.{to_lower, codes, text_eq, trim_space}
use agentic_sim_trading.Float.Fixed.{unit, fixed, fixed-IsFloat64}
use agentic_sim_trading.Universe.{is_nifty50}
use agentic_sim_trading.Fees.{buy_fees}
use agentic_sim_trading.Portfolio.Tx.{get_cash_tx}
use agentic_sim_trading.Orderbook.Rules.{side_of, order_type_of}
use agentic_sim_trading.Orderbook.Fill.{fill_buy}
use agentic_sim_trading.Orderbook.Solvency.{IsSolvent, fill_buy-IsSolvent}
use agentic_sim_trading.Validation.{check_type, OrderError, order}
use agentic_sim_trading.Validation.Accepted.{IsPriced, IsKnownSide, IsAmount, order_iff}
use agentic_sim_trading.Examples.Trading.{bar_of, tables, day, start_db, an_order, slice, work}

a_limit_order_needs_a_price :
    order {F = ℤ} (codes "TCS.NS") (codes " Limit") (codes "buy") (pos 5) none
    ≡ some OrderError.limit_price
unfolding order check_type trim_space to_lower
a_limit_order_needs_a_price = refl

order_iff_example :
    (order (codes "TCS.NS") (codes "limit") (codes "BUY") (pos 5) (some (pos unit)) ≡ none) ↔ (
      (text_eq (trim_space (codes "TCS.NS")) [] ≡ false)
      × IsPriced (order_type_of (codes "limit")) (some (pos unit))
      × IsKnownSide (side_of (codes "BUY"))
      × IsAmount (pos 5)
      × (is_nifty50 (trim_space (codes "TCS.NS")) ≡ true))
order_iff_example =
    order_iff (codes "TCS.NS") (codes "limit") (codes "BUY") (pos 5) (some (pos unit))

start_db-IsSolvent : IsSolvent start_db
unfolding get_cash_tx
start_db-IsSolvent pid cash e = elim (Bool-cases (7 == pid)) [
  | inl h ↦
      let e' : ok (pos (100_000 * unit)) ≡ ok cash = rw h at e in
      let same : pos (100_000 * unit) ≡ cash = cc in rw⁻¹ same (refl, refl)
  | inr h ↦ let e' : err Common.Error.no_rows ≡ ok cash = rw h at e in cc
]

fill_buy-IsSolvent_example : IsSolvent (fill_buy tables 1 (day 11) an_order slice work).1.db
fill_buy-IsSolvent_example =
    fill_buy-IsSolvent fixed-IsFloat64 tables 1 (day 11) an_order slice work refl start_db-IsSolvent

-- The last bar of a session has 40 shares, so 4 of 10 are traded.
abbrev thin_bar : Quote ℤ
thin_bar = record (bar_of 11) { volume = 40 }

abbrev thin_path : PathResult ℤ
thin_path = resolve_path_fill (codes "market") (codes "buy") (pos 0) 10 thin_bar (pos (unit / 10))

abbrev screens : Screens
screens = record { breaker_on = []; prev_vol = [] }

abbrev last_bar : Reason × Work ℤ
last_bar =
    fill_slice tables screens 1 (day 11 + 4 * 3600) (day 11) an_order none thin_path thin_bar work

thin_quantity_sample : thin_path.fill_qty ≡ 4
unfolding resolve_path_fill order_type_of participation_cap
thin_quantity_sample = refl

last_bar_accepted_sample : last_bar.0 ≡ Reason.fine
unfolding fill_slice side_of resolve_path_fill order_type_of participation_cap slice_px
    apply_aggressive_spread half_spread apply_market_impact working_qty fill_buy portfolio_id_tx
    get_cash_tx portfolio_pv load_holdings_tx prev_close prev_trading_day_bar settle_buy buy_fees
    concentration_exceeded vwap_proxy
last_bar_accepted_sample = refl

-- The row says 10, the portfolio has 4 more.
last_bar_fill_example :
    IsWhole 5 an_order last_bar.1.db
    × SharesMoved 1 an_order thin_path.fill_qty (side_of (codes "buy")) work last_bar.1
last_bar_fill_example =
    last_bar_fill tables screens 1 (day 11 + 4 * 3600) (day 11) an_order an_order thin_path thin_bar
      work refl (rw thin_quantity_sample (omega arith)) refl refl last_bar_accepted_sample
