-- ===== src/Orderbook/Rules.antt =====
-- market-simulator/internal/orderbook/rules.go
use agentic_sim_trading.Common.{ℕ, Bool, false, ◌||◌, ◌==◌, if◌then◌else◌}
use agentic_sim_trading.Common.Int.{pos, ltb_ℤ}
use agentic_sim_trading.Common.Text.{Text, codes, text_eq, to_lower, trim_space, equal_fold}
use agentic_sim_trading.Float.{Float64, ◌⊕◌, ◌⊖◌, ◌⊗◌, ◌⊘◌, gt, ge, nought}
use agentic_sim_trading.Market.Data.{Quote}

-- The reason strings of the engine. `fine` is "", and `defer` the sentinel `ReasonDefer`.
pub data Reason : Type 0 where
  fine defer : Reason
  agent_disqualified circuit_breaker_triggered invalid_symbol market_data_error : Reason
  below_minimum_price liquidity_limit_exceeded : Reason
  invalid_limit_price invalid_stop_price invalid_side invalid_quantity : Reason
  order_type_not_supported : Reason
  portfolio_not_found portfolio_error insufficient_cash concentration_limit_exceeded : Reason
  insufficient_holdings persist_error : Reason
  not_filled_before_end day_order_expired : Reason

-- The cases of `switch sd` and `switch ot`.
pub data Side : Type 0 where
  buy sell other_side : Side

pub data OrderType : Type 0 where
  market limit stop other_type : OrderType

abbrev pub normalize : Text → Text
normalize s = to_lower (trim_space s)

unfoldable pub side_of : Text → Side
unfolding to_lower trim_space
side_of s =
    let sd = normalize s in
    if text_eq sd (codes "buy")
    then Side.buy
    else if text_eq sd (codes "sell")
    then Side.sell
    else Side.other_side

unfoldable pub order_type_of : Text → OrderType
unfolding to_lower trim_space
order_type_of s =
    let ot = normalize s in
    if text_eq ot (codes "market")
    then OrderType.market
    else if text_eq ot (codes "limit")
    then OrderType.limit
    else if text_eq ot (codes "stop") || text_eq ot (codes "stop_loss")
    then OrderType.stop
    else OrderType.other_type

pub data FillDecision : Type 0 where
  fill_now defer_fill reject_fill : FillDecision

unfoldable pub liquidity_exceeded : (F : Type 0) ⦃fl : Float64 F⦄ → ℕ → ℕ → Bool
liquidity_exceeded F ⦃fl⦄ quantity prev_volume =
    let max_qty = fl.floor (fl.dec 1 2 ⊗ fl.of_nat prev_volume) in ltb_ℤ max_qty (pos quantity)

module _ {F : Type 0} ⦃fl : Float64 F⦄ where
  -- `minStockPrice`, 10.0, and `concentrationPct`, 0.20
  abbrev pub min_stock_price : F
  min_stock_price = fl.dec 10 0

  abbrev pub concentration_pct : F
  concentration_pct = fl.dec 20 2

  unfoldable pub circuit_triggered : F → F → Bool
  circuit_triggered open_price prev_close =
      if fl.le prev_close nought
      then false
      else let pct = (open_price ⊖ prev_close) ⊘ prev_close ⊗ fl.dec 100 0 in
        gt (fl.abs pct) (fl.dec 10 0)

  unfoldable pub below_min_price : F → Bool
  below_min_price open_price = fl.lt open_price min_stock_price

  unfoldable pub concentration_exceeded : F → F → Bool
  concentration_exceeded new_stock_exposure portfolio_value =
      if fl.le portfolio_value nought
      then gt new_stock_exposure nought
      else gt new_stock_exposure (concentration_pct ⊗ portfolio_value ⊕ fl.dec 1 9)

  -- the two inner switches of `ResolveFill`
  abbrev pub resolve_limit : Side → F → Quote F → F × FillDecision × Reason
  resolve_limit Side.buy limit_price bar =
      if fl.le bar.low limit_price
      then (limit_price, FillDecision.fill_now, Reason.fine)
      else (nought, FillDecision.defer_fill, Reason.defer)
  resolve_limit Side.sell limit_price bar =
      if ge bar.high limit_price
      then (limit_price, FillDecision.fill_now, Reason.fine)
      else (nought, FillDecision.defer_fill, Reason.defer)
  resolve_limit Side.other_side limit_price bar =
      (nought, FillDecision.reject_fill, Reason.invalid_side)

  abbrev pub resolve_stop : Side → F → Quote F → F × FillDecision × Reason
  resolve_stop Side.buy limit_price bar =
      if ge bar.high limit_price
      then (bar.open_price, FillDecision.fill_now, Reason.fine)
      else (nought, FillDecision.defer_fill, Reason.defer)
  resolve_stop Side.sell limit_price bar =
      if fl.le bar.low limit_price
      then (bar.open_price, FillDecision.fill_now, Reason.fine)
      else (nought, FillDecision.defer_fill, Reason.defer)
  resolve_stop Side.other_side limit_price bar =
      (nought, FillDecision.reject_fill, Reason.invalid_side)

  -- the switch on the order type
  abbrev pub resolve_by_type : OrderType → Side → F → Quote F → F × FillDecision × Reason
  resolve_by_type OrderType.market side limit_price bar =
      (bar.open_price, FillDecision.fill_now, Reason.fine)
  resolve_by_type OrderType.limit side limit_price bar =
      if fl.le limit_price nought
      then (nought, FillDecision.reject_fill, Reason.invalid_limit_price)
      else resolve_limit side limit_price bar
  resolve_by_type OrderType.stop side limit_price bar =
      if fl.le limit_price nought
      then (nought, FillDecision.reject_fill, Reason.invalid_stop_price)
      else resolve_stop side limit_price bar
  resolve_by_type OrderType.other_type side limit_price bar =
      (nought, FillDecision.reject_fill, Reason.order_type_not_supported)

  unfoldable pub resolve_fill : Text → Text → F → Quote F → F × FillDecision × Reason
  resolve_fill order_type side limit_price bar =
      resolve_by_type (order_type_of order_type) (side_of side) limit_price bar

  unfoldable pub apply_market_impact : Text → ℕ → ℕ → F → F
  unfolding equal_fold
  apply_market_impact side quantity prev_volume price =
      if prev_volume == 0 || (fl.le price nought || quantity == 0)
      then price
      else let frac = fl.of_nat quantity ⊘ fl.of_nat prev_volume in
        if fl.le frac (fl.dec 5 3)
        then price
        else let impact = fl.minimum (fl.dec 2 3) ((frac ⊖ fl.dec 5 3) ⊗ fl.dec 1 1) in
          if equal_fold side (codes "buy")
          then price ⊗ (fl.dec 1 0 ⊕ impact)
          else price ⊗ (fl.dec 1 0 ⊖ impact)
