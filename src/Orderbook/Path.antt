-- ===== src/Orderbook/Path.antt =====
-- market-simulator/internal/orderbook/path.go
use agentic_sim_trading.Common.{ℕ, Bool, true, false, ltb, ◌==◌, if◌then◌else◌}
use agentic_sim_trading.Common.Int.{pos, pos_part, ltb_ℤ}
use agentic_sim_trading.Common.Text.{Text, codes, equal_fold}
use agentic_sim_trading.Float.{Float64, ◌⊕◌, ◌⊖◌, ◌⊗◌, ◌⊘◌, gt, ge, nought}
use agentic_sim_trading.Market.Data.{Quote}
use agentic_sim_trading.Orderbook.Rules.{
  Reason, Side, OrderType, side_of, order_type_of, FillDecision,
}

pub record PathResult (F : Type 0) : Type 0 where
  pub decision : FillDecision
  pub fill_qty : ℕ
  pub fill_price : F
  pub aggressive : Bool
  pub reason : Reason

module _ {F : Type 0} ⦃fl : Float64 F⦄ where
  -- `NSETickSize`, `DefaultParticipationRate`, `spreadRangeK`
  abbrev pub nse_tick_size : F
  nse_tick_size = fl.dec 5 2

  abbrev pub default_participation_rate : F
  default_participation_rate = fl.dec 10 2

  abbrev pub spread_range_k : F
  spread_range_k = fl.dec 10 2

  unfoldable pub vwap_proxy : Quote F → F
  vwap_proxy bar = (bar.high ⊕ bar.low ⊕ bar.close) ⊘ fl.dec 3 0

  unfoldable pub half_spread : Quote F → F
  half_spread bar =
      let range = bar.high ⊖ bar.low in
      let range' = if fl.lt range nought then nought else range in
      let hs = spread_range_k ⊗ range' in if fl.lt hs nse_tick_size then nse_tick_size else hs

  unfoldable pub apply_aggressive_spread : Text → F → F → F
  unfolding equal_fold
  apply_aggressive_spread side price spread =
      if fl.le spread nought
      then price
      else if equal_fold side (codes "buy")
      then price ⊕ spread
      else price ⊖ spread

  unfoldable pub participation_cap : ℕ → ℕ → F → ℕ
  participation_cap remaining bar_volume rate =
      if remaining == 0
      then 0
      else let rate' = if fl.le rate nought then default_participation_rate else rate in
        let floored = fl.floor (rate' ⊗ fl.of_nat bar_volume) in
        let max_fill = if ltb_ℤ floored (pos 0) then 0 else pos_part floored in
        if ltb remaining max_fill then remaining else max_fill

  abbrev pub min_float : F → F → F
  min_float a b = if fl.lt a b then a else b

  abbrev pub max_float : F → F → F
  max_float a b = if gt a b then a else b

  abbrev pub reject_path : Reason → PathResult F
  reject_path reason = record {
    decision = FillDecision.reject_fill;
    fill_qty = 0;
    fill_price = nought;
    aggressive = false;
    reason = reason;
  }

  abbrev pub defer_path : PathResult F
  defer_path = record {
    decision = FillDecision.defer_fill;
    fill_qty = 0;
    fill_price = nought;
    aggressive = false;
    reason = Reason.defer;
  }

  -- the end of each case: the capped quantity at a price, or no fill on this bar
  abbrev pub fill_path : ℕ → F → Bool → PathResult F
  fill_path qty price aggressive = if qty == 0 then defer_path else record {
    decision = FillDecision.fill_now;
    fill_qty = qty;
    fill_price = price;
    aggressive = aggressive;
    reason = Reason.fine;
  }

  abbrev pub path_limit : Side → F → Quote F → ℕ → PathResult F
  path_limit Side.buy limit_price bar qty =
      if gt bar.low limit_price
      then defer_path
      else fill_path qty
          (if fl.le bar.open_price limit_price
            then min_float limit_price bar.open_price
            else limit_price)
          false
  path_limit Side.sell limit_price bar qty =
      if fl.lt bar.high limit_price
      then defer_path
      else fill_path qty
          (if ge bar.open_price limit_price
            then max_float limit_price bar.open_price
            else limit_price)
          false
  path_limit Side.other_side limit_price bar qty = reject_path Reason.invalid_side

  abbrev pub path_stop : Side → F → Quote F → ℕ → PathResult F
  path_stop Side.buy limit_price bar qty =
      if fl.lt bar.high limit_price
      then defer_path
      else fill_path qty (min_float limit_price bar.open_price) true
  path_stop Side.sell limit_price bar qty =
      if gt bar.low limit_price
      then defer_path
      else fill_path qty (max_float limit_price bar.open_price) true
  path_stop Side.other_side limit_price bar qty = reject_path Reason.invalid_side

  abbrev pub path_by_type : OrderType → Side → F → Quote F → ℕ → PathResult F
  path_by_type OrderType.market side limit_price bar qty = fill_path qty (vwap_proxy bar) true
  path_by_type OrderType.limit side limit_price bar qty =
      if fl.le limit_price nought
      then reject_path Reason.invalid_limit_price
      else path_limit side limit_price bar qty
  path_by_type OrderType.stop side limit_price bar qty =
      if fl.le limit_price nought
      then reject_path Reason.invalid_stop_price
      else path_stop side limit_price bar qty
  path_by_type OrderType.other_type side limit_price bar qty =
      reject_path Reason.order_type_not_supported

  unfoldable pub resolve_path_fill : Text → Text → F → ℕ → Quote F → F → PathResult F
  resolve_path_fill order_type side limit_price remaining bar participation_rate =
      if remaining == 0
      then reject_path Reason.invalid_quantity
      else path_by_type (order_type_of order_type) (side_of side) limit_price bar
          (participation_cap remaining bar.volume participation_rate)

  unfoldable pub circuit_band_breached : F → F → F → Bool
  circuit_band_breached high low prev_close =
      if fl.le prev_close nought
      then false
      else if gt ((high ⊖ prev_close) ⊘ prev_close ⊗ fl.dec 100 0) (fl.dec 10 0)
      then true
      else gt ((prev_close ⊖ low) ⊘ prev_close ⊗ fl.dec 100 0) (fl.dec 10 0)
