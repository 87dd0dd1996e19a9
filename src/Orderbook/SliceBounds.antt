-- ===== src/Orderbook/SliceBounds.antt =====
-- Bounds on the slice of an order that `tryFillHourly` of market-simulator/internal/orderbook/engine_hourly.go fills.
use agentic_sim_trading.Common.{
  ℕ, ◌+◌, ◌-◌, ◌^◌, ◌≤◌, ◌<◌, ◌≡◌, refl, ◌≢◌, ◌⊎◌, inl, inr, Bool, false, ◌||◌, Option, arith, ◌==◌,
  if◌then◌else◌, Bool-cases, is_some,
}
use agentic_sim_trading.Common.Text.{Text}
use agentic_sim_trading.Float.{Float64, IsFloat64, IsFinite, ◌⊗◌, ◌⊘◌, ◌≼◌, nought}
use agentic_sim_trading.Market.Session.{Time}
use agentic_sim_trading.Market.Data.{Quote}
use agentic_sim_trading.Database.{OrderRow}
use agentic_sim_trading.Orders.{working_qty}
use agentic_sim_trading.Orderbook.Rules.{
  Side, OrderType, side_of, order_type_of, FillDecision, apply_market_impact,
}
use agentic_sim_trading.Orderbook.Path.{
  PathResult, resolve_path_fill, path_by_type, participation_cap,
}
use agentic_sim_trading.Orderbook.PathBounds.{IsNoWorse, effective_rate, resolve_path_fill_bounds}
use agentic_sim_trading.Orderbook.TryFill.{limit_px}
use agentic_sim_trading.Orderbook.Hourly.{slice_px, slice_of}

-- more than 0.5% of the volume of the previous trading day
abbrev pub IsLarge : (F : Type 0) ⦃fl : Float64 F⦄ → (quantity prev_volume : ℕ) → Type 0
IsLarge F ⦃fl⦄ quantity prev_volume =
    (0 < prev_volume) × (fl.le (fl.of_nat quantity ⊘ fl.of_nat prev_volume) (fl.dec 5 3) ≡ false)

left_over :
    (working taken : ℕ) (more : Bool)
    → taken ≤ working
    → taken + (if more then working - taken else 0) ≤ working
left_over working taken more h = ground arith

module _ {F : Type 0} ⦃fl : Float64 F⦄ where
  impact_cases :
      (side : Text) (quantity prev_volume : ℕ) (price : F)
      → (apply_market_impact side quantity prev_volume price ≡ price)
        ⊎ IsLarge F quantity prev_volume
  unfolding apply_market_impact
  impact_cases side quantity prev_volume price =
      elim (Bool-cases (prev_volume == 0 || (fl.le price nought || quantity == 0))) [
        | inl none_known ↦ inl (rw (apply_market_impact, none_known))
        | inr known ↦
            elim (Bool-cases (fl.le (fl.of_nat quantity ⊘ fl.of_nat prev_volume) (fl.dec 5 3))) [
              | inl small ↦ inl (rw (apply_market_impact, known, small))
              | inr large ↦ inr (ground arith, large)
            ]
      ]

  limit_path :
      (sd : Side) (limit_price : F) (bar : Quote F) (qty : ℕ)
      → (path_by_type OrderType.limit sd limit_price bar qty).aggressive ≡ false
  limit_path Side.buy limit_price bar qty = ground arith
  limit_path Side.sell limit_price bar qty = ground arith
  limit_path Side.other_side limit_price bar qty = ground arith

  -- The spread is not for limit orders.
  passive_limit :
      (order_type side : Text) (limit_price : F) (remaining : ℕ) (bar : Quote F) (rate : F)
      → order_type_of order_type ≡ OrderType.limit
      → (resolve_path_fill order_type side limit_price remaining bar rate).aggressive ≡ false
  unfolding resolve_path_fill
  passive_limit order_type side limit_price remaining bar rate e =
      elim (Bool-cases (remaining == 0)) [
        | inl z ↦ rw z
        | inr z ↦
            rw (z, e)
              (limit_path (side_of side) limit_price bar
                (participation_cap remaining bar.volume rate))
      ]

module _ {F : Type 0} ⦃fl : Float64 F⦄ (laws : IsFloat64 F) where
  price_of_slice :
      (o : OrderRow F) (path : PathResult F) (bar : Quote F) (prev_volume : ℕ) (ot : OrderType)
      → (ot ≡ OrderType.limit → path.aggressive ≡ false)
      → IsNoWorse laws ot (side_of o.side) (limit_px o) path.fill_price
      → IsNoWorse laws ot (side_of o.side) (limit_px o) (slice_px o path bar prev_volume)
        ⊎ IsLarge F path.fill_qty prev_volume
  unfolding slice_px
  price_of_slice o path bar prev_volume OrderType.limit passive good =
      let calm = passive refl in
      elim (impact_cases o.side path.fill_qty prev_volume path.fill_price) [
        | inl same ↦ rw (slice_px, calm, same) (inl good)
        | inr large ↦ inr large
      ]
  price_of_slice o path bar prev_volume _ passive good = inl tt

  known_side :
      (ot : OrderType) (sd : Side) (limit_price price : F)
      → IsNoWorse laws ot sd limit_price price
      → (ot ≢ OrderType.limit) ⊎ (sd ≢ Side.other_side)
  known_side OrderType.limit Side.other_side limit_price price bad = absurd bad
  known_side OrderType.limit Side.buy limit_price price good = inr (ground arith)
  known_side OrderType.limit Side.sell limit_price price good = inr (ground arith)
  known_side OrderType.market sd limit_price price good = inl (ground arith)
  known_side OrderType.stop sd limit_price price good = inl (ground arith)
  known_side OrderType.other_type sd limit_price price good = inl (ground arith)

  -- By the laws of float64, for an order whose limit is a number, a finite rate and a volume below 2^63: if the path
  -- fills, then the slice that tryFillHourly passes to fillBuy or fillSell has a positive quantity, which makes with
  -- what remains after it at most what was left of the order, and is at most the participation rate (10% if it is
  -- not positive) of the bar's volume. A limit order has a known side, and the price of its slice, after market
  -- impact, is no worse than its limit unless the slice is more than 0.5% of the volume of the previous trading
  -- day.
  pub slice_of_bounds :
      (bar_ts : Time) (o : OrderRow F) (next_match : Option Time) (bar : Quote F) (rate : F)
      (prev_volume : ℕ)
      → limit_px o ≼ limit_px o
      → IsFinite rate
      → bar.volume < 2 ^ 63
      → let path = resolve_path_fill o.order_type o.side (limit_px o) (working_qty o) bar rate in
        let s = slice_of bar_ts o next_match path bar prev_volume in
        path.decision ≡ FillDecision.fill_now
        → (0 < s.fill_qty)
          × (s.fill_qty + s.remaining_after ≤ working_qty o)
          × (fl.of_nat s.fill_qty ≼ effective_rate laws rate ⊗ fl.of_nat bar.volume)
          × ((order_type_of o.order_type ≢ OrderType.limit) ⊎ (side_of o.side ≢ Side.other_side))
          × (IsNoWorse laws (order_type_of o.order_type) (side_of o.side) (limit_px o) s.fill_px
              ⊎ IsLarge F s.fill_qty prev_volume)
  slice_of_bounds bar_ts o next_match bar rate prev_volume num fin small h =
      let (some_qty, at_most, share, good) =
        resolve_path_fill_bounds laws o.order_type o.side (limit_px o) (working_qty o) bar rate num
          fin small h in
      (
        some_qty,
        left_over (working_qty o) _ (is_some next_match) at_most,
        share,
        known_side (order_type_of o.order_type) (side_of o.side) (limit_px o) _ good,
        price_of_slice o _ bar prev_volume (order_type_of o.order_type)
            (passive_limit o.order_type o.side (limit_px o) (working_qty o) bar rate) good,
      )
