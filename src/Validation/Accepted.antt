-- ===== src/Validation/Accepted.antt =====
-- Which orders pass the checks, in the terms of the matching engine.
use agentic_sim_trading.Common.{◌≤◌, ◌<◌, ◌≡◌, ◌↔◌, true, false, Option, none, some, [], arith}
use agentic_sim_trading.Common.Int.{ℤ, pos, negsuc}
use agentic_sim_trading.Common.Text.{Text, text_eq, trim_space}
use agentic_sim_trading.Float.{Float64, nought}
use agentic_sim_trading.Universe.{is_nifty50}
use agentic_sim_trading.Orderbook.Rules.{normalize, Side, OrderType, side_of, order_type_of}
use agentic_sim_trading.Validation.{check_price, check_type, check_rest, order, max_order_quantity}

abbrev pub IsAmount : ℤ → Type 0
IsAmount (pos n) = (0 < n) × (n ≤ max_order_quantity)
IsAmount (negsuc n) = ⊥

abbrev pub IsKnownSide : Side → Type 0
IsKnownSide Side.buy = Unit
IsKnownSide Side.sell = Unit
IsKnownSide Side.other_side = ⊥

check_rest_iff :
    (symbol side : Text) (quantity : ℤ)
    → (check_rest symbol (normalize side) quantity ≡ none)
      ↔ (IsKnownSide (side_of side) × IsAmount quantity × (is_nifty50 symbol ≡ true))
unfolding check_rest side_of
check_rest_iff symbol side (pos n) = ground arith
check_rest_iff symbol side (negsuc n) = ground arith

module _ {F : Type 0} ⦃fl : Float64 F⦄ where
  abbrev pub IsPositive : Option F → Type 0
  IsPositive none = ⊥
  IsPositive (some p) = fl.le p nought ≡ false

  -- the engine knows the type, and a limit or stop order has a positive price
  abbrev pub IsPriced : OrderType → Option F → Type 0
  IsPriced OrderType.market price = Unit
  IsPriced OrderType.limit price = IsPositive price
  IsPriced OrderType.stop price = IsPositive price
  IsPriced OrderType.other_type price = ⊥

  check_price_iff : (price : Option F) → (check_price price ≡ none) ↔ IsPositive price
  check_price_iff none = ground arith
  check_price_iff (some p) = ground arith

  check_type_iff :
      (order_type : Text) (price : Option F)
      → (check_type (normalize order_type) price ≡ none) ↔ IsPriced (order_type_of order_type) price
  unfolding check_type order_type_of
  check_type_iff order_type price = ground (arith, check_price_iff price)

  -- `Order` accepts exactly the orders that name a stock of the universe, are of a type and on a side that the engine
  -- knows, have a quantity from 1 to 1,000,000, and, if limit or stop orders, a positive price.
  pub order_iff :
      (symbol order_type side : Text) (quantity : ℤ) (price : Option F)
      → (order symbol order_type side quantity price ≡ none) ↔ (
          (text_eq (trim_space symbol) [] ≡ false)
          × IsPriced (order_type_of order_type) price
          × IsKnownSide (side_of side)
          × IsAmount quantity
          × (is_nifty50 (trim_space symbol) ≡ true))
  unfolding order
  order_iff symbol order_type side quantity price =
      let t = check_type_iff order_type price in
      let r = check_rest_iff (trim_space symbol) side quantity in ground (arith, t, r)
