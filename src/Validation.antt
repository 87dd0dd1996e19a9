-- ===== src/Validation.antt =====
-- market-simulator/internal/validation/order.go
pub mod Accepted
use agentic_sim_trading.Common.{ℕ, not, ◌&&◌, ◌||◌, Option, none, some, [], if◌then◌else◌}
use agentic_sim_trading.Common.Int.{ℤ, pos, negsuc, leb_ℤ, ltb_ℤ}
use agentic_sim_trading.Common.Text.{Text, codes, text_eq, to_lower, trim_space}
use agentic_sim_trading.Float.{Float64, nought}
use agentic_sim_trading.Universe.{is_nifty50}

-- `ErrEmptySymbol` and the other errors
pub data OrderError : Type 0 where
  empty_symbol invalid_side invalid_qty invalid_order_type symbol_universe limit_price : OrderError

abbrev pub max_order_quantity : ℕ
max_order_quantity = 1_000_000

-- `ListedSymbol`
unfoldable pub listed_symbol : Text → Option OrderError
unfolding trim_space
listed_symbol symbol =
    if text_eq (trim_space symbol) []
    then some OrderError.empty_symbol
    else if is_nifty50 (trim_space symbol)
    then none
    else some OrderError.symbol_universe

-- the tests after the `switch`
unfoldable pub check_rest : (symbol sd : Text) → ℤ → Option OrderError
check_rest symbol sd quantity =
    if not (text_eq sd (codes "buy")) && not (text_eq sd (codes "sell"))
    then some OrderError.invalid_side
    else if leb_ℤ quantity (pos 0) || ltb_ℤ (pos max_order_quantity) quantity
    then some OrderError.invalid_qty
    else if is_nifty50 symbol
    then none
    else some OrderError.symbol_universe

module _ {F : Type 0} ⦃fl : Float64 F⦄ where
  abbrev pub check_price : Option F → Option OrderError
  check_price none = some OrderError.limit_price
  check_price (some p) = if fl.le p nought then some OrderError.limit_price else none

  -- the `switch ot`
  unfoldable pub check_type : Text → Option F → Option OrderError
  check_type ot price =
      if text_eq ot (codes "market")
      then none
      else if text_eq ot (codes "limit")
          || (text_eq ot (codes "stop") || text_eq ot (codes "stop_loss"))
      then check_price price
      else some OrderError.invalid_order_type

  -- `Order`; `none` is a nil error.
  unfoldable pub order :
      (symbol order_type side : Text) (quantity : ℤ) → Option F → Option OrderError
  unfolding trim_space to_lower check_type check_rest
  order symbol order_type side quantity price =
      if text_eq (trim_space symbol) []
      then some OrderError.empty_symbol
      else elim (check_type (to_lower (trim_space order_type)) price) [
        | some e ↦ some e
        | none ↦ check_rest (trim_space symbol) (to_lower (trim_space side)) quantity
      ]
