-- ===== src/Orders/Fills.antt =====
-- `MarkFilled` and `ApplySliceFill` of market-simulator/internal/orders/store.go.
use agentic_sim_trading.Common.{ℕ, ◌+◌, Option, none, some, ◌==◌, if◌then◌else◌, update}
use agentic_sim_trading.Market.Session.{Time, truncate_day}
use agentic_sim_trading.Float.{Float64, nought}
use agentic_sim_trading.Fees.{Breakdown}
use agentic_sim_trading.Database.{OrderStatus, OrderRow}
use agentic_sim_trading.Orders.Statements.{Orders, pending_with_id}

-- COALESCE($8, match_on_ts)
abbrev or_else : Option Time → Option Time → Option Time
or_else none t = t
or_else (some n) t = some n

module _ {F : Type 0} ⦃fl : Float64 F⦄ where
  abbrev pub store_fees : Breakdown F → Breakdown F
  store_fees b = record {
    brokerage = fl.numeric b.brokerage;
    stt = fl.numeric b.stt;
    gst = fl.numeric b.gst;
    exchange = fl.numeric b.exchange;
    sebi = fl.numeric b.sebi;
    stamp = fl.numeric b.stamp;
    total = fl.numeric b.total;
  }

  abbrev pub no_fees : Breakdown F
  no_fees = record {
    brokerage = nought;
    stt = nought;
    gst = nought;
    exchange = nought;
    sebi = nought;
    stamp = nought;
    total = nought;
  }

  -- COALESCE(x, 0)
  abbrev pub coalesce : Option F → F
  coalesce none = nought
  coalesce (some x) = x

  abbrev coalesce_fees : Option (Breakdown F) → Breakdown F
  coalesce_fees none = no_fees
  coalesce_fees (some b) = b

  abbrev pub add_fees : Breakdown F → Breakdown F → Breakdown F
  add_fees a b = record {
    brokerage = fl.sql_add a.brokerage b.brokerage;
    stt = fl.sql_add a.stt b.stt;
    gst = fl.sql_add a.gst b.gst;
    exchange = fl.sql_add a.exchange b.exchange;
    sebi = fl.sql_add a.sebi b.sebi;
    stamp = fl.sql_add a.stamp b.stamp;
    total = fl.sql_add a.total b.total;
  }

  abbrev pub as_filled : F → Time → Breakdown F → F → OrderRow F → OrderRow F
  as_filled fill_price filled_day br trade_value r = record r {
    status = OrderStatus.filled;
    filled_price = some (fl.numeric fill_price);
    filled_at = some (truncate_day filled_day);
    filled_at_ts = some filled_day;
    filled_quantity = r.quantity;
    remaining_quantity = some 0;
    trade_value = some (fl.numeric trade_value);
    fees = some (store_fees br);
    rejection_reason = none;
  }

  unfoldable pub mark_filled : ℕ → F → Time → Breakdown F → F → Orders F → Orders F
  mark_filled id fill_price filled_day br trade_value =
      update (pending_with_id id) (as_filled fill_price filled_day br trade_value)

  -- the volume-weighted price of the slices so far, by the CASE expression
  abbrev slice_price : OrderRow F → ℕ → F → F
  slice_price r fill_qty fill_price =
      let so_far = r.filled_quantity + fill_qty in
      if so_far == 0
      then fill_price
      else fl.sql_div
          (fl.sql_add (fl.sql_mul (coalesce r.filled_price) (fl.of_nat r.filled_quantity))
            (fl.sql_mul fill_price (fl.of_nat fill_qty)))
          (fl.of_nat so_far)

  abbrev pub as_sliced :
      (fill_qty remaining_after : ℕ)
      → F
      → (filled_day filled_ts : Time) → Option Time
      → Breakdown F
      → F
      → OrderRow F
      → OrderRow F
  as_sliced fill_qty remaining_after fill_price filled_day filled_ts next_match_ts br trade_value
        r =
      record r {
        status = if remaining_after == 0 then OrderStatus.filled else OrderStatus.pending;
        filled_quantity = r.filled_quantity + fill_qty;
        remaining_quantity = some remaining_after;
        filled_price = some (fl.numeric (slice_price r fill_qty fill_price));
        filled_at = some (truncate_day filled_day);
        filled_at_ts = some filled_ts;
        match_on_ts = or_else next_match_ts r.match_on_ts;
        fees = some (store_fees (add_fees (coalesce_fees r.fees) br));
        trade_value = some (fl.numeric (fl.sql_add (coalesce r.trade_value) trade_value));
        rejection_reason = none;
      }

  unfoldable pub apply_slice_fill :
      (id fill_qty remaining_after : ℕ)
      → F
      → (filled_day filled_ts : Time) → Option Time
      → Breakdown F
      → F
      → Orders F
      → Orders F
  apply_slice_fill id fill_qty remaining_after fill_price filled_day filled_ts next_match_ts br
        trade_value =
      update (pending_with_id id) (
        as_sliced fill_qty remaining_after fill_price filled_day filled_ts next_match_ts br
          trade_value)
