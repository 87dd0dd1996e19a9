-- ===== src/Examples/Trading.antt =====
-- Fills, prices and orders, run at numbers with nine decimals.
use agentic_sim_trading.Common.{
  ℕ, ◌+◌, ◌*◌, ◌/◌, ◌≤◌, ◌<◌, ◌≡◌, refl, ◌≢◌, ◌⊎◌, none, some, [], ◌∷◌, arith, ok,
}
use agentic_sim_trading.Common.Int.{ℤ, pos}
use agentic_sim_trading.Common.Text.{codes}
use agentic_sim_trading.Float.{◌≼◌, ◌⊗◌}
use agentic_sim_trading.Float.Fixed.{unit, fixed, fixed-IsFloat64}
use agentic_sim_trading.Market.Data.{
  Quote, Tables, next_trading_day, next_bar, prev_trading_day_bar,
}
use agentic_sim_trading.Market.Lookup.{IsNext, next_trading_day_lem}
use agentic_sim_trading.Fees.{sell_fees, buy_fees}
use agentic_sim_trading.Database.{OrderStatus, AgentStatus, OrderRow, Db}
use agentic_sim_trading.Orders.{mark_rejected, cancel_pending}
use agentic_sim_trading.Orders.Lifecycle.{Step, Reach, Extends, Reach-Extends}
use agentic_sim_trading.Orderbook.Rules.{Reason, order_type_of, side_of, concentration_exceeded}
use agentic_sim_trading.Portfolio.Tx.{
  portfolio_id_tx, get_cash_tx, load_holdings_tx, holding_qty_tx, reduce_holding_after_sell,
  set_cash_tx,
}
use agentic_sim_trading.Orderbook.Events.{Work}
use agentic_sim_trading.Orderbook.Fill.{
  Slice, fill_buy, fill_sell, portfolio_pv, prev_close, settle_buy, settle_sell,
}
use agentic_sim_trading.Orderbook.Path.{resolve_path_fill, participation_cap}
use agentic_sim_trading.Orders.{working_qty}
use agentic_sim_trading.Orderbook.Rules.{OrderType, Side}
use agentic_sim_trading.Orderbook.Hourly.{slice_of}
use agentic_sim_trading.Orderbook.SliceBounds.{IsLarge, slice_of_bounds}
use agentic_sim_trading.Orderbook.PathBounds.{IsNoWorse, effective_rate}
use agentic_sim_trading.Orderbook.Buys.{BuyOutcome, fill_buy-BuyOutcome}
use agentic_sim_trading.Orderbook.Sells.{SellOutcome, fill_sell-SellOutcome}

abbrev pub day : ℕ → ℕ
day n = n * 86400

abbrev pub bar_of : ℕ → Quote ℤ
bar_of n = record {
  symbol = codes "TCS";
  date = day n;
  ts = day n + 4 * 3600;
  open_price = pos (100 * unit);
  high = pos (104 * unit);
  low = pos (98 * unit);
  close = pos (101 * unit);
  volume = 5000;
}

abbrev pub tables : Tables ℤ
tables = record { ohlcv = bar_of 10 ∷ bar_of 11 ∷ bar_of 14 ∷ []; ohlcv_bars = bar_of 10 ∷ [] }

abbrev pub an_order : OrderRow ℤ
an_order = record {
  id = 5;
  simulation_id = 1;
  agent_id = 3;
  symbol = codes "TCS";
  order_type = codes "market";
  side = codes "buy";
  quantity = 10;
  price = none;
  status = OrderStatus.pending;
  match_on_date = day 11;
  match_on_ts = none;
  filled_quantity = 0;
  remaining_quantity = none;
  filled_price = none;
  filled_at = none;
  filled_at_ts = none;
  trade_value = none;
  fees = none;
  rejection_reason = none;
  created_at = day 10;
}

abbrev pub start_db : Db ℤ
start_db = record {
  portfolios =
      record {
        id = 7;
        simulation_id = 1;
        agent_id = 3;
        cash = pos (100_000 * unit);
        status = AgentStatus.active;
        consecutive_missed_ticks = 0;
        consecutive_4xx = 0;
      }
      ∷ [];
  holdings =
      record {
        portfolio_id = 7;
        symbol = codes "TCS";
        quantity = 12;
        avg_buy_price = pos (99 * unit);
      }
      ∷ [];
  orders = an_order ∷ [];
  snapshots = [];
}

abbrev pub work : Work ℤ
work = record { db = start_db; cache = []; payloads = [] }

abbrev pub slice : Slice ℤ
slice = record {
  fill_px = pos (100 * unit);
  fill_qty = 10;
  remaining_after = 0;
  fill_ts = day 11;
  next_match = none;
}

-- Day 12 and day 13 have no row.
next_day_after_a_gap : next_trading_day tables (day 11) ≡ ok (day 14)
unfolding next_trading_day
next_day_after_a_gap = refl

next_trading_day_example :
    IsNext (λ q. q.date) (day 11) tables.ohlcv (next_trading_day tables (day 11))
    × IsNext (λ q. q.ts) (day 11) tables.ohlcv_bars (next_bar tables (day 11))
next_trading_day_example = next_trading_day_lem tables (day 11)

a_buy_is_accepted : (fill_buy tables 1 (day 11) an_order slice work).0 ≡ Reason.fine
unfolding fill_buy portfolio_id_tx get_cash_tx portfolio_pv load_holdings_tx prev_close
    prev_trading_day_bar settle_buy buy_fees concentration_exceeded
a_buy_is_accepted = refl

fill_buy_example :
    let r = fill_buy tables 1 (day 11) an_order slice work in
    BuyOutcome 1 an_order slice work r.0 r.1
fill_buy_example = fill_buy-BuyOutcome tables 1 (day 11) an_order slice work

a_sell_is_accepted :
    (fill_sell 1 (day 11) an_order slice (sell_fees (pos (1000 * unit))) work).0 ≡ Reason.fine
unfolding fill_sell portfolio_id_tx holding_qty_tx settle_sell get_cash_tx reduce_holding_after_sell
    set_cash_tx
a_sell_is_accepted = refl

fill_sell_example :
    let br = sell_fees (pos (1000 * unit)) in
    let r = fill_sell 1 (day 11) an_order slice br work in
    SellOutcome 1 an_order slice br work r.0 r.1
fill_sell_example =
    fill_sell-SellOutcome 1 (day 11) an_order slice (sell_fees (pos (1000 * unit))) work
      (omega arith)

abbrev limit_order : OrderRow ℤ
limit_order = record an_order {
  order_type = codes "limit";
  quantity = 800;
  price = some (pos (99 * unit));
}

slice_of_example :
    let path =
      resolve_path_fill
        (codes "limit")
        (codes "buy")
        (pos (99 * unit))
        800
        (bar_of 10)
        (pos (unit / 10)) in
    let s = slice_of (day 10) limit_order (some (day 11)) path (bar_of 10) 1_000_000 in
    (0 < s.fill_qty)
    × (s.fill_qty + s.remaining_after ≤ 800)
    × (pos (s.fill_qty * unit)
        ≼ effective_rate fixed-IsFloat64 (pos (unit / 10)) ⊗ pos (5000 * unit))
    × ((order_type_of (codes "limit") ≢ OrderType.limit)
        ⊎ (side_of (codes "buy") ≢ Side.other_side))
    × (IsNoWorse fixed-IsFloat64
          (order_type_of (codes "limit"))
          (side_of (codes "buy"))
          (pos (99 * unit))
          s.fill_px
        ⊎ IsLarge ℤ s.fill_qty 1_000_000)
unfolding resolve_path_fill order_type_of side_of participation_cap working_qty
slice_of_example =
    slice_of_bounds fixed-IsFloat64 (day 10) limit_order (some (day 11)) (bar_of 10)
      (pos (unit / 10)) 1_000_000 refl refl (omega arith) refl

-- A rejection, and then a cancellation that comes too late.
abbrev two_steps :
    Reach start_db.orders
      (cancel_pending 1 5 (mark_rejected 5 Reason.insufficient_cash start_db.orders)).1
two_steps =
    Reach.next (Reach.next Reach.here (Step.reject 5 Reason.insufficient_cash)) (Step.cancel_in 1 5)

Reach-Extends_example :
    Extends start_db.orders
      (cancel_pending 1 5 (mark_rejected 5 Reason.insufficient_cash start_db.orders)).1
Reach-Extends_example = Reach-Extends two_steps
