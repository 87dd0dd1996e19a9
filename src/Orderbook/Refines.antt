-- ===== src/Orderbook/Refines.antt =====
-- The daily matching of market-simulator/internal/orderbook/engine.go makes covered trades, and moves no other money or share.
use agentic_sim_trading.Common.{
  All, Bool-cases, List, Option-cases, [], arith, inl, inr, none, refl, sym, ℕ, ◌<◌, ◌==◌, ◌∷◌, ◌≡◌,
}
use mathlib.Core.Path.{subst}
use agentic_sim_trading.Market.Session.{Time}
use agentic_sim_trading.Market.Data.{Tables, next_trading_day}
use agentic_sim_trading.Float.{Float64, ◌⊗◌}
use agentic_sim_trading.Fees.{sell_fees}
use agentic_sim_trading.Database.{Db, OrderRow}
use agentic_sim_trading.Orderbook.Rules.{apply_market_impact, Reason, Side, side_of}
use agentic_sim_trading.Orderbook.Events.{Screens, Work}
use agentic_sim_trading.Orderbook.Ways.{try_fill_order-cases}
use agentic_sim_trading.Orderbook.Fill.{fill_buy, Slice, fill_sell, with_qty}
use agentic_sim_trading.Orderbook.TryFill.{fill_at, try_fill_order}
use agentic_sim_trading.Orderbook.Buys.{BuyOutcome, fill_buy-BuyOutcome}
use agentic_sim_trading.Orderbook.Sells.{SellOutcome, fill_sell-SellOutcome}
use agentic_sim_trading.Orderbook.Ledger.{
  Bought-buy, Ledger, Sold-sell, Trade, Trades, Trades-trans, ledger_of,
}
use agentic_sim_trading.Common.Assoc.{lookup_or}
use agentic_sim_trading.Portfolio.Tx.{get_cash_tx, holding_qty_tx}
use agentic_sim_trading.Orderbook.Day.{
  after_try_fill, match_order, match_orders, reject_order, usable,
}

module _ {F : Type 0} ⦃fl : Float64 F⦄ where
  -- the ledger of one state comes from that of another by covered trades
  abbrev pub Traded : Work F → Work F → Type 0
  Traded w w' = Trades (ledger_of w.db) (ledger_of w'.db)

  abbrev value_of : Slice F → F
  value_of s = fl.of_nat s.fill_qty ⊗ s.fill_px

  untouched : (w w' : Work F) → w'.db ≡ w.db → Traded w w'
  untouched w w' e =
      subst (λ (db : Db F). Trades (ledger_of w.db) (ledger_of db)) (sym e) Trades.no_trade

  buy-Traded :
      (sim : ℕ) (o : OrderRow F) (s : Slice F) (w : Work F) (r : Reason) (w' : Work F)
      → BuyOutcome sim o s w r w'
      → Traded w w'
  unfolding ledger_of
  buy-Traded sim o s w Reason.fine w' (pid, cash, portfolio, before, b) =
      let s' = with_qty o s in
      subst (λ (l : Ledger F). Trades (ledger_of w.db) l)
        (sym (Bought-buy pid o.symbol s' cash w.db w'.db b))
        (Trades.more Trades.no_trade
          (Trade.bought pid o.symbol s'.fill_qty s'.fill_px cash before b.covered))
  buy-Traded sim o s w _ w' same = untouched w w' same.0

  sell-Traded :
      (sim : ℕ) (o : OrderRow F) (s : Slice F) (w : Work F) (r : Reason) (w' : Work F)
      → SellOutcome sim o s (sell_fees (value_of (with_qty o s))) w r w'
      → Traded w w'
  unfolding ledger_of
  sell-Traded sim o s w Reason.fine w' (pid, cash, portfolio, before, b) =
      let s' = with_qty o s in
      let sale = Sold-sell pid o.symbol s' (sell_fees (value_of s')) cash w.db w'.db b in
      subst (λ (l : Ledger F). Trades (ledger_of w.db) l) (sym sale.0)
        (Trades.more Trades.no_trade
          (Trade.sold pid o.symbol s'.fill_qty s'.fill_px cash before sale.1))
  sell-Traded sim o s w _ w' same = untouched w w' same.0

  whole_quantity :
      (o : OrderRow F) (s : Slice F)
      → 0 < o.quantity
      → s.fill_qty ≡ o.quantity
      → (with_qty o s).fill_qty ≡ o.quantity
  whole_quantity o s positive same = elim (Bool-cases (s.fill_qty == 0)) [
    | inl e ↦ absurd (ground arith)
    | inr e ↦ rw e same
  ]

  -- `fillSell` of a whole order, with the fees of its value
  sell_now :
      (sim : ℕ) (trade_date : Time) (o : OrderRow F) (s : Slice F) (w : Work F)
      → 0 < o.quantity
      → s.fill_qty ≡ o.quantity
      → Traded w (fill_sell sim trade_date o s (sell_fees (fl.of_nat o.quantity ⊗ s.fill_px)) w).1
  sell_now sim trade_date o s w positive same =
      let whole = whole_quantity o s positive same in
      let some_share : 0 < (with_qty o s).fill_qty = ground arith in
      subst
        (λ (n : ℕ).
          Traded w (fill_sell sim trade_date o s (sell_fees (fl.of_nat n ⊗ s.fill_px)) w).1)
        whole
        (sell-Traded sim o s w _ _ (
          fill_sell-SellOutcome sim trade_date o s (sell_fees (value_of (with_qty o s))) w
            some_share))

  buy_now :
      (tables : Tables F) (sim : ℕ) (trade_date : Time) (o : OrderRow F) (s : Slice F) (w : Work F)
      → Traded w (fill_buy tables sim trade_date o s w).1
  buy_now tables sim trade_date o s w =
      buy-Traded sim o s w _ _ (fill_buy-BuyOutcome tables sim trade_date o s w)

  fill_at-Traded :
      (tables : Tables F) (screens : Screens) (sim : ℕ) (trade_date : Time) (o : OrderRow F)
      (resolved : F) (w : Work F) (sd : Side)
      → 0 < o.quantity
      → side_of o.side ≡ sd
      → Traded w (fill_at tables screens sim trade_date o resolved w).1
  unfolding fill_at
  fill_at-Traded tables screens sim trade_date o resolved w Side.buy positive e =
      let s : Slice F = record {
        fill_px =
            apply_market_impact o.side o.quantity (lookup_or 0 o.symbol screens.prev_vol) resolved;
        fill_qty = o.quantity;
        remaining_after = 0;
        fill_ts = trade_date;
        next_match = none;
      } in
      rw (fill_at, e) (buy_now tables sim trade_date o s w)
  fill_at-Traded tables screens sim trade_date o resolved w Side.sell positive e =
      let s : Slice F = record {
        fill_px =
            apply_market_impact o.side o.quantity (lookup_or 0 o.symbol screens.prev_vol) resolved;
        fill_qty = o.quantity;
        remaining_after = 0;
        fill_ts = trade_date;
        next_match = none;
      } in
      rw (fill_at, e) (sell_now sim trade_date o s w positive refl)
  fill_at-Traded tables screens sim trade_date o resolved w Side.other_side positive e =
      rw (fill_at, e) Trades.no_trade

  try_fill_order-Traded :
      (tables : Tables F) (screens : Screens) (sim : ℕ) (trade_date : Time) (o : OrderRow F)
      (w : Work F)
      → 0 < o.quantity
      → Traded w (try_fill_order tables screens sim trade_date o w).1
  try_fill_order-Traded tables screens sim trade_date o w positive =
      try_fill_order-cases tables screens sim trade_date o w (λ r. Traded w r.1)
        (λ reason refused. Trades.no_trade)
        (λ resolved.
          fill_at-Traded tables screens sim trade_date o resolved w (side_of o.side) positive refl)

  -- What follows an attempt changes no more than the orders.
  settles :
      (tables : Tables F) (sim : ℕ) (trade_date : Time) (o : OrderRow F) (reason : Reason)
      (w w' : Work F)
      → Traded w w'
      → Traded w (after_try_fill tables sim trade_date o reason w')
  unfolding after_try_fill reject_order ledger_of get_cash_tx holding_qty_tx
  settles tables sim trade_date o Reason.defer w w' traded =
      elim (Option-cases (usable (next_trading_day tables trade_date))) [
        | inl n ↦ rw (after_try_fill, n) traded
        | inr (next, n) ↦ rw (after_try_fill, n) traded
      ]
  settles tables sim trade_date o Reason.fine w w' traded = traded
  settles tables sim trade_date o _ w w' traded = traded

  -- Orders that each ask for at least one share are matched by trades that are covered: whatever the screens and the
  -- cache, the ledger of cash and holdings after ProcessSimulationDay's loop over them comes from the one before by
  -- purchases that the portfolio's cash covers and sales of shares that it holds, one after the other, each for the
  -- value at one price with the fees of that value.
  pub match_orders-Trades :
      (tables : Tables F) (screens : Screens) (sim : ℕ) (trade_date : Time) (os : List (OrderRow F))
      (w : Work F)
      → All (λ o. 0 < o.quantity) os
      → Trades (ledger_of w.db) (ledger_of (match_orders tables screens sim trade_date os w).db)
  unfolding match_orders match_order
  match_orders-Trades tables screens sim trade_date [] w h = Trades.no_trade
  match_orders-Trades tables screens sim trade_date (o ∷ os) w h =
      let r = try_fill_order tables screens sim trade_date o w in
      Trades-trans
        (settles tables sim trade_date o r.0 w r.1
          (try_fill_order-Traded tables screens sim trade_date o w h.0))
        (match_orders-Trades tables screens sim trade_date os
          (match_order tables screens sim trade_date o w) h.1)
