-- ===== src/Orderbook/Attempts.antt =====
-- What `tryFillOrder` of market-simulator/internal/orderbook/engine.go does to the orders.
use agentic_sim_trading.Common.{
  ℕ, ◌≡◌, refl, sym, ◌≢◌, inl, inr, Option, none, arith, ltb, Bool-cases,
}
use mathlib.Core.Path.{subst}
use agentic_sim_trading.Orderbook.Recorded.{Recorded, fill_buy-Recorded, fill_sell-Recorded}
use agentic_sim_trading.Market.Data.{Tables}
use agentic_sim_trading.Orderbook.Rules.{Side, side_of}
use agentic_sim_trading.Orderbook.Events.{Screens}
use agentic_sim_trading.Orderbook.TryFill.{fill_at, try_fill_order}
use agentic_sim_trading.Market.Session.{Time}
use agentic_sim_trading.Market.Data.{Tables}
use agentic_sim_trading.Float.{Float64}
use agentic_sim_trading.Fees.{Breakdown}
use agentic_sim_trading.Database.{OrderRow, Db}
use agentic_sim_trading.Orders.{Orders, as_filled, as_sliced, mark_filled, apply_slice_fill}
use agentic_sim_trading.Orderbook.Rules.{Reason}
use agentic_sim_trading.Orderbook.Events.{Work}
use agentic_sim_trading.Orderbook.Fill.{Slice, record_fill, fill_buy, fill_sell, with_qty}
use agentic_sim_trading.Orderbook.Settled.{IsSettled, update-IsSettled}
use agentic_sim_trading.Orderbook.Ways.{try_fill_order-cases}

module _ {F : Type 0} ⦃fl : Float64 F⦄ (simulation_id : ℕ) (day : Time) where
  -- what an attempt to fill does to the orders, by the reason that it gives
  abbrev pub Tried : ℕ → Orders F → Reason → Orders F → Type 0
  Tried id t Reason.fine u = IsSettled simulation_id day id t u
  Tried id t _ u = u ≡ t

  -- an order that is filled to the last share
  record_fill-IsSettled :
      (o : OrderRow F) (qty left : ℕ) (px : F) (trade_date ts : Time) (next : Option Time)
      (br : Breakdown F) (value : F) (db : Db F) (t : Orders F)
      → left ≡ 0
      → next ≡ none
      → db.orders ≡ t
      → IsSettled simulation_id day o.id t
          (record_fill o qty left px trade_date ts next br value db).orders
  unfolding apply_slice_fill mark_filled
  record_fill-IsSettled o qty left px trade_date ts next br value db t whole last same =
      elim (Bool-cases (ltb 0 o.filled_quantity)) [
        | inl e ↦
            rw (whole, last, e, same)
              (update-IsSettled simulation_id day o.id
                (as_sliced qty 0 px trade_date ts none br value) (λ r. ground arith) t)
        | inr e ↦
            rw (whole, last, e, same)
              (update-IsSettled simulation_id day o.id (as_filled px trade_date br value)
                (λ r. ground arith) t)
      ]

  Recorded-Tried :
      (o : OrderRow F) (s : Slice F) (trade_date : Time) (db : Db F) (r : Reason) (db' : Db F)
      → s.remaining_after ≡ 0
      → s.next_match ≡ none
      → Recorded o s trade_date db r db'
      → Tried o.id db.orders r db'.orders
  Recorded-Tried o s trade_date db Reason.fine db' whole last (br, value, e) =
      subst (IsSettled simulation_id day o.id db.orders) (sym e) (
        record_fill-IsSettled o s.fill_qty s.remaining_after s.fill_px trade_date s.fill_ts
          s.next_match br value db db.orders whole last refl)
  Recorded-Tried o s trade_date db _ db' whole last e = e

  buy_whole :
      (tables : Tables F) (sim : ℕ) (trade_date : Time) (o : OrderRow F) (s : Slice F) (w : Work F)
      → s.remaining_after ≡ 0
      → s.next_match ≡ none
      → let r = fill_buy tables sim trade_date o s w in Tried o.id w.db.orders r.0 r.1.db.orders
  buy_whole tables sim trade_date o s w whole last =
      Recorded-Tried o (with_qty o s) trade_date w.db _ _ whole last
        (fill_buy-Recorded tables sim trade_date o s w)

  sell_whole :
      (sim : ℕ) (trade_date : Time) (o : OrderRow F) (s : Slice F) (br : Breakdown F) (w : Work F)
      → s.remaining_after ≡ 0
      → s.next_match ≡ none
      → let r = fill_sell sim trade_date o s br w in Tried o.id w.db.orders r.0 r.1.db.orders
  sell_whole sim trade_date o s br w whole last =
      Recorded-Tried o (with_qty o s) trade_date w.db _ _ whole last
        (fill_sell-Recorded sim trade_date o s br w)

  Tried-refused : (id : ℕ) (t : Orders F) (r : Reason) → r ≢ Reason.fine → Tried id t r t
  Tried-refused id t Reason.fine ne = absurd (ne refl)
  Tried-refused id t _ ne = refl

  fill_at-Tried :
      (tables : Tables F) (screens : Screens) (sim : ℕ) (trade_date : Time) (o : OrderRow F)
      (resolved : F) (w : Work F) (sd : Side)
      → side_of o.side ≡ sd
      → let r = fill_at tables screens sim trade_date o resolved w in
        Tried o.id w.db.orders r.0 r.1.db.orders
  unfolding fill_at
  fill_at-Tried tables screens sim trade_date o resolved w Side.buy e =
      rw (fill_at, e) (buy_whole tables sim trade_date o _ w refl refl)
  fill_at-Tried tables screens sim trade_date o resolved w Side.sell e =
      rw (fill_at, e) (sell_whole sim trade_date o _ _ w refl refl)
  fill_at-Tried tables screens sim trade_date o resolved w Side.other_side e = rw (fill_at, e) refl

  pub try_fill_order-Tried :
      (tables : Tables F) (screens : Screens) (sim : ℕ) (trade_date : Time) (o : OrderRow F)
      (w : Work F)
      → let r = try_fill_order tables screens sim trade_date o w in
        Tried o.id w.db.orders r.0 r.1.db.orders
  try_fill_order-Tried tables screens sim trade_date o w =
      try_fill_order-cases tables screens sim trade_date o w
        (λ r. Tried o.id w.db.orders r.0 r.1.db.orders) (Tried-refused o.id w.db.orders)
        (λ resolved. fill_at-Tried tables screens sim trade_date o resolved w (side_of o.side) refl)
