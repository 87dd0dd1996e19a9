-- ===== src/Orderbook/LastSlice.antt =====
-- What `fillBuy` and `fillSell` store of an order of which nothing is left.
use agentic_sim_trading.Common.{
  ℕ, ◌+◌, ◌<◌, ◌≡◌, refl, sym, ap, ◌∙◌, inl, inr, Bool, true, false, Option, none, some, [], ◌∷◌,
  arith, ◌==◌, if◌then◌else◌, Bool-cases, find?, ok,
}
use agentic_sim_trading.Common.Assoc.{lookup_or}
use agentic_sim_trading.Market.Data.{Quote, Tables}
use agentic_sim_trading.Portfolio.Tx.{portfolio_id_tx, holding_qty_tx}
use agentic_sim_trading.Orderbook.Rules.{Reason, Side, side_of}
use agentic_sim_trading.Orderbook.Path.{PathResult}
use agentic_sim_trading.Orderbook.Events.{Work, Screens}
use agentic_sim_trading.Orderbook.Fill.{Slice, with_qty}
use agentic_sim_trading.Orderbook.Buys.{BuyOutcome, fill_buy-BuyOutcome}
use agentic_sim_trading.Orderbook.Sells.{SellOutcome, fill_sell-SellOutcome}
use agentic_sim_trading.Orderbook.Recorded.{Recorded, fill_buy-Recorded, fill_sell-Recorded}
use agentic_sim_trading.Orderbook.Hourly.{slice_of, fill_slice, hourly_sell_fees}
use agentic_sim_trading.Float.{Float64}
use agentic_sim_trading.Market.Session.{Time}
use agentic_sim_trading.Fees.{Breakdown}
use agentic_sim_trading.Database.{OrderStatus, is_pending, OrderRow, Db}
use agentic_sim_trading.Orders.{Orders, mark_filled, as_filled}

-- what becomes of the shares that are held, by the side
abbrev pub IsMoved : Side → ℕ → (before after : ℕ) → Type 0
IsMoved Side.buy qty before after = after ≡ before + qty
IsMoved Side.sell qty before after = after + qty ≡ before
IsMoved Side.other_side qty before after = ⊥

none_next : (b : Bool) → ◌≡◌ {A = Option Time} (if b then none else none) none
none_next true = refl
none_next false = refl

module _ {F : Type 0} ⦃fl : Float64 F⦄ where
  abbrev pub order_with : ℕ → Orders F → Option (OrderRow F)
  order_with id t = find? (λ r. r.id == id) t

  as_filled-find :
      (id : ℕ) (price : F) (day : Time) (br : Breakdown F) (value : F) (t : Orders F)
      (r : OrderRow F)
      → order_with id t ≡ some r
      → is_pending r.status ≡ true
      → order_with id (mark_filled id price day br value t) ≡ some (as_filled price day br value r)
  unfolding mark_filled
  as_filled-find id price day br value [] r e p = cc
  as_filled-find id price day br value (x ∷ t) r e p = elim (Bool-cases (x.id == id)) [
    | inl here ↦
        let same : x ≡ r = ground arith in
        let open_row : is_pending x.status ≡ true =
          ap (λ (y : OrderRow F). is_pending y.status) same ∙ p in
        rw (here, open_row, here)
          (ap (λ (y : OrderRow F). some (as_filled price day br value y)) same)
    | inr there ↦ rw (there, there) (as_filled-find id price day br value t r (rw there at e) p)
  ]

  -- the row is filled in the whole quantity of the order `r`
  abbrev pub IsWhole : ℕ → OrderRow F → Db F → Type 0
  IsWhole id r db =
      (r' : OrderRow F) × (order_with id db.orders ≡ some r')
      × (r'.status ≡ OrderStatus.filled)
      × (r'.filled_quantity ≡ r.quantity)

  abbrev pub SharesMoved : ℕ → OrderRow F → ℕ → (sd : Side) → Work F → Work F → Type 0
  SharesMoved simulation_id o qty sd w w' =
      (pid : ℕ) × (portfolio_id_tx simulation_id o.agent_id w.db ≡ ok pid)
      × IsMoved sd qty (holding_qty_tx pid o.symbol w.db) (holding_qty_tx pid o.symbol w'.db)

  Recorded-IsWhole :
      (o r : OrderRow F) (s : Slice F) (day : Time) (db db' : Db F) (reason : Reason)
      → s.remaining_after ≡ 0
      → s.next_match ≡ none
      → o.filled_quantity ≡ 0
      → order_with o.id db.orders ≡ some r
      → is_pending r.status ≡ true
      → reason ≡ Reason.fine
      → Recorded o s day db reason db'
      → IsWhole o.id r db'
  Recorded-IsWhole o r s day db db' Reason.fine last no_next unfilled e p fine (br, value, same) =
      let stored : db'.orders ≡ mark_filled o.id s.fill_px day br value db.orders =
        rw (last, no_next, unfilled) at same in
      (
        as_filled s.fill_px day br value r,
        ap (order_with o.id) stored ∙ as_filled-find o.id s.fill_px day br value db.orders r e p,
        refl,
        refl,
      )
  Recorded-IsWhole o r s day db db' _ last no_next unfilled e p fine same = absurd (ground arith)

  traded_quantity :
      (o : OrderRow F) (s : Slice F) → 0 < s.fill_qty → (with_qty o s).fill_qty ≡ s.fill_qty
  traded_quantity o s positive = elim (Bool-cases (s.fill_qty == 0)) [
    | inl z ↦ absurd (ground arith)
    | inr nz ↦ rw nz
  ]

  bought_shares :
      (simulation_id : ℕ) (o : OrderRow F) (s : Slice F) (w w' : Work F) (reason : Reason)
      → 0 < s.fill_qty
      → reason ≡ Reason.fine
      → BuyOutcome simulation_id o s w reason w'
      → SharesMoved simulation_id o s.fill_qty Side.buy w w'
  bought_shares simulation_id o s w w' Reason.fine positive fine (pid, cash, mine, before, b) = (
    pid,
    mine,
    b.received ∙ ap (λ n. holding_qty_tx pid o.symbol w.db + n) (traded_quantity o s positive),
  )
  bought_shares simulation_id o s w w' _ positive fine same = absurd (ground arith)

  sold_shares :
      (simulation_id : ℕ) (o : OrderRow F) (s : Slice F) (br : Breakdown F) (w w' : Work F)
      (reason : Reason)
      → 0 < s.fill_qty
      → reason ≡ Reason.fine
      → SellOutcome simulation_id o s br w reason w'
      → SharesMoved simulation_id o s.fill_qty Side.sell w w'
  sold_shares simulation_id o s br w w' Reason.fine positive fine (pid, cash, mine, before, b) = (
    pid,
    mine,
    ap (λ n. holding_qty_tx pid o.symbol w'.db + n) (sym (traded_quantity o s positive)) ∙ b.given,
  )
  sold_shares simulation_id o s br w w' _ positive fine same = absurd (ground arith)

  abbrev LastBar : ℕ → OrderRow F → OrderRow F → ℕ → Side → Work F → Reason × Work F → Type 0
  LastBar simulation_id o r qty sd w x =
      x.0 ≡ Reason.fine → IsWhole o.id r x.1.db × SharesMoved simulation_id o qty sd w x.1

  fill_slice-LastBar :
      (tables : Tables F) (screens : Screens) (simulation_id : ℕ) (bar_ts day : Time)
      (o r : OrderRow F) (path : PathResult F) (bar : Quote F) (w : Work F) (sd : Side)
      → o.filled_quantity ≡ 0
      → 0 < path.fill_qty
      → order_with o.id w.db.orders ≡ some r
      → is_pending r.status ≡ true
      → side_of o.side ≡ sd
      → LastBar simulation_id o r path.fill_qty sd w
          (fill_slice tables screens simulation_id bar_ts day o none path bar w)
  unfolding fill_slice
  fill_slice-LastBar tables screens simulation_id bar_ts day o r path bar w Side.buy unfilled
        positive e p sd =
      let s = slice_of bar_ts o none path bar (lookup_or 0 o.symbol screens.prev_vol) in
      rw (fill_slice, sd)
        (λ fine. (
          Recorded-IsWhole o r (with_qty o s) day w.db _ _ refl (none_next _) unfilled e p fine
              (fill_buy-Recorded tables simulation_id day o s w),
          bought_shares simulation_id o s w _ _ positive fine
              (fill_buy-BuyOutcome tables simulation_id day o s w),
        ))
  fill_slice-LastBar tables screens simulation_id bar_ts day o r path bar w Side.sell unfilled
        positive e p sd =
      let s = slice_of bar_ts o none path bar (lookup_or 0 o.symbol screens.prev_vol) in
      let br = hourly_sell_fees simulation_id day o path.fill_qty s.fill_px w.db in
      let traded : 0 < (with_qty o s).fill_qty = ground (arith, traded_quantity o s positive) in
      rw (fill_slice, sd)
        (λ fine. (
          Recorded-IsWhole o r (with_qty o s) day w.db _ _ refl (none_next _) unfilled e p fine
              (fill_sell-Recorded simulation_id day o s br w),
          sold_shares simulation_id o s br w _ _ positive fine
              (fill_sell-SellOutcome simulation_id day o s br w traded),
        ))
  fill_slice-LastBar tables screens simulation_id bar_ts day o r path bar w Side.other_side unfilled
        positive e p sd =
      rw (fill_slice, sd) (λ fine. absurd (ground arith))

  -- On the last bar of a session, where a path fills a positive quantity of an order whose row is pending and of which
  -- nothing was filled before, and the fill is accepted: the shares that the agent holds move by the path's quantity,
  -- but the row is stored as filled in its whole quantity.
  pub last_bar_fill :
      (tables : Tables F) (screens : Screens) (simulation_id : ℕ) (bar_ts day : Time)
      (o r : OrderRow F) (path : PathResult F) (bar : Quote F) (w : Work F)
      → o.filled_quantity ≡ 0
      → 0 < path.fill_qty
      → order_with o.id w.db.orders ≡ some r
      → is_pending r.status ≡ true
      → let x = fill_slice tables screens simulation_id bar_ts day o none path bar w in
        x.0 ≡ Reason.fine
        → IsWhole o.id r x.1.db × SharesMoved simulation_id o path.fill_qty (side_of o.side) w x.1
  last_bar_fill tables screens simulation_id bar_ts day o r path bar w unfilled positive e p =
      fill_slice-LastBar tables screens simulation_id bar_ts day o r path bar w (side_of o.side)
        unfilled positive e p refl
