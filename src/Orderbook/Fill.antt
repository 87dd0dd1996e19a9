-- ===== src/Orderbook/Fill.antt =====
-- `prevClose`, `portfolioPV`, `fillBuy` and `fillSell` of
-- market-simulator/internal/orderbook/engine.go.
use agentic_sim_trading.Common.{
  is_some, ℕ, ◌+◌, ◌||◌, Option, none, some, List, [], ◌∷◌, ltb, ◌==◌, if◌then◌else◌, Result, ok,
  err, ◌>>=◌,
}
use agentic_sim_trading.Common
use agentic_sim_trading.Common.Text.{Text, text_eq}
use agentic_sim_trading.Common.Assoc.{lookup, assign}
use agentic_sim_trading.Market.Session.{Time}
use agentic_sim_trading.Market.Data.{Tables, prev_trading_day_bar}
use agentic_sim_trading.Float.{Float64, ◌⊕◌, ◌⊖◌, ◌⊗◌, nought}
use agentic_sim_trading.Fees.{Breakdown, buy_fees, total_debit, total_credit}
use agentic_sim_trading.Database.{HoldingRow, OrderRow, Db}
use agentic_sim_trading.Orders.{working_qty, mark_filled, apply_slice_fill}
use agentic_sim_trading.Portfolio.Tx.{
  portfolio_id_tx, get_cash_tx, set_cash_tx, load_holdings_tx, holding_qty_tx,
  upsert_holding_after_buy, reduce_holding_after_sell,
}
use agentic_sim_trading.Orderbook.Rules.{Reason, Side, concentration_exceeded}
use agentic_sim_trading.Orderbook.Events.{order_filled, Work, emit}

-- `prevCloseCache`
abbrev pub Cache : Type 0 → Type 0
Cache F = List (Text × F)

-- What a fill is told: price, quantity, what is left, the time, and the next bar.
pub record Slice (F : Type 0) : Type 0 where
  pub fill_px : F
  pub fill_qty : ℕ
  pub remaining_after : ℕ
  pub fill_ts : Time
  pub next_match : Option Time

module _ {F : Type 0} ⦃fl : Float64 F⦄ where
  -- A symbol with no earlier bar counts as 0, and is cached as such.
  unfoldable pub prev_close : Tables F → Text → Time → Cache F → Result (F × Cache F)
  prev_close tables symbol trade_date cache = elim (lookup symbol cache) [
    | some x ↦ ok (x, cache)
    | none ↦ elim (prev_trading_day_bar tables symbol trade_date) [
      | ok bar ↦ ok (bar.close, assign symbol bar.close cache)
      | err Common.Error.no_rows ↦ ok (nought, assign symbol nought cache)
      | err e ↦ err e
    ]
  ]

  -- the loop of `portfolioPV`
  unfoldable pub portfolio_pv :
      Tables F → Time → F → List (HoldingRow F) → Cache F → Result (F × Cache F)
  portfolio_pv tables trade_date v [] cache = ok (v, cache)
  portfolio_pv tables trade_date v (h ∷ hs) cache =
      prev_close tables h.symbol trade_date cache >>= λ c.
      portfolio_pv tables trade_date (v ⊕ fl.of_nat h.quantity ⊗ c.0) hs c.1

  -- `holdings[symbol].Quantity`, 0 for a missing key
  abbrev pub quantity_of : Text → List (HoldingRow F) → ℕ
  quantity_of symbol [] = 0
  quantity_of symbol (h ∷ hs) =
      if text_eq h.symbol symbol then h.quantity else quantity_of symbol hs

  -- `ApplySliceFill` where something is left or was filled before, else `MarkFilled`
  abbrev pub record_fill :
      OrderRow F
      → (fill_qty remaining_after : ℕ) → F
      → (trade_date fill_ts : Time) → Option Time
      → Breakdown F
      → F
      → Db F
      → Db F
  record_fill o fill_qty remaining_after fill_px trade_date fill_ts next_match br trade_val db =
      record db {
        orders =
            if ltb 0 remaining_after || (is_some next_match || ltb 0 o.filled_quantity)
            then apply_slice_fill o.id fill_qty remaining_after fill_px trade_date fill_ts
                next_match br trade_val db.orders
            else mark_filled o.id fill_px trade_date br trade_val db.orders;
      }

  -- `fillBuy` from the test of the cash on
  unfoldable pub settle_buy :
      ℕ
      → Time
      → OrderRow F
      → Slice F
      → (pid : ℕ) → (cash pv prev_sym : F) → ℕ
      → Work F
      → Reason × Work F
  settle_buy simulation_id trade_date o s pid cash pv prev_sym held w =
      let trade_val = fl.of_nat s.fill_qty ⊗ s.fill_px in
      let br = buy_fees trade_val in
      let debit = total_debit br trade_val in
      if fl.lt cash debit
      then (Reason.insufficient_cash, w)
      else let exposure = fl.of_nat (held + s.fill_qty) ⊗ prev_sym in
        if concentration_exceeded exposure pv
        then (Reason.concentration_limit_exceeded, w)
        else let db = set_cash_tx pid (cash ⊖ debit) w.db in
          let db' = upsert_holding_after_buy pid o.symbol s.fill_qty s.fill_px db in
          (
            Reason.fine,
            emit
                (order_filled (record {
                  order_id = o.id;
                  simulation_id = simulation_id;
                  agent_id = o.agent_id;
                  symbol = o.symbol;
                  side = Side.buy;
                  quantity = s.fill_qty;
                  filled_price = s.fill_px;
                  fees = br;
                  trade_value = trade_val;
                  net_credit = none;
                  match_on_date = trade_date;
                  remaining = s.remaining_after;
                }))
                (record w {
                  db =
                      record_fill o s.fill_qty s.remaining_after s.fill_px trade_date s.fill_ts
                        s.next_match br trade_val db';
                }),
          )

  -- `if fillQty <= 0 { fillQty = o.WorkingQty() }`
  abbrev pub with_qty : OrderRow F → Slice F → Slice F
  with_qty o s = record s { fill_qty = if s.fill_qty == 0 then working_qty o else s.fill_qty }

  unfoldable pub fill_buy : Tables F → ℕ → Time → OrderRow F → Slice F → Work F → Reason × Work F
  fill_buy tables simulation_id trade_date o s w =
      elim (portfolio_id_tx simulation_id o.agent_id w.db) [
        | err e ↦ (Reason.portfolio_not_found, w)
        | ok pid ↦ elim (get_cash_tx pid w.db) [
          | err e ↦ (Reason.portfolio_not_found, w)
          | ok cash ↦
              let holdings = load_holdings_tx pid w.db in
              elim (portfolio_pv tables trade_date cash holdings w.cache) [
                | err e ↦ (Reason.portfolio_error, w)
                | ok (pv, cache) ↦ elim (prev_close tables o.symbol trade_date cache) [
                  | err e ↦ (Reason.portfolio_error, record w { cache = cache })
                  | ok (prev_sym, cache') ↦
                      settle_buy simulation_id trade_date o (with_qty o s) pid cash pv prev_sym
                        (quantity_of o.symbol holdings) (record w { cache = cache' })
                ]
              ]
        ]
      ]

  -- `fillSell` from the credit on
  unfoldable pub settle_sell :
      ℕ → Time → OrderRow F → Slice F → Breakdown F → ℕ → Work F → Reason × Work F
  settle_sell simulation_id trade_date o s br pid w =
      let trade_val = fl.of_nat s.fill_qty ⊗ s.fill_px in
      let credit = total_credit br trade_val in
      elim (get_cash_tx pid w.db) [
        | err e ↦ (Reason.portfolio_error, w)
        | ok cash ↦
            let db = set_cash_tx pid (cash ⊕ credit) w.db in
            elim (reduce_holding_after_sell pid o.symbol s.fill_qty db) [
              | err e ↦ (Reason.portfolio_error, record w { db = db })
              | ok db' ↦ (
                Reason.fine,
                emit
                    (order_filled (record {
                      order_id = o.id;
                      simulation_id = simulation_id;
                      agent_id = o.agent_id;
                      symbol = o.symbol;
                      side = Side.sell;
                      quantity = s.fill_qty;
                      filled_price = s.fill_px;
                      fees = br;
                      trade_value = trade_val;
                      net_credit = some credit;
                      match_on_date = trade_date;
                      remaining = s.remaining_after;
                    }))
                    (record w {
                      db =
                          record_fill o s.fill_qty s.remaining_after s.fill_px trade_date s.fill_ts
                            s.next_match br trade_val db';
                    }),
              )
            ]
      ]

  unfoldable pub fill_sell :
      ℕ → Time → OrderRow F → Slice F → Breakdown F → Work F → Reason × Work F
  fill_sell simulation_id trade_date o s br w =
      let s' = with_qty o s in
      elim (portfolio_id_tx simulation_id o.agent_id w.db) [
        | err e ↦ (Reason.portfolio_not_found, w)
        | ok pid ↦
            if ltb (holding_qty_tx pid o.symbol w.db) s'.fill_qty
            then (Reason.insufficient_holdings, w)
            else settle_sell simulation_id trade_date o s' br pid w
      ]
