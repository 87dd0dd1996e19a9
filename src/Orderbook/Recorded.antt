-- ===== src/Orderbook/Recorded.antt =====
-- What `fillBuy` and `fillSell` of market-simulator/internal/orderbook/engine.go write of the order.
use agentic_sim_trading.Common.{
  ℕ, ◌+◌, ◌≡◌, refl, inl, inr, ltb, Bool-cases, Option-cases, find?, ok, Result-cases,
}
use agentic_sim_trading.Market.Data.{Tables}
use agentic_sim_trading.Common.Text.{Text}
use agentic_sim_trading.Portfolio.Tx.{held_as}
use agentic_sim_trading.Market.Session.{Time}
use agentic_sim_trading.Market.Data.{Tables}
use agentic_sim_trading.Float.{Float64, ◌⊕◌, ◌⊖◌, ◌⊗◌}
use agentic_sim_trading.Fees.{Breakdown, buy_fees, total_debit, total_credit}
use agentic_sim_trading.Database.{OrderRow, Db}
use agentic_sim_trading.Portfolio.Tx.{
  portfolio_id_tx, get_cash_tx, set_cash_tx, load_holdings_tx, holding_qty_tx,
  upsert_holding_after_buy, reduce_holding_after_sell,
}
use agentic_sim_trading.Portfolio.Holdings.{Reduces, reduce_holding-Reduces}
use agentic_sim_trading.Orderbook.Rules.{Reason, concentration_exceeded}
use agentic_sim_trading.Orderbook.Events.{Work}
use agentic_sim_trading.Orderbook.Fill.{
  Slice, record_fill, settle_buy, fill_buy, settle_sell, fill_sell, with_qty, portfolio_pv,
  prev_close, quantity_of,
}

module _ {F : Type 0} ⦃fl : Float64 F⦄ where
  -- the orders after a fill of a slice; as they were where a reason is given
  abbrev pub Recorded : OrderRow F → Slice F → Time → Db F → Reason → Db F → Type 0
  Recorded o s trade_date db Reason.fine db' =
      (br : Breakdown F) × (value : F) × (db'.orders
        ≡ (record_fill o s.fill_qty s.remaining_after s.fill_px trade_date s.fill_ts s.next_match br
            value db).orders)
  Recorded o s trade_date db _ db' = db'.orders ≡ db.orders

  record_fill-congr :
      (o : OrderRow F) (s : Slice F) (trade_date : Time) (br : Breakdown F) (value : F)
      (db db' : Db F)
      → db.orders ≡ db'.orders
      → (record_fill o s.fill_qty s.remaining_after s.fill_px trade_date s.fill_ts s.next_match br
          value db).orders
        ≡ (record_fill o s.fill_qty s.remaining_after s.fill_px trade_date s.fill_ts s.next_match br
            value db').orders
  record_fill-congr o s trade_date br value db db' same = rw same

  upsert-orders :
      (pid : ℕ) (symbol : Text) (qty : ℕ) (px : F) (db : Db F)
      → (upsert_holding_after_buy pid symbol qty px db).orders ≡ db.orders
  unfolding upsert_holding_after_buy
  upsert-orders pid symbol qty px db =
      elim (Option-cases (find? (held_as pid symbol) db.holdings)) [
        | inl n ↦ rw (upsert_holding_after_buy, n)
        | inr (h, n) ↦ rw (upsert_holding_after_buy, n)
      ]

  settle_buy-Recorded :
      (sim : ℕ) (trade_date : Time) (o : OrderRow F) (s : Slice F) (pid : ℕ) (cash pv prev_sym : F)
      (held : ℕ) (w : Work F)
      → let r = settle_buy sim trade_date o s pid cash pv prev_sym held w in
        Recorded o s trade_date w.db r.0 r.1.db
  unfolding settle_buy set_cash_tx
  settle_buy-Recorded sim trade_date o s pid cash pv prev_sym held w =
      let value = fl.of_nat s.fill_qty ⊗ s.fill_px in
      let br = buy_fees value in
      let db : Db F =
        upsert_holding_after_buy pid o.symbol s.fill_qty s.fill_px
          (set_cash_tx pid (cash ⊖ total_debit br value) w.db) in
      elim (Bool-cases (fl.lt cash (total_debit br value))) [
        | inl short ↦ rw (settle_buy, short) refl
        | inr covered ↦
            elim (Bool-cases
              (concentration_exceeded (fl.of_nat (held + s.fill_qty) ⊗ prev_sym) pv)) [
                | inl over ↦ rw (settle_buy, covered, over) refl
                | inr room ↦
                    rw (settle_buy, covered, room)
                      (
                        br,
                        value,
                        record_fill-congr o s trade_date br value db w.db (
                            upsert-orders pid o.symbol s.fill_qty s.fill_px
                              (set_cash_tx pid (cash ⊖ total_debit br value) w.db)),
                      )
              ]
      ]

  pub fill_buy-Recorded :
      (tables : Tables F) (sim : ℕ) (trade_date : Time) (o : OrderRow F) (s : Slice F) (w : Work F)
      → let r = fill_buy tables sim trade_date o s w in
        Recorded o (with_qty o s) trade_date w.db r.0 r.1.db
  unfolding fill_buy
  fill_buy-Recorded tables sim trade_date o s w =
      elim (Result-cases (portfolio_id_tx sim o.agent_id w.db)) [
        | inr (x, e₁) ↦ rw (fill_buy, e₁) refl
        | inl (pid, e₁) ↦ elim (Result-cases (get_cash_tx pid w.db)) [
          | inr (x, e₂) ↦ rw (fill_buy, e₁, e₂) refl
          | inl (cash, e₂) ↦
              let held = load_holdings_tx pid w.db in
              elim (Result-cases (portfolio_pv tables trade_date cash held w.cache)) [
                | inr (x, e₃) ↦ rw (fill_buy, e₁, e₂, e₃) refl
                | inl ((pv, cache), e₃) ↦
                    elim (Result-cases (prev_close tables o.symbol trade_date cache)) [
                      | inr (x, e₄) ↦ rw (fill_buy, e₁, e₂, e₃, e₄) refl
                      | inl ((prev_sym, cache'), e₄) ↦
                          rw (fill_buy, e₁, e₂, e₃, e₄)
                            (settle_buy-Recorded sim trade_date o (with_qty o s) pid cash pv
                              prev_sym (quantity_of o.symbol held) (record w { cache = cache' }))
                    ]
              ]
        ]
      ]

  pub fill_sell-Recorded :
      (sim : ℕ) (trade_date : Time) (o : OrderRow F) (s : Slice F) (br : Breakdown F) (w : Work F)
      → let r = fill_sell sim trade_date o s br w in
        Recorded o (with_qty o s) trade_date w.db r.0 r.1.db
  unfolding fill_sell settle_sell set_cash_tx
  fill_sell-Recorded sim trade_date o s br w =
      let s' = with_qty o s in
      let value = fl.of_nat s'.fill_qty ⊗ s'.fill_px in
      elim (Result-cases (portfolio_id_tx sim o.agent_id w.db)) [
        | inr (x, e₁) ↦ rw (fill_sell, e₁) refl
        | inl (pid, e₁) ↦ elim (Bool-cases (ltb (holding_qty_tx pid o.symbol w.db) s'.fill_qty)) [
          | inl few ↦ rw (fill_sell, e₁, few) refl
          | inr enough ↦ elim (Result-cases (get_cash_tx pid w.db)) [
            | inr (x, e₂) ↦ rw (fill_sell, e₁, enough, settle_sell, e₂) refl
            | inl (cash, e₂) ↦
                let db = set_cash_tx pid (cash ⊕ total_credit br value) w.db in
                let reduced = reduce_holding-Reduces pid o.symbol s'.fill_qty db in
                elim (Result-cases (reduce_holding_after_sell pid o.symbol s'.fill_qty db)) [
                  | inr (x, e₃) ↦ rw (fill_sell, e₁, enough, settle_sell, e₂, e₃) refl
                  | inl (db', e₃) ↦
                      let kept : Reduces pid o.symbol s'.fill_qty db (ok db') = rw e₃ at reduced in
                      rw (fill_sell, e₁, enough, settle_sell, e₂, e₃)
                        (br, value, record_fill-congr o s' trade_date br value db' w.db kept.3)
                ]
          ]
        ]
      ]
