-- ===== src/Orderbook/Buys.antt =====
-- What `fillBuy` does to cash and holdings, on every outcome.
use agentic_sim_trading.Common.{
  ℕ, ◌+◌, ◌≡◌, refl, ap, ◌∙◌, ◌≢◌, inl, inr, false, Bool-cases, ok, Result-cases,
}
use agentic_sim_trading.Common.Text.{Text}
use agentic_sim_trading.Float.{Float64, ◌⊖◌, ◌⊗◌}
use agentic_sim_trading.Market.Session.{Time}
use agentic_sim_trading.Market.Data.{Tables}
use agentic_sim_trading.Fees.{buy_fees, total_debit}
use agentic_sim_trading.Database.{OrderRow, Db}
use agentic_sim_trading.Portfolio.Tx.{
  portfolio_id_tx, get_cash_tx, set_cash_tx, load_holdings_tx, holding_qty_tx,
  upsert_holding_after_buy,
}
use agentic_sim_trading.Portfolio.Holdings.{
  IsOther, get_cash-set_cash, get_cash-set_cash_ne, holding_qty-upsert, holding_qty-upsert_ne,
  upsert_holding-portfolios, get_cash-congr, holding_qty-congr,
}
use agentic_sim_trading.Orderbook.Rules.{Reason, concentration_exceeded}
use agentic_sim_trading.Orderbook.Events.{Work}
use agentic_sim_trading.Orderbook.Fill.{
  Slice, prev_close, portfolio_pv, quantity_of, with_qty, settle_buy, fill_buy,
}

module _ {F : Type 0} ⦃fl : Float64 F⦄ where
  -- the amount that a slice costs, fees included
  abbrev pub cost : Slice F → F
  cost s = let v = fl.of_nat s.fill_qty ⊗ s.fill_px in total_debit (buy_fees v) v

  -- the portfolio `pid` has paid for the slice and holds it, and nothing else has moved
  pub record Bought (pid : ℕ) (symbol : Text) (s : Slice F) (cash : F) (db db' : Db F)
      : Type 0 where
    pub covered : fl.lt cash (cost s) ≡ false
    pub paid : get_cash_tx pid db' ≡ ok (fl.numeric (cash ⊖ cost s))
    pub received : holding_qty_tx pid symbol db' ≡ holding_qty_tx pid symbol db + s.fill_qty
    pub others_cash : (p : ℕ) → pid ≢ p → get_cash_tx p db' ≡ get_cash_tx p db
    pub others_held :
        (p : ℕ) (t : Text) → IsOther pid symbol p t → holding_qty_tx p t db' ≡ holding_qty_tx p t db

  abbrev pub IsUntouched : Work F → Work F → Type 0
  IsUntouched w w' = (w'.db ≡ w.db) × (w'.payloads ≡ w.payloads)

  -- what `fillBuy` leaves behind, by the reason that it returns
  abbrev pub BuyOutcome : ℕ → OrderRow F → Slice F → Work F → Reason → Work F → Type 0
  BuyOutcome simulation_id o s w Reason.fine w' =
      (pid : ℕ) × (cash : F) × (portfolio_id_tx simulation_id o.agent_id w.db ≡ ok pid)
      × (get_cash_tx pid w.db ≡ ok cash)
      × Bought pid o.symbol (with_qty o s) cash w.db w'.db
  BuyOutcome simulation_id o s w _ w' = IsUntouched w w'

  -- a database with the portfolios and holdings that the two statements leave
  Bought-of_statements :
      (pid : ℕ) (symbol : Text) (s : Slice F) (cash : F) (db db' : Db F)
      → fl.lt cash (cost s) ≡ false
      → get_cash_tx pid db ≡ ok cash
      → db'.portfolios
        ≡ (upsert_holding_after_buy pid symbol s.fill_qty s.fill_px
            (set_cash_tx pid (cash ⊖ cost s) db)).portfolios
      → db'.holdings
        ≡ (upsert_holding_after_buy pid symbol s.fill_qty s.fill_px
            (set_cash_tx pid (cash ⊖ cost s) db)).holdings
      → Bought pid symbol s cash db db'
  unfolding set_cash_tx
  Bought-of_statements pid symbol s cash db db' covered e ep eh =
      let paid_db = set_cash_tx pid (cash ⊖ cost s) db in
      let up = upsert_holding_after_buy pid symbol s.fill_qty s.fill_px paid_db in
      let same_cash = λ (p : ℕ).
        get_cash-congr p up db' ep
        ∙ get_cash-congr p paid_db up
            (upsert_holding-portfolios pid symbol s.fill_qty s.fill_px paid_db) in
      record {
        covered = covered;
        paid = same_cash pid ∙ get_cash-set_cash pid (cash ⊖ cost s) cash db e;
        received =
            holding_qty-congr pid symbol up db' eh
            ∙ (holding_qty-upsert pid symbol s.fill_qty s.fill_px paid_db
                ∙ ap (λ (n : ℕ). n + s.fill_qty) (holding_qty-congr pid symbol db paid_db refl));
        others_cash = λ p ne. same_cash p ∙ get_cash-set_cash_ne pid p (cash ⊖ cost s) db ne;
        others_held = λ p t other.
            holding_qty-congr p t up db' eh
            ∙ (holding_qty-upsert_ne pid symbol s.fill_qty s.fill_px paid_db p t other
                ∙ holding_qty-congr p t db paid_db refl);
      }

  settle_buy-Bought :
      (simulation_id : ℕ) (trade_date : Time) (o : OrderRow F) (s : Slice F) (pid : ℕ)
      (cash pv prev_sym : F) (held : ℕ) (w : Work F)
      → get_cash_tx pid w.db ≡ ok cash
      → let r = settle_buy simulation_id trade_date o s pid cash pv prev_sym held w in
        (r.0 ≡ Reason.fine → Bought pid o.symbol s cash w.db r.1.db) × (r.0 ≢ Reason.fine → r.1 ≡ w)
  unfolding settle_buy
  settle_buy-Bought simulation_id trade_date o s pid cash pv prev_sym held w e =
      elim (Bool-cases (fl.lt cash (cost s))) [
        | inl short ↦ rw (settle_buy, short) (λ f. cc, λ ne. refl)
        | inr covered ↦
            elim (Bool-cases
              (concentration_exceeded (fl.of_nat (held + s.fill_qty) ⊗ prev_sym) pv)) [
                | inl over ↦ rw (settle_buy, covered, over) (λ f. cc, λ ne. refl)
                | inr within ↦
                    rw (settle_buy, covered, within)
                      (
                        λ f. Bought-of_statements pid o.symbol s cash w.db _ covered e refl refl,
                        λ ne. absurd (ne refl),
                      )
              ]
      ]

  -- a refusal in `settle_buy`, and nothing else, leaves the outcome of a refusal
  BuyOutcome-of_settled :
      (simulation_id : ℕ) (o : OrderRow F) (s : Slice F) (w w₁ : Work F) (pid : ℕ) (cash : F)
      (r : Reason) (w' : Work F)
      → portfolio_id_tx simulation_id o.agent_id w.db ≡ ok pid
      → get_cash_tx pid w.db ≡ ok cash
      → IsUntouched w w₁
      → (r ≡ Reason.fine → Bought pid o.symbol (with_qty o s) cash w.db w'.db)
        × (r ≢ Reason.fine → w' ≡ w₁)
      → BuyOutcome simulation_id o s w r w'
  BuyOutcome-of_settled simulation_id o s w w₁ pid cash Reason.fine w' ep ec same h =
      (pid, cash, ep, ec, h.0 refl)
  BuyOutcome-of_settled simulation_id o s w w₁ pid cash _ w' ep ec same h =
      let e = h.1 (λ f. cc) in rw e same

  -- Whatever `fillBuy` returns: if it accepts, the agent's portfolio had the cash for the trade and its fees,
  -- pays exactly that, and holds the quantity more, while no other portfolio's cash and no other
  -- holding changes; if it gives any reason, nothing is written and nothing is published.
  pub fill_buy-BuyOutcome :
      (tables : Tables F) (simulation_id : ℕ) (trade_date : Time) (o : OrderRow F) (s : Slice F)
      (w : Work F)
      → let r = fill_buy tables simulation_id trade_date o s w in
        BuyOutcome simulation_id o s w r.0 r.1
  unfolding fill_buy
  fill_buy-BuyOutcome tables simulation_id trade_date o s w =
      elim (Result-cases (portfolio_id_tx simulation_id o.agent_id w.db)) [
        | inr (x, no_portfolio) ↦ rw (fill_buy, no_portfolio) (refl, refl)
        | inl (pid, ep) ↦ elim (Result-cases (get_cash_tx pid w.db)) [
          | inr (x, no_cash) ↦ rw (fill_buy, ep, no_cash) (refl, refl)
          | inl (cash, ec) ↦
              elim (Result-cases
                (portfolio_pv tables trade_date cash (load_holdings_tx pid w.db) w.cache)) [
                  | inr (x, no_pv) ↦ rw (fill_buy, ep, ec, no_pv) (refl, refl)
                  | inl ((pv, cache), e) ↦
                      elim (Result-cases (prev_close tables o.symbol trade_date cache)) [
                        | inr (x, no_prev) ↦ rw (fill_buy, ep, ec, e, no_prev) (refl, refl)
                        | inl ((prev_sym, cache'), e') ↦
                            let w₁ : Work F = record w { cache = cache' } in
                            let held = quantity_of o.symbol (load_holdings_tx pid w.db) in
                            rw (fill_buy, ep, ec, e, e')
                              (BuyOutcome-of_settled simulation_id o s w w₁ pid cash _ _ ep ec
                                (refl, refl)
                                (settle_buy-Bought simulation_id trade_date o (with_qty o s) pid
                                  cash pv prev_sym held w₁ ec))
                      ]
                ]
        ]
      ]
