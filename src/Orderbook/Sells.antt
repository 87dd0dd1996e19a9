-- ===== src/Orderbook/Sells.antt =====
-- What `fillSell` does to cash and holdings, on every outcome.
use agentic_sim_trading.Common.{
  arith, ltb, Bool-cases, ℕ, ◌+◌, ◌≤◌, ◌<◌, ◌≡◌, refl, ap, ◌∙◌, ◌≢◌, inl, inr, ok, Result-cases,
}
use agentic_sim_trading.Common.Text.{Text}
use agentic_sim_trading.Float.{Float64, ◌⊕◌, ◌⊗◌}
use agentic_sim_trading.Market.Session.{Time}
use agentic_sim_trading.Fees.{Breakdown, total_credit}
use agentic_sim_trading.Database.{OrderRow, Db}
use agentic_sim_trading.Portfolio.Tx.{
  portfolio_id_tx, get_cash_tx, set_cash_tx, holding_qty_tx, reduce_holding_after_sell,
}
use agentic_sim_trading.Portfolio.Holdings.{
  not_reduced, IsOther, Reduces, get_cash-set_cash, get_cash-set_cash_ne, reduce_holding-Reduces,
  get_cash-congr, holding_qty-congr,
}
use agentic_sim_trading.Orderbook.Rules.{Reason}
use agentic_sim_trading.Orderbook.Events.{Work}
use agentic_sim_trading.Orderbook.Fill.{fill_sell, Slice, with_qty, settle_sell}
use agentic_sim_trading.Orderbook.Buys.{IsUntouched}

module _ {F : Type 0} ⦃fl : Float64 F⦄ where
  -- what a slice brings, after the fees
  abbrev pub proceeds : Slice F → Breakdown F → F
  proceeds s br = total_credit br (fl.of_nat s.fill_qty ⊗ s.fill_px)

  -- the portfolio `pid` has given the quantity and has the proceeds, and nothing else has moved
  pub record Sold (pid : ℕ) (symbol : Text) (s : Slice F) (br : Breakdown F) (cash : F)
      (db db' : Db F) : Type 0 where
    pub given : holding_qty_tx pid symbol db' + s.fill_qty ≡ holding_qty_tx pid symbol db
    pub paid : get_cash_tx pid db' ≡ ok (fl.numeric (cash ⊕ proceeds s br))
    pub others_cash : (p : ℕ) → pid ≢ p → get_cash_tx p db' ≡ get_cash_tx p db
    pub others_held :
        (p : ℕ) (t : Text) → IsOther pid symbol p t → holding_qty_tx p t db' ≡ holding_qty_tx p t db

  abbrev pub SellOutcome :
      ℕ → OrderRow F → Slice F → Breakdown F → Work F → Reason → Work F → Type 0
  SellOutcome simulation_id o s br w Reason.fine w' =
      (pid : ℕ) × (cash : F) × (portfolio_id_tx simulation_id o.agent_id w.db ≡ ok pid)
      × (get_cash_tx pid w.db ≡ ok cash)
      × Sold pid o.symbol (with_qty o s) br cash w.db w'.db
  SellOutcome simulation_id o s br w _ w' = IsUntouched w w'

  Sold-of_statements :
      (pid : ℕ) (symbol : Text) (s : Slice F) (br : Breakdown F) (cash : F) (db db₁ db' : Db F)
      → get_cash_tx pid db ≡ ok cash
      → Reduces pid symbol s.fill_qty (set_cash_tx pid (cash ⊕ proceeds s br) db) (ok db₁)
      → db'.portfolios ≡ db₁.portfolios
      → db'.holdings ≡ db₁.holdings
      → Sold pid symbol s br cash db db'
  unfolding set_cash_tx
  Sold-of_statements pid symbol s br cash db db₁ db' e red ep eh =
      let paid_db = set_cash_tx pid (cash ⊕ proceeds s br) db in
      let same_cash = λ (p : ℕ). get_cash-congr p db₁ db' ep ∙ get_cash-congr p paid_db db₁ red.2 in
      record {
        given =
            ap (λ (n : ℕ). n + s.fill_qty) (holding_qty-congr pid symbol db₁ db' eh)
            ∙ (red.0 ∙ holding_qty-congr pid symbol db paid_db refl);
        paid = same_cash pid ∙ get_cash-set_cash pid (cash ⊕ proceeds s br) cash db e;
        others_cash = λ p ne. same_cash p ∙ get_cash-set_cash_ne pid p (cash ⊕ proceeds s br) db ne;
        others_held = λ p t other.
            holding_qty-congr p t db₁ db' eh
            ∙ (red.1 p t other ∙ holding_qty-congr p t db paid_db refl);
      }

  settle_sell-Sold :
      (simulation_id : ℕ) (trade_date : Time) (o : OrderRow F) (s : Slice F) (br : Breakdown F)
      (pid : ℕ) (w : Work F)
      → 0 < s.fill_qty
      → s.fill_qty ≤ holding_qty_tx pid o.symbol w.db
      → let r = settle_sell simulation_id trade_date o s br pid w in
        (r.0 ≡ Reason.fine
          → (cash : F) × (get_cash_tx pid w.db ≡ ok cash) × Sold pid o.symbol s br cash w.db r.1.db)
        × (r.0 ≢ Reason.fine → r.1 ≡ w)
  unfolding settle_sell set_cash_tx
  settle_sell-Sold simulation_id trade_date o s br pid w positive enough =
      elim (Result-cases (get_cash_tx pid w.db)) [
        | inr (x, no_cash) ↦ rw (settle_sell, no_cash) (λ f. cc, λ ne. refl)
        | inl (cash, e) ↦
            let paid_db = set_cash_tx pid (cash ⊕ proceeds s br) w.db in
            let red = reduce_holding-Reduces pid o.symbol s.fill_qty paid_db in
            let held = holding_qty-congr pid o.symbol w.db paid_db refl in
            elim (Result-cases (reduce_holding_after_sell pid o.symbol s.fill_qty paid_db)) [
              | inr (x, failed) ↦ absurd (
                  not_reduced pid o.symbol s.fill_qty w.db paid_db x positive enough held
                    (rw failed at red))
              | inl (db₁, reduced) ↦
                  rw (settle_sell, e, reduced)
                    (
                      λ f. (
                        cash,
                        refl,
                        Sold-of_statements pid o.symbol s br cash w.db db₁ _ e (rw reduced at red)
                            refl refl,
                      ),
                      λ ne. absurd (ne refl),
                    )
            ]
      ]

  SellOutcome-of_settled :
      (simulation_id : ℕ) (o : OrderRow F) (s : Slice F) (br : Breakdown F) (w : Work F) (pid : ℕ)
      (r : Reason) (w' : Work F)
      → portfolio_id_tx simulation_id o.agent_id w.db ≡ ok pid
      → (r ≡ Reason.fine
          → (cash : F) × (get_cash_tx pid w.db ≡ ok cash)
            × Sold pid o.symbol (with_qty o s) br cash w.db w'.db)
        × (r ≢ Reason.fine → w' ≡ w)
      → SellOutcome simulation_id o s br w r w'
  SellOutcome-of_settled simulation_id o s br w pid Reason.fine w' ep h =
      let (cash, ec, sold) = h.0 refl in (pid, cash, ep, ec, sold)
  SellOutcome-of_settled simulation_id o s br w pid _ w' ep h =
      let e = h.1 (λ f. cc) in rw e (refl, refl)

  -- Whatever `fillSell` returns for a positive quantity: if it accepts, the agent's portfolio held that many
  -- shares, holds so many less, and is credited the proceeds after the fees, while no other portfolio's
  -- cash and no other holding changes; if it gives any reason, nothing is written and nothing is published.
  pub fill_sell-SellOutcome :
      (simulation_id : ℕ) (trade_date : Time) (o : OrderRow F) (s : Slice F) (br : Breakdown F)
      (w : Work F)
      → 0 < (with_qty o s).fill_qty
      → let r = fill_sell simulation_id trade_date o s br w in
        SellOutcome simulation_id o s br w r.0 r.1
  unfolding fill_sell
  fill_sell-SellOutcome simulation_id trade_date o s br w positive =
      elim (Result-cases (portfolio_id_tx simulation_id o.agent_id w.db)) [
        | inr (x, no_portfolio) ↦ rw (fill_sell, no_portfolio) (refl, refl)
        | inl (pid, ep) ↦
            elim (Bool-cases (ltb (holding_qty_tx pid o.symbol w.db) (with_qty o s).fill_qty)) [
              | inl few ↦ rw (fill_sell, ep, few) (refl, refl)
              | inr enough ↦
                  rw (fill_sell, ep, enough)
                    (SellOutcome-of_settled simulation_id o s br w pid _ _ ep (
                      settle_sell-Sold simulation_id trade_date o (with_qty o s) br pid w positive
                        (ground arith)))
            ]
      ]
