-- ===== src/Orderbook/Solvency.antt =====
-- Buying never overdraws a portfolio.
use agentic_sim_trading.Common.{ℕ, ◌≡◌, sym, ◌∙◌, inl, inr, false, arith, ◌==◌, Bool-cases, ok}
use agentic_sim_trading.Common.Text.{Text}
use agentic_sim_trading.Float.{Float64, IsFloat64, IsFinite, ◌≼◌, ◌⊖◌, ◌⊗◌, nought}
use agentic_sim_trading.Market.Session.{Time}
use agentic_sim_trading.Market.Data.{Tables}
use agentic_sim_trading.Fees.Bounds.{buy_fees-IsCharge}
use agentic_sim_trading.Database.{OrderRow, Db}
use agentic_sim_trading.Portfolio.Tx.{get_cash_tx}
use agentic_sim_trading.Orderbook.Rules.{Reason}
use agentic_sim_trading.Orderbook.Events.{Work}
use agentic_sim_trading.Orderbook.Fill.{Slice, with_qty, fill_buy}
use agentic_sim_trading.Orderbook.Buys.{cost, Bought, BuyOutcome, fill_buy-BuyOutcome}

ok_value : {A : Type 0} {a b : A} → ok a ≡ ok b → a ≡ b
ok_value e = cc

module _ {F : Type 0} ⦃fl : Float64 F⦄ where
  -- every portfolio's cash is a finite number that is not negative
  abbrev pub IsSolvent : Db F → Type 0
  IsSolvent db =
      (pid : ℕ) (cash : F) → get_cash_tx pid db ≡ ok cash → IsFinite cash × (nought ≼ cash)

  abbrev pub value : Slice F → F
  value s = fl.of_nat s.fill_qty ⊗ s.fill_px

  module _ (laws : IsFloat64 F) where
    cost_nonneg : (s : Slice F) → nought ≼ value s → nought ≼ cost s
    cost_nonneg s h =
        laws.add_nonneg (value s) _ h (buy_fees-IsCharge laws (value s) h).total_nonneg

    left_over :
        (cash c : F)
        → IsFinite cash
        → nought ≼ c
        → fl.lt cash c ≡ false
        → IsFinite (fl.numeric (cash ⊖ c)) × (nought ≼ fl.numeric (cash ⊖ c))
    left_over cash c fin pos covered =
        let paid : c ≼ cash = ground (
          arith,
          laws.lt-eq-not-le cash c (laws.finite_num cash fin) (laws.refl_of_le nought c pos).1,
        ) in
        let rest = laws.sub_nonneg cash c fin paid in
        (
          laws.numeric_finite (cash ⊖ c)
              (laws.finite_between (cash ⊖ c) cash rest (laws.sub-le cash c fin pos) fin),
          laws.numeric_nonneg (cash ⊖ c) rest,
        )

    Bought-IsSolvent :
        (pid : ℕ) (symbol : Text) (s : Slice F) (cash : F) (db db' : Db F)
        → nought ≼ value s
        → get_cash_tx pid db ≡ ok cash
        → Bought pid symbol s cash db db'
        → IsSolvent db
        → IsSolvent db'
    Bought-IsSolvent pid symbol s cash db db' pos e b solvent p x ex =
        elim (Bool-cases (pid == p)) [
          | inl here ↦
              let at : pid ≡ p = ground arith in
              let read : get_cash_tx pid db' ≡ ok x = rw at ex in
              let same : fl.numeric (cash ⊖ cost s) ≡ x = ok_value (sym b.paid ∙ read) in
              let (fin, nonneg) = solvent pid cash e in
              rw⁻¹ same (left_over cash (cost s) fin (cost_nonneg s pos) b.covered)
          | inr elsewhere ↦ solvent p x (sym (b.others_cash p (ground arith)) ∙ ex)
        ]

    outcome-IsSolvent :
        (simulation_id : ℕ) (o : OrderRow F) (s : Slice F) (w : Work F) (r : Reason) (w' : Work F)
        → nought ≼ value (with_qty o s)
        → BuyOutcome simulation_id o s w r w'
        → IsSolvent w.db
        → IsSolvent w'.db
    outcome-IsSolvent simulation_id o s w Reason.fine w' pos (pid, cash, ep, ec, b) solvent =
        Bought-IsSolvent pid o.symbol (with_qty o s) cash w.db w'.db pos ec b solvent
    outcome-IsSolvent simulation_id o s w _ w' pos h solvent = rw h.0 solvent

    -- By the laws of float64: if every portfolio's cash is finite and not negative, it still is after `fillBuy` for a value that is not
    -- negative, whatever `fillBuy` returns.
    pub fill_buy-IsSolvent :
        (tables : Tables F) (simulation_id : ℕ) (trade_date : Time) (o : OrderRow F) (s : Slice F)
        (w : Work F)
        → nought ≼ value (with_qty o s)
        → IsSolvent w.db
        → IsSolvent (fill_buy tables simulation_id trade_date o s w).1.db
    fill_buy-IsSolvent tables simulation_id trade_date o s w pos solvent =
        let r = fill_buy tables simulation_id trade_date o s w in
        outcome-IsSolvent simulation_id o s w r.0 r.1 pos
          (fill_buy-BuyOutcome tables simulation_id trade_date o s w) solvent
