-- ===== src/Orderbook/Ledger.antt =====
-- What the matching engine promises about money and shares: a ledger of cash and holdings, with trades that
-- are covered. The tables of market-simulator/internal/portfolio/tx.go are seen as such a ledger, which forgets
-- their rows.
use agentic_sim_trading.Common.{
  ℕ, ◌+◌, ◌-◌, ◌≤◌, ◌≡◌, ap, ◌∙◌, ◌≢◌, inl, inr, false, ◌&&◌, arith, ◌==◌, if◌then◌else◌,
  Bool-cases, Result, ok,
}
use agentic_sim_trading.Common.Text.{Text, text_eq, text_eq_sound, text_eq_refl}
use agentic_sim_trading.Float.{Float64, ◌⊕◌, ◌⊖◌, ◌⊗◌}
use agentic_sim_trading.Database.{Db}
use agentic_sim_trading.Portfolio.Tx.{get_cash_tx, holding_qty_tx}
use agentic_sim_trading.Portfolio.Holdings.{IsOther}
use agentic_sim_trading.Fees.{Breakdown, buy_fees, sell_fees, total_debit, total_credit}
use agentic_sim_trading.Orderbook.Fill.{Slice}
use agentic_sim_trading.Orderbook.Buys.{Bought, cost}
use agentic_sim_trading.Orderbook.Sells.{Sold, proceeds}

-- the cash of a portfolio, and the shares that it holds of a symbol
pub record Ledger (F : Type 0) : Type 0 where
  pub cash : ℕ → Result F
  pub held : ℕ → Text → ℕ

unfoldable pub ledger_of : {F : Type 0} → Db F → Ledger F
ledger_of db = record {
  cash = λ pid. get_cash_tx pid db;
  held = λ pid symbol. holding_qty_tx pid symbol db;
}

abbrev pub with_held_of : ℕ → Text → ℕ → (ℕ → Text → ℕ) → ℕ → Text → ℕ
with_held_of pid symbol n held p t = if p == pid && text_eq t symbol then n else held p t

IsOther-place :
    (pid p : ℕ) (symbol t : Text) → (p == pid && text_eq t symbol) ≡ false → IsOther pid symbol p t
IsOther-place pid p symbol t e = elim (Bool-cases (p == pid)) [
  | inr q ↦ inl (ground arith)
  | inl q ↦ inr (λ same. ground (arith, text_eq_refl t, ap (text_eq t) same))
]

module _ {F : Type 0} where
  abbrev pub with_cash_of : ℕ → F → (ℕ → Result F) → ℕ → Result F
  with_cash_of pid x cash p = if p == pid then ok x else cash p

module _ {F : Type 0} ⦃fl : Float64 F⦄ where
  -- Amounts are stored as the columns hold them.
  abbrev pub buy : (pid : ℕ) → Text → (qty : ℕ) → (cash amount : F) → Ledger F → Ledger F
  buy pid symbol qty cash amount l = record {
    cash = with_cash_of pid (fl.numeric (cash ⊖ amount)) l.cash;
    held = with_held_of pid symbol (l.held pid symbol + qty) l.held;
  }

  abbrev pub sell : (pid : ℕ) → Text → (qty : ℕ) → (cash amount : F) → Ledger F → Ledger F
  sell pid symbol qty cash amount l = record {
    cash = with_cash_of pid (fl.numeric (cash ⊕ amount)) l.cash;
    held = with_held_of pid symbol (l.held pid symbol - qty) l.held;
  }

  -- what is paid for a purchase of so many shares at a price, and what a sale of them brings, with the fees
  abbrev pub debit_of : (qty : ℕ) → (price : F) → F
  debit_of qty price = let v = fl.of_nat qty ⊗ price in total_debit (buy_fees v) v

  abbrev pub credit_of : (qty : ℕ) → (price : F) → F
  credit_of qty price = let v = fl.of_nat qty ⊗ price in total_credit (sell_fees v) v

  -- a purchase that the cash covers, or a sale of shares that are held
  pub data Trade (l : Ledger F) : Ledger F → Type 0 where
    bought :
        (pid : ℕ) (symbol : Text) (qty : ℕ) (price cash : F)
        → l.cash pid ≡ ok cash
        → fl.lt cash (debit_of qty price) ≡ false
        → Trade l (buy pid symbol qty cash (debit_of qty price) l)
    sold :
        (pid : ℕ) (symbol : Text) (qty : ℕ) (price cash : F)
        → l.cash pid ≡ ok cash
        → qty ≤ l.held pid symbol
        → Trade l (sell pid symbol qty cash (credit_of qty price) l)

  -- trades, one after the other
  pub data Trades (l : Ledger F) : Ledger F → Type 0 where
    no_trade : Trades l l
    more : {m n : Ledger F} → Trades l m → Trade m n → Trades l n

  pub Trades-trans : {l m n : Ledger F} → Trades l m → Trades m n → Trades l n
  Trades-trans ts no_trade = ts
  Trades-trans ts (more us t) = more (Trades-trans ts us) t

  -- two ledgers that agree on the portfolio and symbol traded, and elsewhere
  same_ledger :
      (pid : ℕ) (symbol : Text) (x : F) (n : ℕ) (db db' : Db F)
      → get_cash_tx pid db' ≡ ok x
      → holding_qty_tx pid symbol db' ≡ n
      → ((p : ℕ) → pid ≢ p → get_cash_tx p db' ≡ get_cash_tx p db)
      → ((p : ℕ) (t : Text)
          → IsOther pid symbol p t
          → holding_qty_tx p t db' ≡ holding_qty_tx p t db)
      → ledger_of db' ≡ record {
        cash = with_cash_of pid x (ledger_of db).cash;
        held = with_held_of pid symbol n (ledger_of db).held;
      }
  unfolding ledger_of
  same_ledger pid symbol x n db db' paid got others others_held =
      let cash_at : (p : ℕ) → get_cash_tx p db' ≡ with_cash_of pid x (λ q. get_cash_tx q db) p =
        λ p. elim (Bool-cases (p == pid)) [
          | inl e ↦
              let same : p ≡ pid = ground arith in
              ap (λ (q : ℕ). get_cash_tx q db') same ∙ paid ∙ rw e
          | inr e ↦ rw e (others p (ground arith))
        ] in
      let held_at : (p : ℕ) (t : Text)
          → holding_qty_tx p t db' ≡ with_held_of pid symbol n (λ q u. holding_qty_tx q u db) p t =
        λ p t. elim (Bool-cases (p == pid && text_eq t symbol)) [
          | inl e ↦
              let here : p ≡ pid = ground arith in
              let this : t ≡ symbol = text_eq_sound t symbol (ground arith) in
              ap (λ (q : ℕ). holding_qty_tx q t db') here
              ∙ ap (λ (u : Text). holding_qty_tx pid u db') this
              ∙ got
              ∙ rw e
          | inr e ↦ rw e (others_held p t (IsOther-place pid p symbol t e))
        ] in
      λ i. record { cash = λ p. cash_at p i; held = λ p t. held_at p t i }

  pub Bought-buy :
      (pid : ℕ) (symbol : Text) (s : Slice F) (cash : F) (db db' : Db F)
      → Bought pid symbol s cash db db'
      → ledger_of db' ≡ buy pid symbol s.fill_qty cash (cost s) (ledger_of db)
  unfolding ledger_of
  Bought-buy pid symbol s cash db db' b =
      same_ledger pid symbol _ _ db db' b.paid b.received b.others_cash b.others_held

  pub Sold-sell :
      (pid : ℕ) (symbol : Text) (s : Slice F) (br : Breakdown F) (cash : F) (db db' : Db F)
      → Sold pid symbol s br cash db db'
      → (ledger_of db' ≡ sell pid symbol s.fill_qty cash (proceeds s br) (ledger_of db))
        × (s.fill_qty ≤ holding_qty_tx pid symbol db)
  unfolding ledger_of
  Sold-sell pid symbol s br cash db db' b = (
    same_ledger pid symbol _ (holding_qty_tx pid symbol db - s.fill_qty) db db' b.paid
        (ground (arith, b.given)) b.others_cash b.others_held,
    ground (arith, b.given),
  )
