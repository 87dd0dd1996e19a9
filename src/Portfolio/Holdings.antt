-- ===== src/Portfolio/Holdings.antt =====
-- What the statements on cash and holdings change, and what they leave alone.
use agentic_sim_trading.Common.{
  ◌≤◌, ◌-◌, ◌==◌, ltb, none, ◌<◌, Bool-cases, Result, Error, ℕ, ◌+◌, ◌≡◌, refl, ◌≢◌, ◌⊎◌, inl, inr,
  true, false, arith, Option-cases, find?, ok, err,
}
use agentic_sim_trading.Common.Tables.{
  find?-delete_ne, find?-delete, find?-update, find?-update_ne, find?-append_none, find?-append_ne,
}
use agentic_sim_trading.Common.Text.{Text, text_eq_refl, text_eq_sound}
use agentic_sim_trading.Float.{Float64}
use agentic_sim_trading.Database.{HoldingRow, Db}
use agentic_sim_trading.Portfolio.Tx.{
  with_quantity, reduce_holding_after_sell, new_holding, bought, with_id, with_cash, held_as,
  get_cash_tx, set_cash_tx, holding_qty_tx, upsert_holding_after_buy,
}

-- another portfolio, or another symbol
abbrev pub IsOther : ℕ → Text → ℕ → Text → Type 0
IsOther pid symbol pid' symbol' = (pid ≢ pid') ⊎ (symbol ≢ symbol')

module _ {F : Type 0} where
  held_apart :
      (pid : ℕ) (symbol : Text) (pid' : ℕ) (symbol' : Text)
      → IsOther pid symbol pid' symbol'
      → (h : HoldingRow F) → held_as pid symbol h ≡ true
      → held_as pid' symbol' h ≡ false
  held_apart pid symbol pid' symbol' (inl ne) h e = ground arith
  held_apart pid symbol pid' symbol' (inr ne) h e =
      ground (arith, text_eq_sound h.symbol symbol, text_eq_sound h.symbol symbol')

module _ {F : Type 0} ⦃fl : Float64 F⦄ where
  pub get_cash-set_cash :
      (pid : ℕ) (x y : F) (db : Db F)
      → get_cash_tx pid db ≡ ok y
      → get_cash_tx pid (set_cash_tx pid x db) ≡ ok (fl.numeric x)
  unfolding get_cash_tx set_cash_tx
  get_cash-set_cash pid x y db e = elim (Option-cases (find? (with_id pid) db.portfolios)) [
    | inl n ↦ let none_there : err Error.no_rows ≡ ok y = rw n at e in cc
    | inr (p, n) ↦ rw (find?-update (with_id pid) (with_cash x) (λ a. refl) db.portfolios n)
  ]

  pub get_cash-set_cash_ne :
      (pid pid' : ℕ) (x : F) (db : Db F)
      → pid ≢ pid'
      → get_cash_tx pid' (set_cash_tx pid x db) ≡ get_cash_tx pid' db
  unfolding get_cash_tx set_cash_tx
  get_cash-set_cash_ne pid pid' x db ne = rw (
      find?-update_ne (with_id pid) (with_id pid') (with_cash x) (λ a e. ground arith) (λ a. refl)
        db.portfolios)

  pub holding_qty-upsert :
      (pid : ℕ) (symbol : Text) (qty : ℕ) (px : F) (db : Db F)
      → holding_qty_tx pid symbol (upsert_holding_after_buy pid symbol qty px db)
        ≡ holding_qty_tx pid symbol db + qty
  unfolding holding_qty_tx upsert_holding_after_buy
  holding_qty-upsert pid symbol qty px db =
      elim (Option-cases (find? (held_as pid symbol) db.holdings)) [
        | inl n ↦
            rw
              (
                upsert_holding_after_buy,
                n,
                holding_qty_tx,
                find?-append_none (held_as pid symbol) db.holdings (new_holding pid symbol qty px) n
                    (ground (arith, text_eq_refl symbol)),
              )
              (omega arith)
        | inr (h, n) ↦ rw (
          upsert_holding_after_buy,
          n,
          holding_qty_tx,
          find?-update (held_as pid symbol) (bought h qty px) (λ a. refl) db.holdings n,
        )
      ]

  pub holding_qty-upsert_ne :
      (pid : ℕ) (symbol : Text) (qty : ℕ) (px : F) (db : Db F) (pid' : ℕ) (symbol' : Text)
      → IsOther pid symbol pid' symbol'
      → holding_qty_tx pid' symbol' (upsert_holding_after_buy pid symbol qty px db)
        ≡ holding_qty_tx pid' symbol' db
  unfolding holding_qty_tx upsert_holding_after_buy
  holding_qty-upsert_ne pid symbol qty px db pid' symbol' other =
      elim (Option-cases (find? (held_as pid symbol) db.holdings)) [
        | inl n ↦ rw (
          upsert_holding_after_buy,
          n,
          holding_qty_tx,
          find?-append_ne (held_as pid' symbol') db.holdings (new_holding pid symbol qty px) (
              held_apart pid symbol pid' symbol' other (new_holding pid symbol qty px)
                (ground (arith, text_eq_refl symbol))),
        )
        | inr (h, n) ↦ rw (
          upsert_holding_after_buy,
          n,
          holding_qty_tx,
          find?-update_ne (held_as pid symbol) (held_as pid' symbol') (bought h qty px)
              (held_apart pid symbol pid' symbol' other) (λ a. refl) db.holdings,
        )
      ]

module _ {F : Type 0} where
  -- What a sale out of a holding gives: the holding is smaller by the quantity sold and every other one is as
  -- it was; or there is less than that, and an error.
  abbrev pub Reduces : ℕ → Text → ℕ → Db F → Result (Db F) → Type 0
  Reduces pid symbol qty db (ok db') =
      (holding_qty_tx pid symbol db' + qty ≡ holding_qty_tx pid symbol db)
      × ((pid' : ℕ) (symbol' : Text)
          → IsOther pid symbol pid' symbol'
          → holding_qty_tx pid' symbol' db' ≡ holding_qty_tx pid' symbol' db)
      × (db'.portfolios ≡ db.portfolios)
      × (db'.orders ≡ db.orders)
      × (db'.snapshots ≡ db.snapshots)
  Reduces pid symbol qty db (err e) =
      (holding_qty_tx pid symbol db < qty) ⊎ (find? (held_as pid symbol) db.holdings ≡ none)

  pub reduce_holding-Reduces :
      (pid : ℕ) (symbol : Text) (qty : ℕ) (db : Db F)
      → Reduces pid symbol qty db (reduce_holding_after_sell pid symbol qty db)
  unfolding holding_qty_tx reduce_holding_after_sell
  reduce_holding-Reduces pid symbol qty db =
      elim (Option-cases (find? (held_as pid symbol) db.holdings)) [
        | inl n ↦ rw (reduce_holding_after_sell, n) (inr n)
        | inr (h, n) ↦ elim (Bool-cases (ltb h.quantity qty)) [
          | inl few ↦
              rw (reduce_holding_after_sell, n, few) (inl (rw (holding_qty_tx, n) (ground arith)))
          | inr enough ↦ elim (Bool-cases (h.quantity == qty)) [
            | inl all ↦
                rw (reduce_holding_after_sell, n, enough, all)
                  (
                    rw (holding_qty_tx, find?-delete (held_as pid symbol) db.holdings, n)
                        (ground arith),
                    λ pid' symbol' other. rw (
                      holding_qty_tx,
                      find?-delete_ne (held_as pid symbol) (held_as pid' symbol')
                          (held_apart pid symbol pid' symbol' other) db.holdings,
                    ),
                    refl,
                    refl,
                    refl,
                  )
            | inr some_left ↦
                rw (reduce_holding_after_sell, n, enough, some_left)
                  (
                    rw
                        (
                          holding_qty_tx,
                          find?-update (held_as pid symbol) (with_quantity (h.quantity - qty))
                              (λ a. refl) db.holdings n,
                          n,
                        )
                        (ground arith),
                    λ pid' symbol' other. rw (
                      holding_qty_tx,
                      find?-update_ne (held_as pid symbol) (held_as pid' symbol')
                          (with_quantity (h.quantity - qty))
                          (held_apart pid symbol pid' symbol' other) (λ a. refl) db.holdings,
                    ),
                    refl,
                    refl,
                    refl,
                  )
          ]
        ]
      ]

module _ {F : Type 0} ⦃fl : Float64 F⦄ where
  pub upsert_holding-portfolios :
      (pid : ℕ) (symbol : Text) (qty : ℕ) (px : F) (db : Db F)
      → (upsert_holding_after_buy pid symbol qty px db).portfolios ≡ db.portfolios
  unfolding upsert_holding_after_buy
  upsert_holding-portfolios pid symbol qty px db =
      elim (Option-cases (find? (held_as pid symbol) db.holdings)) [
        | inl n ↦ rw (upsert_holding_after_buy, n)
        | inr (h, n) ↦ rw (upsert_holding_after_buy, n)
      ]

module _ {F : Type 0} where
  -- Cash is read from the portfolios alone, and quantities from the holdings alone.
  pub get_cash-congr :
      (pid : ℕ) (db db' : Db F)
      → db'.portfolios ≡ db.portfolios
      → get_cash_tx pid db' ≡ get_cash_tx pid db
  unfolding get_cash_tx
  get_cash-congr pid db db' e = rw e

  pub holding_qty-congr :
      (pid : ℕ) (symbol : Text) (db db' : Db F)
      → db'.holdings ≡ db.holdings
      → holding_qty_tx pid symbol db' ≡ holding_qty_tx pid symbol db
  unfolding holding_qty_tx
  holding_qty-congr pid symbol db db' e = rw (holding_qty_tx, e)

  pub holding_qty-none :
      (pid : ℕ) (symbol : Text) (db : Db F)
      → find? (held_as pid symbol) db.holdings ≡ none
      → holding_qty_tx pid symbol db ≡ 0
  unfolding holding_qty_tx
  holding_qty-none pid symbol db e = rw (holding_qty_tx, e)

  -- A sale of no more than is held does not fail.
  pub not_reduced :
      (pid : ℕ) (symbol : Text) (qty : ℕ) (db db' : Db F) (x : Error)
      → 0 < qty
      → qty ≤ holding_qty_tx pid symbol db
      → holding_qty_tx pid symbol db' ≡ holding_qty_tx pid symbol db
      → ¬ Reduces pid symbol qty db' (err x)
  not_reduced pid symbol qty db db' x positive enough same (inl few) = omega arith
  not_reduced pid symbol qty db db' x positive enough same (inr missing) =
      omega (arith, holding_qty-none pid symbol db' missing)
