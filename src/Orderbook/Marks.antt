-- ===== src/Orderbook/Marks.antt =====
-- The snapshots of market-simulator/internal/orderbook/engine.go leave the orders alone.
use agentic_sim_trading.Common.{
  ℕ, ◌≡◌, refl, ◌∙◌, inl, inr, ◌&&◌, List, [], ◌∷◌, ◌==◌, Bool-cases, Option-cases, any, Result, ok,
  err, Result-cases,
}
use agentic_sim_trading.Common.Text.{Text}
use agentic_sim_trading.Market.Session.{Time, truncate_day}
use agentic_sim_trading.Market.Data.{Quote}
use agentic_sim_trading.Float.{Float64, nought}
use agentic_sim_trading.Database.{Db, is_disqualified_status}
use agentic_sim_trading.Orders.{Orders}
use agentic_sim_trading.Portfolio.Tx.{
  upsert_snapshot_tx, load_holdings_tx, portfolio_id_tx, get_cash_tx,
}
use agentic_sim_trading.Portfolio.Dq.{agent_status_tx, set_disqualified, last_snapshot_tx}
use agentic_sim_trading.Orderbook.Events.{Work}
use agentic_sim_trading.Orderbook.Snapshots.{mark_holdings, snapshot_agent, snapshot_agents}

module _ {F : Type 0} ⦃fl : Float64 F⦄ where
  upsert_snapshot-orders :
      (simulation_id aid : ℕ) (day : Time) (total cash invested : F) (db : Db F)
      → (upsert_snapshot_tx simulation_id aid day total cash invested db).orders ≡ db.orders
  unfolding upsert_snapshot_tx
  upsert_snapshot-orders simulation_id aid day total cash invested db =
      elim (Bool-cases (
        any
          (λ s.
            s.simulation_id == simulation_id && (s.agent_id == aid && s.date == truncate_day day))
          db.snapshots)) [ inl e ↦ rw e | inr e ↦ rw e ]

  -- a result that, if there is one, has the orders `t`
  abbrev pub Keeps : Orders F → Result (Work F) → Type 0
  Keeps t (ok w) = w.db.orders ≡ t
  Keeps t (err e) = Unit

  Keeps-trans : (t u : Orders F) (r : Result (Work F)) → u ≡ t → Keeps u r → Keeps t r
  Keeps-trans t u (ok w) e h = h ∙ e
  Keeps-trans t u (err x) e h = tt

  snapshot_agent-Keeps :
      (bar_of : Text → Result (Quote F)) (simulation_id : ℕ) (day : Time) (aid : ℕ) (w : Work F)
      → Keeps w.db.orders (snapshot_agent bar_of simulation_id day aid w)
  unfolding snapshot_agent set_disqualified
  snapshot_agent-Keeps bar_of simulation_id day aid w =
      elim (Result-cases (agent_status_tx simulation_id aid w.db)) [
        | inr (x, a) ↦ rw (snapshot_agent, a) tt
        | inl (status, a) ↦ elim (Bool-cases (is_disqualified_status status)) [
          | inl dq ↦ elim (Option-cases (last_snapshot_tx simulation_id aid w.db)) [
            | inl n ↦ rw (snapshot_agent, a, dq, n) refl
            | inr (last, n) ↦
                rw (snapshot_agent, a, dq, n)
                  (upsert_snapshot-orders simulation_id aid day last.total_value last.cash
                    last.invested_value w.db)
          ]
          | inr active ↦ elim (Result-cases (portfolio_id_tx simulation_id aid w.db)) [
            | inr (x, b) ↦ rw (snapshot_agent, a, active, b) tt
            | inl (pid, b) ↦ elim (Result-cases (get_cash_tx pid w.db)) [
              | inr (x, c) ↦ rw (snapshot_agent, a, active, b, c) tt
              | inl (cash, c) ↦
                  elim (Result-cases
                    (mark_holdings bar_of (load_holdings_tx pid w.db) (cash, nought))) [
                      | inr (x, d) ↦ rw (snapshot_agent, a, active, b, c, d) tt
                      | inl (t, d) ↦
                          let kept =
                            upsert_snapshot-orders simulation_id aid day t.0 cash t.1 w.db in
                          elim (Bool-cases (fl.le t.0 nought)) [
                            | inl broke ↦ rw (snapshot_agent, a, active, b, c, d, broke) kept
                            | inr fine ↦ rw (snapshot_agent, a, active, b, c, d, fine) kept
                          ]
                    ]
            ]
          ]
        ]
      ]

  pub snapshot_agents-Keeps :
      (bar_of : Text → Result (Quote F)) (simulation_id : ℕ) (day : Time) (aids : List ℕ)
      (w : Work F)
      → Keeps w.db.orders (snapshot_agents bar_of simulation_id day aids w)
  unfolding snapshot_agents
  snapshot_agents-Keeps bar_of simulation_id day [] w = refl
  snapshot_agents-Keeps bar_of simulation_id day (aid ∷ aids) w =
      let first = snapshot_agent-Keeps bar_of simulation_id day aid w in
      elim (Result-cases (snapshot_agent bar_of simulation_id day aid w)) [
        | inr (x, e) ↦ rw (snapshot_agents, e) tt
        | inl (w', e) ↦
            let same : w'.db.orders ≡ w.db.orders = rw e at first in
            let rest = snapshot_agents-Keeps bar_of simulation_id day aids w' in
            rw (snapshot_agents, e) (Keeps-trans w.db.orders w'.db.orders _ same rest)
      ]
