-- ===== src/Orderbook/Snapshots.antt =====
-- The snapshots that end a session: the loop over the agents in `ProcessSimulationDay`, which
-- `writeSessionSnapshots` repeats for hourly bars.
use agentic_sim_trading.Common.{ℕ, none, some, List, [], ◌∷◌, if◌then◌else◌, Result, ok, ◌>>=◌}
use agentic_sim_trading.Common.Text.{Text}
use agentic_sim_trading.Market.Session.{Time}
use agentic_sim_trading.Market.Data.{Quote}
use agentic_sim_trading.Float.{Float64, ◌⊕◌, ◌⊗◌, nought}
use agentic_sim_trading.Database.{is_disqualified_status, HoldingRow}
use agentic_sim_trading.Portfolio.Tx.{
  portfolio_id_tx, get_cash_tx, load_holdings_tx, upsert_snapshot_tx,
}
use agentic_sim_trading.Portfolio.Dq.{agent_status_tx, set_disqualified, last_snapshot_tx}
use agentic_sim_trading.Orderbook.Events.{agent_disqualified, Work, emit}

module _ {F : Type 0} ⦃fl : Float64 F⦄ where
  -- the loop over the holdings of one agent: total and invested value, by the close of each bar
  unfoldable pub mark_holdings :
      (Text → Result (Quote F)) → List (HoldingRow F) → F × F → Result (F × F)
  mark_holdings bar_of [] acc = ok acc
  mark_holdings bar_of (h ∷ hs) (total, invested) = bar_of h.symbol >>= λ bar.
      let pos_val = fl.of_nat h.quantity ⊗ bar.close in
      mark_holdings bar_of hs (total ⊕ pos_val, invested ⊕ pos_val)

  -- the body of the loop over the agents; both modes run it, each with its own lookup of the bar
  unfoldable pub snapshot_agent :
      (Text → Result (Quote F)) → ℕ → Time → ℕ → Work F → Result (Work F)
  snapshot_agent bar_of simulation_id trade_day aid w =
      agent_status_tx simulation_id aid w.db >>= λ status.
      if is_disqualified_status status
      then elim (last_snapshot_tx simulation_id aid w.db) [
        | none ↦ ok w
        | some last ↦ ok (record w {
          db =
              upsert_snapshot_tx simulation_id aid trade_day last.total_value last.cash
                last.invested_value w.db;
        })
      ]
      else (portfolio_id_tx simulation_id aid w.db >>= λ pid. get_cash_tx pid w.db >>= λ cash.
          mark_holdings bar_of (load_holdings_tx pid w.db) (cash, nought) >>= λ t.
          let db = upsert_snapshot_tx simulation_id aid trade_day t.0 cash t.1 w.db in
          if fl.le t.0 nought
          then ok (
              emit (agent_disqualified simulation_id aid trade_day)
                (record w { db = set_disqualified simulation_id aid db }))
          else ok (record w { db = db }))

  unfoldable pub snapshot_agents :
      (Text → Result (Quote F)) → ℕ → Time → List ℕ → Work F → Result (Work F)
  snapshot_agents bar_of simulation_id trade_day [] w = ok w
  snapshot_agents bar_of simulation_id trade_day (aid ∷ aids) w =
      snapshot_agent bar_of simulation_id trade_day aid w
      >>= snapshot_agents bar_of simulation_id trade_day aids
