-- ===== src/Portfolio/Dq.antt =====
-- market-simulator/internal/portfolio/dq.go: disqualification, its counters, and the last snapshot.
use agentic_sim_trading.Common.{
  ℕ, ◌+◌, ◌-◌, Bool, false, not, ◌&&◌, Option, none, some, List, [], ◌∷◌, map, ltb, ◌==◌,
  if◌then◌else◌, select, find?, update, Result, ok, ◌>>=◌, query_row,
}
use agentic_sim_trading.Market.Session.{Time, day_seconds, truncate_day}
use agentic_sim_trading.Float.{Float64, nought}
use agentic_sim_trading.Database.{
  AgentStatus, is_disqualified_status, PortfolioRow, SnapshotRow, Db,
}
use agentic_sim_trading.Portfolio.Tx.{of_agent, upsert_snapshot_tx}

abbrev pub missed_ticks_dq_threshold : ℕ
missed_ticks_dq_threshold = 10

abbrev pub consecutive_4xx_dq : ℕ
consecutive_4xx_dq = 500

module _ {F : Type 0} where
  unfoldable pub is_disqualified : ℕ → ℕ → Db F → Bool
  is_disqualified simulation_id agent_id db =
      elim (find? (of_agent simulation_id agent_id) db.portfolios) [
        | none ↦ false
        | some p ↦ is_disqualified_status p.status
      ]

  unfoldable pub agent_status_tx : ℕ → ℕ → Db F → Result AgentStatus
  agent_status_tx simulation_id agent_id db =
      query_row (find? (of_agent simulation_id agent_id) db.portfolios) >>= λ p. ok p.status

  -- `SetDisqualifiedTx` and `SetDisqualified`, which run the same statement
  unfoldable pub set_disqualified : ℕ → ℕ → Db F → Db F
  set_disqualified simulation_id agent_id db = record db {
    portfolios =
        update (of_agent simulation_id agent_id)
          (λ p. record p { status = AgentStatus.disqualified }) db.portfolios;
  }

  -- ORDER BY date DESC LIMIT 1
  unfoldable pub latest_snapshot : List (SnapshotRow F) → Option (SnapshotRow F)
  latest_snapshot [] = none
  latest_snapshot (s ∷ ss) = elim (latest_snapshot ss) [
    | none ↦ some s
    | some t ↦ if ltb s.date t.date then some t else some s
  ]

  -- `none` is `ok == false`.
  unfoldable pub last_snapshot_tx : ℕ → ℕ → Db F → Option (SnapshotRow F)
  unfolding latest_snapshot
  last_snapshot_tx simulation_id agent_id db =
      latest_snapshot
        (select (λ s. s.simulation_id == simulation_id && s.agent_id == agent_id) db.snapshots)

  abbrev pub active_of : ℕ → ℕ → PortfolioRow F → Bool
  active_of simulation_id agent_id p =
      of_agent simulation_id agent_id p && not (is_disqualified_status p.status)

  -- The count that RETURNING gives, 0 if no row was updated.
  unfoldable pub increment_missed_ticks : ℕ → ℕ → Db F → ℕ × Db F
  increment_missed_ticks simulation_id agent_id db = (
    elim (find? (active_of simulation_id agent_id) db.portfolios) [
      | none ↦ 0
      | some p ↦ p.consecutive_missed_ticks + 1
    ],
    record db {
      portfolios =
          update (active_of simulation_id agent_id)
            (λ p. record p { consecutive_missed_ticks = p.consecutive_missed_ticks + 1 })
            db.portfolios;
    },
  )

  unfoldable pub reset_missed_ticks : ℕ → ℕ → Db F → Db F
  reset_missed_ticks simulation_id agent_id db = record db {
    portfolios =
        update (of_agent simulation_id agent_id) (λ p. record p { consecutive_missed_ticks = 0 })
          db.portfolios;
  }

  abbrev active_agent : ℕ → PortfolioRow F → Bool
  active_agent agent_id p = p.agent_id == agent_id && not (is_disqualified_status p.status)

  -- `none` is `uuid.Nil`: no row was updated.
  unfoldable pub increment_4xx : ℕ → Db F → Option (ℕ × ℕ) × Db F
  increment_4xx agent_id db = (
    elim (find? (active_agent agent_id) db.portfolios) [
      | none ↦ none
      | some p ↦ some (p.simulation_id, p.consecutive_4xx + 1)
    ],
    record db {
      portfolios =
          update (active_agent agent_id) (λ p. record p { consecutive_4xx = p.consecutive_4xx + 1 })
            db.portfolios;
    },
  )

  unfoldable pub reset_4xx : ℕ → Db F → Db F
  reset_4xx agent_id db = record db {
    portfolios =
        update (λ p. p.agent_id == agent_id) (λ p. record p { consecutive_4xx = 0 }) db.portfolios;
  }

  -- ORDER BY id DESC LIMIT 1
  latest_portfolio : List (PortfolioRow F) → Option (PortfolioRow F)
  latest_portfolio [] = none
  latest_portfolio (p ∷ ps) = elim (latest_portfolio ps) [
    | none ↦ some p
    | some q ↦ if ltb p.id q.id then some q else some p
  ]

  unfoldable pub simulation_id_for_agent : ℕ → Db F → Option ℕ
  unfolding latest_portfolio
  simulation_id_for_agent agent_id db =
      elim (latest_portfolio (select (λ p. p.agent_id == agent_id) db.portfolios)) [
        | none ↦ none
        | some p ↦ some p.simulation_id
      ]

  unfoldable pub list_agent_ids : ℕ → Db F → List ℕ
  list_agent_ids simulation_id db =
      map (λ p. p.agent_id) (select (λ p. p.simulation_id == simulation_id) db.portfolios)

module _ {F : Type 0} ⦃fl : Float64 F⦄ where
  -- `StartingCapitalINR`
  abbrev pub starting_capital_inr : F
  starting_capital_inr = fl.dec 1_000_000 0

  -- the day before the start, with all of the starting capital in cash
  unfoldable pub insert_day0_snapshot : ℕ → ℕ → Time → Db F → Db F
  unfolding upsert_snapshot_tx
  insert_day0_snapshot simulation_id agent_id start_date db =
      upsert_snapshot_tx simulation_id agent_id (truncate_day start_date - day_seconds)
        starting_capital_inr starting_capital_inr nought db
