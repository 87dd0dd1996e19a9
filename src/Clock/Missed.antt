-- ===== src/Clock/Missed.antt =====
-- What the tick of a silent agent does to its portfolio.
use agentic_sim_trading.Common.{
  ℕ, ◌+◌, ◌≡◌, refl, inl, inr, Bool, true, some, arith, ltb, leb, if◌then◌else◌, Bool-cases, find?,
  update,
}
use agentic_sim_trading.Common.Tables.{find?-holds, find?-update_if, find?-narrow}
use agentic_sim_trading.Float.{Float64}
use agentic_sim_trading.Database.{AgentStatus, is_disqualified_status, PortfolioRow, Db}
use agentic_sim_trading.Portfolio.Tx.{of_agent}
use agentic_sim_trading.Portfolio.Dq.{
  active_of, is_disqualified, reset_missed_ticks, increment_missed_ticks, set_disqualified,
}
use agentic_sim_trading.Clock.SimClock.{SimEvent}
use agentic_sim_trading.Clock.State.{Counts, State, publish}
use agentic_sim_trading.Clock.Match.{Matcher, missed_limit, record_missed_tick}

module _ {F : Type 0} where
  abbrev missed_once : PortfolioRow F → PortfolioRow F
  missed_once r = record r { consecutive_missed_ticks = r.consecutive_missed_ticks + 1 }

  -- a portfolio after a tick in which its agent made `calls` calls
  abbrev pub ticked : (limit calls : ℕ) → PortfolioRow F → PortfolioRow F
  ticked limit calls p =
      if is_disqualified_status p.status
      then p
      else if ltb 0 calls
      then record p { consecutive_missed_ticks = 0 }
      else record p {
        consecutive_missed_ticks = p.consecutive_missed_ticks + 1;
        status =
            if leb limit (p.consecutive_missed_ticks + 1)
            then AgentStatus.disqualified
            else p.status;
      }

  is_disqualified-found :
      (simulation_id agent_id : ℕ) (db : Db F) (p : PortfolioRow F)
      → find? (of_agent simulation_id agent_id) db.portfolios ≡ some p
      → is_disqualified simulation_id agent_id db ≡ is_disqualified_status p.status
  unfolding is_disqualified
  is_disqualified-found simulation_id agent_id db p e = rw (is_disqualified, e) refl

  count-found :
      (simulation_id agent_id : ℕ) (db : Db F) (p : PortfolioRow F)
      → find? (active_of simulation_id agent_id) db.portfolios ≡ some p
      → (increment_missed_ticks simulation_id agent_id db).0 ≡ p.consecutive_missed_ticks + 1
  unfolding increment_missed_ticks
  count-found simulation_id agent_id db p e = rw (increment_missed_ticks, e) refl

module _ {F : Type 0} ⦃fl : Float64 F⦄ (matcher : Matcher F) (takes : SimEvent → Bool)
    (simulation_id : ℕ) where
  -- For the first portfolio row of an agent in the simulation: a tick counts one more silent tick for an agent
  -- that made no call, and disqualifies it if that reaches the
  -- limit; it clears the count of an agent that made a call, and leaves a disqualified agent as it is.
  pub record_missed_tick_lem :
      (api_calls : Counts) (agent_id : ℕ) (s : State F) (p : PortfolioRow F)
      → find? (of_agent simulation_id agent_id) s.db.portfolios ≡ some p
      → find?
          (of_agent simulation_id agent_id)
          (record_missed_tick matcher takes simulation_id api_calls agent_id s).db.portfolios
        ≡ some (ticked (missed_limit s.row) (api_calls agent_id) p)
  unfolding record_missed_tick publish reset_missed_ticks increment_missed_ticks set_disqualified
  record_missed_tick_lem api_calls agent_id s p e =
      let q = of_agent simulation_id agent_id in
      let own : q p ≡ true = find?-holds q s.db.portfolios e in
      let known = is_disqualified-found simulation_id agent_id s.db p e in
      elim (Bool-cases (is_disqualified_status p.status)) [
        | inl dq ↦ rw (record_missed_tick, known, dq) e
        | inr active ↦ elim (Bool-cases (ltb 0 (api_calls agent_id))) [
          | inl spoke ↦
              let g =
                find?-update_if q q
                  (λ (r : PortfolioRow F). record r { consecutive_missed_ticks = 0 }) (λ a. refl)
                  s.db.portfolios e in
              rw (record_missed_tick, known, active, spoke) (rw own at g)
          | inr silent ↦
              let live : active_of simulation_id agent_id p ≡ true = rw (own, active) refl in
              let first =
                find?-narrow (active_of simulation_id agent_id) q (λ a h. ground arith)
                  s.db.portfolios e live in
              let once =
                find?-update_if (active_of simulation_id agent_id) q (missed_once {F = F})
                  (λ a. refl) s.db.portfolios e in
              let n = count-found simulation_id agent_id s.db p first in
              elim (Bool-cases (leb (missed_limit s.row) (p.consecutive_missed_ticks + 1))) [
                | inr below ↦
                    rw (record_missed_tick, known, active, silent, n, below) (rw live at once)
                | inl reached ↦
                    let counted = rw live at once in
                    let twice =
                      find?-update_if q q
                        (λ (r : PortfolioRow F). record r { status = AgentStatus.disqualified })
                        (λ a. refl)
                        (update (active_of simulation_id agent_id) missed_once s.db.portfolios)
                        counted in
                    rw (record_missed_tick, known, active, silent, n, reached) (rw own at twice)
              ]
        ]
      ]
