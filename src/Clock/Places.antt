-- ===== src/Clock/Places.antt =====
-- Closing a window leaves the clock where it stands.
use agentic_sim_trading.Common.{
  ℕ, ◌+◌, ◌≡◌, refl, ◌∙◌, inl, inr, Bool, not, ◌||◌, Option, none, some, List, [], ◌∷◌, arith, ltb,
  Bool-cases, Option-cases, Result-cases,
}
use mathlib.Core.Path.{subst}
use agentic_sim_trading.Float.{Float64}
use agentic_sim_trading.Market.Session.{Time}
use agentic_sim_trading.Portfolio.Dq.{list_agent_ids}
use agentic_sim_trading.Simulation.{
  checkpoint_interval_days, merge_config, days_since_checkpoint, is_running,
  record_tick_for_checkpoint, update_clock, set_awaiting_proceed,
}
use agentic_sim_trading.Clock.SimClock.{SimClock, SimEvent, at_end}
use agentic_sim_trading.Clock.State.{Counts, State, publish, reset_tick_counters}
use agentic_sim_trading.Clock.Match.{
  window_date, close_window, Matcher, record_missed_tick, record_missed_ticks, checkpoint,
  maybe_checkpoint, after_match, run_matcher, close_window_and_match,
}

-- the same calendar, kind of bar and position; the status may differ
abbrev pub SamePlace : SimClock → SimClock → Type 0
SamePlace c c' =
    (c'.trading_days ≡ c.trading_days)
    × (c'.current_index ≡ c.current_index)
    × (c'.current_date ≡ c.current_date)
    × (c'.interval ≡ c.interval)

abbrev pub KeepsPlace : Option SimClock → Option SimClock → Type 0
KeepsPlace none none = Unit
KeepsPlace none (some c') = ⊥
KeepsPlace (some c) none = ⊥
KeepsPlace (some c) (some c') = SamePlace c c'

pub KeepsPlace-refl : (o : Option SimClock) → KeepsPlace o o
KeepsPlace-refl none = tt
KeepsPlace-refl (some c) = (refl, refl, refl, refl)

module _ {F : Type 0} ⦃fl : Float64 F⦄ (matcher : Matcher F) (takes : SimEvent → Bool)
    (simulation_id : ℕ) where
  record_missed_tick-clock :
      (api_calls : Counts) (a : ℕ) (s : State F)
      → (record_missed_tick matcher takes simulation_id api_calls a s).clock ≡ s.clock
  unfolding record_missed_tick publish
  record_missed_tick-clock api_calls a s = ground arith

  pub record_missed_ticks-clock :
      (api_calls : Counts) (agents : List ℕ) (s : State F)
      → (record_missed_ticks matcher takes simulation_id api_calls agents s).clock ≡ s.clock
  unfolding record_missed_ticks
  record_missed_ticks-clock api_calls [] s = refl
  record_missed_ticks-clock api_calls (a ∷ agents) s =
      record_missed_ticks-clock api_calls agents
        (record_missed_tick matcher takes simulation_id api_calls a s)
      ∙ record_missed_tick-clock api_calls a s

  checkpoint_lem :
      (c : SimClock) (n m : ℕ) (s : State F)
      → KeepsPlace (some c) (checkpoint matcher takes simulation_id c n m s).1.clock
  unfolding checkpoint publish set_awaiting_proceed merge_config update_clock
  checkpoint_lem c n m s = elim (Option-cases s.row) [
    | inl e ↦ rw e (refl, refl, refl, refl)
    | inr (r, e) ↦ rw e (refl, refl, refl, refl)
  ]

  maybe_checkpoint_lem :
      (c : SimClock) (counts : Bool) (s : State F)
      → s.clock ≡ some c
      → KeepsPlace (some c) (maybe_checkpoint matcher takes simulation_id c counts s).1.clock
  unfolding maybe_checkpoint record_tick_for_checkpoint
  maybe_checkpoint_lem c counts s e = elim (Bool-cases (not counts || not (is_running c.status))) [
    | inl off ↦ rw (off, e) (refl, refl, refl, refl)
    | inr on ↦ elim (Option-cases s.row) [
      | inl er ↦ rw (on, er, e) (refl, refl, refl, refl)
      | inr (r, er) ↦
          let n = days_since_checkpoint r.config + 1 in
          elim (Bool-cases (ltb n (checkpoint_interval_days r.config) || at_end c)) [
            | inl early ↦ rw (on, er, early, e) (refl, refl, refl, refl)
            | inr due ↦ rw (on, er, due) (checkpoint_lem c n (checkpoint_interval_days r.config) _)
          ]
    ]
  ]

  after_match_lem :
      (trade_date : Time) (s : State F)
      → KeepsPlace s.clock (after_match matcher takes simulation_id trade_date s).1.clock
  unfolding after_match reset_tick_counters
  after_match_lem trade_date s = elim (Option-cases s.clock) [
    | inl e ↦ rw e tt
    | inr (c, e) ↦ elim (Bool-cases (is_running c.status)) [
      | inl on ↦ rw (e, on) (maybe_checkpoint_lem c _ _ refl)
      | inr off ↦ rw (e, off) (refl, refl, refl, refl)
    ]
  ]

  -- `CloseWindowAndMatch` leaves the clock at its place, whatever happens.
  pub close_window_and_match-KeepsPlace :
      (s : State F)
      → KeepsPlace s.clock (close_window_and_match matcher takes simulation_id s).1.clock
  unfolding close_window_and_match
  close_window_and_match-KeepsPlace s = elim (Bool-cases s.window.is_open) [
    | inr shut ↦ rw shut (KeepsPlace-refl s.clock)
    | inl open_now ↦
        let s₁ =
          record_missed_ticks matcher takes simulation_id s.api_calls
            (list_agent_ids simulation_id s.db) (close_window s) in
        let same : s₁.clock ≡ s.clock =
          record_missed_ticks-clock s.api_calls (list_agent_ids simulation_id s.db)
            (close_window s) in
        elim (Result-cases (run_matcher matcher takes simulation_id s₁)) [
          | inr (x, e) ↦ rw (open_now, e, same) (KeepsPlace-refl s.clock)
          | inl (db, e) ↦
              rw (open_now, e)
                (subst
                  (λ o.
                    KeepsPlace o
                      (after_match matcher takes simulation_id (window_date s)
                        (record s₁ { db = db })).1.clock)
                  same (after_match_lem (window_date s) (record s₁ { db = db })))
        ]
  ]
