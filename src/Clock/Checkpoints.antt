-- ===== src/Clock/Checkpoints.antt =====
-- When `maybeCheckpoint` of market-simulator/internal/clock/autotick.go pauses a simulation.
use agentic_sim_trading.Common.{
  ℕ, ◌+◌, ◌≡◌, refl, inl, inr, Bool, true, false, not, ◌||◌, Option, none, some, ltb, Bool-cases,
}
use agentic_sim_trading.Float.{Float64}
use agentic_sim_trading.Simulation.{
  ClockStatus, is_running, Row, update_clock, merge_config, awaiting_proceed, days_since_checkpoint,
  checkpoint_interval_days, record_tick_for_checkpoint, set_awaiting_proceed,
}
use agentic_sim_trading.Clock.SimClock.{SimClock, SimEvent, at_end}
use agentic_sim_trading.Clock.State.{State, publish}
use agentic_sim_trading.Clock.Match.{Matcher, checkpoint, maybe_checkpoint}

module _ {F : Type 0} where
  -- the stored simulation waits for the user
  abbrev pub IsAwaiting : Option (Row F) → Type 0
  IsAwaiting none = ⊥
  IsAwaiting (some r) = (awaiting_proceed r.config ≡ true) × (r.status ≡ ClockStatus.paused)

  -- what `maybeCheckpoint` leaves, by whether a checkpoint is due
  abbrev pub Checkpointed : Bool → SimClock → State F → State F → Type 0
  Checkpointed true c s u =
      (u.clock ≡ some (record c { status = ClockStatus.paused }))
      × (u.window.is_open ≡ false)
      × IsAwaiting u.row
  Checkpointed false c s u = (u.clock ≡ s.clock) × (u.window ≡ s.window) × (u.sent ≡ s.sent)

module _ {F : Type 0} ⦃fl : Float64 F⦄ where
  -- the counted day reaches the interval, and is not the last of the simulation
  abbrev pub is_due : SimClock → Row F → Bool
  is_due c r =
      not (ltb (days_since_checkpoint r.config + 1) (checkpoint_interval_days r.config) || at_end c)

  -- the row with the day counted
  abbrev counted : Row F → Row F
  counted r =
      let n = days_since_checkpoint r.config + 1 in
      record r { config = record (r.config) { days_since_checkpoint = some (fl.of_nat n) } }

  abbrev counted_in : Row F → State F → State F
  counted_in r s = record s { row = some (counted r) }

module _ {F : Type 0} ⦃fl : Float64 F⦄ (matcher : Matcher F) (takes : SimEvent → Bool)
    (simulation_id : ℕ) where
  checkpoint-Checkpointed :
      (c : SimClock) (n m : ℕ) (s s' : State F) (r : Row F)
      → s'.row ≡ some r
      → Checkpointed true c s (checkpoint matcher takes simulation_id c n m s').1
  unfolding checkpoint publish set_awaiting_proceed merge_config update_clock awaiting_proceed
  checkpoint-Checkpointed c n m s s' r e = rw e (refl, refl, (refl, refl))

  -- Once a day of a running clock is counted: if that makes the interval of days since the last checkpoint, and the
  -- simulation is not at its end, the clock is paused, the window shut, and the stored simulation paused and
  -- waiting for the user; if not, the clock and the window stay as they are and nothing is sent.
  pub maybe_checkpoint-Checkpointed :
      (c : SimClock) (s : State F) (r : Row F)
      → s.row ≡ some r
      → is_running c.status ≡ true
      → Checkpointed (is_due c r) c s (maybe_checkpoint matcher takes simulation_id c true s).1
  unfolding maybe_checkpoint record_tick_for_checkpoint
  maybe_checkpoint-Checkpointed c s r e on =
      let n = days_since_checkpoint r.config + 1 in
      let m = checkpoint_interval_days r.config in
      elim (Bool-cases (ltb n m || at_end c)) [
        | inl early ↦ rw (maybe_checkpoint, on, e, early) (refl, refl, refl)
        | inr due ↦
            rw (maybe_checkpoint, on, e, due, e)
              (checkpoint-Checkpointed c n m s (counted_in r s) (counted r) refl)
      ]
