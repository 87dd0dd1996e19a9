-- ===== src/Clock/Sound.antt =====
-- The registry of market-simulator/internal/clock as a machine: its operations in any order.
use agentic_sim_trading.Common.{ℕ, ◌≡◌, inl, inr, Bool, none, arith, Bool-cases, Option-cases}
use agentic_sim_trading.Float.{Float64}
use agentic_sim_trading.Simulation.{awaiting_proceed, reset_checkpoint_window}
use agentic_sim_trading.Clock.SimClock.{SimEvent}
use agentic_sim_trading.Clock.Match.{Matcher, close_window_and_match}
use agentic_sim_trading.Market.Data.{Tables}
use agentic_sim_trading.Clock.Ticks.{tick-Moves}
use agentic_sim_trading.Clock.State.{
  State, try_accept_order_submission, rollback_order_submission, allow_api_call,
}
use agentic_sim_trading.Clock.Lifecycle.{tick, start, pause, proceed}
use agentic_sim_trading.Clock.Places.{close_window_and_match-KeepsPlace}
use agentic_sim_trading.Clock.Starts.{
  OnCalendar, OnCalendar-of_KeepsPlace, OnCalendar-of_Moves, start-OnCalendar,
  then_start-OnCalendar, pause-OnCalendar,
}

module _ {F : Type 0} ⦃fl : Float64 F⦄ where
  proceed-OnCalendar :
      (takes : SimEvent → Bool) (tables : Tables F) (s : State F)
      → OnCalendar s.clock
      → OnCalendar (proceed takes tables s).1.clock
  unfolding proceed
  proceed-OnCalendar takes tables s h = elim (Option-cases s.row) [
    | inl e ↦ rw (proceed, e) h
    | inr (row, e) ↦ elim (Bool-cases (awaiting_proceed row.config)) [
      | inr off ↦ rw (proceed, e, off) h
      | inl on ↦
          rw (proceed, e, on)
            (then_start-OnCalendar takes tables (reset_checkpoint_window s.row) s h)
    ]
  ]

  module _ (tables : Tables F) (matcher : Matcher F) (takes : SimEvent → Bool)
      (simulation_id : ℕ) where
    -- One call of the registry, whoever makes it.
    pub data Call (s : State F) : State F → Type 0 where
      started : Call s (start takes tables s).1
      paused : Call s (pause s).1
      proceeded : Call s (proceed takes tables s).1
      ticked : (now : ℕ) → Call s (tick matcher takes simulation_id now s).1
      window_closed : Call s (close_window_and_match matcher takes simulation_id s).1
      submitted : (agent_id : ℕ) → Call s (try_accept_order_submission agent_id s).1
      rolled_back : (agent_id : ℕ) → Call s (rollback_order_submission agent_id s)
      called : (agent_id : ℕ) → Call s (allow_api_call agent_id s).1

    pub data Runs (s : State F) : State F → Type 0 where
      here : Runs s s
      next : {u v : State F} → Runs s u → Call u v → Runs s v

    Call-OnCalendar : {s u : State F} → Call s u → OnCalendar s.clock → OnCalendar u.clock
    unfolding try_accept_order_submission rollback_order_submission allow_api_call
    Call-OnCalendar {s} started h = start-OnCalendar takes tables s h
    Call-OnCalendar {s} paused h = pause-OnCalendar s h
    Call-OnCalendar {s} proceeded h = proceed-OnCalendar takes tables s h
    Call-OnCalendar {s} (ticked now) h =
        OnCalendar-of_Moves _ s.clock (tick matcher takes simulation_id now s).1.clock
          (tick-Moves matcher takes simulation_id now s) h
    Call-OnCalendar {s} window_closed h =
        OnCalendar-of_KeepsPlace s.clock
          (close_window_and_match matcher takes simulation_id s).1.clock
          (close_window_and_match-KeepsPlace matcher takes simulation_id s) h
    Call-OnCalendar {s} (submitted agent_id) h = ground arith
    Call-OnCalendar {s} (rolled_back agent_id) h = h
    Call-OnCalendar {s} (called agent_id) h = ground arith

    -- In every state that calls of the registry reach from one without a clock, whatever fails on the way, a clock
    -- that is loaded has an index of its calendar, and its date is the calendar's day at that index.
    pub Runs-OnCalendar : {s u : State F} → s.clock ≡ none → Runs s u → OnCalendar u.clock
    Runs-OnCalendar e here = rw e tt
    Runs-OnCalendar e (next r c) = Call-OnCalendar c (Runs-OnCalendar e r)
