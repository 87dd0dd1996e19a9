-- ===== src/Clock/State.antt =====
-- The `Registry` of market-simulator/internal/clock/registry.go, seen from one simulation: the entries of
-- its maps at that simulation's id, with the row of `simulations` and the tables that matching writes.
-- Its operations take the simulation's id and touch no other entry. Then its counters and its queries.
use agentic_sim_trading.Common.{
  Error, ℕ, ◌+◌, ◌-◌, Bool, true, false, not, ◌&&◌, Option, none, some, List, [], ◌∷◌, ◌++◌, leb,
  ◌==◌, if◌then◌else◌, Result, ok, err,
}
use agentic_sim_trading.Common
use agentic_sim_trading.Market.Session.{Time, is_zero, truncate_day}
use agentic_sim_trading.Database.{Db}
use agentic_sim_trading.Simulation.{is_completed, Row}
use agentic_sim_trading.Clock.SimClock.{SimClock, SimEvent, hourly, publish_event}

-- `submissionWindow`; `close_at` is wall-clock time in nanoseconds.
pub record Window : Type 0 where
  pub is_open : Bool
  pub date : Time
  pub close_at : ℕ

-- The zero value of a missing entry.
abbrev pub no_window : Window
no_window = record { is_open = false; date = 0; close_at = 0 }

-- `orderCounts` and `apiCalls` at one simulation: a missing agent counts 0.
abbrev pub Counts : Type 0
Counts = ℕ → ℕ

abbrev pub no_counts : Counts
no_counts agent_id = 0

abbrev pub with_count : ℕ → ℕ → Counts → Counts
with_count agent_id n counts a = if a == agent_id then n else counts a

pub record State (F : Type 0) : Type 0 where
  pub row : Option (Row F)
  pub db : Db F
  pub clock : Option SimClock
  pub order_counts : Counts
  pub api_calls : Counts
  pub window : Window
  pub last_matched : Time
  -- what Redis has taken
  pub sent : List SimEvent

abbrev pub max_api_calls_per_tick : ℕ
max_api_calls_per_tick = 100

-- `lastMatched` at or after the current day
unfoldable pub should_advance : Time → Time → Bool
should_advance last_matched current =
    if is_zero last_matched then false else leb (truncate_day current) (truncate_day last_matched)

unfoldable pub should_advance_exact : Time → Time → Bool
should_advance_exact last_matched current =
    if is_zero last_matched then false else leb current last_matched

unfoldable pub should_advance_clock : Time → SimClock → Bool
unfolding should_advance should_advance_exact
should_advance_clock last_matched c =
    if hourly c
    then should_advance_exact last_matched c.current_date
    else should_advance last_matched c.current_date

module _ {F : Type 0} where
  unfoldable pub try_accept_order_submission : ℕ → State F → Bool × State F
  try_accept_order_submission agent_id s =
      let n = s.order_counts agent_id in
      if leb 10 n
      then (false, s)
      else (true, record s { order_counts = with_count agent_id (n + 1) s.order_counts })

  unfoldable pub rollback_order_submission : ℕ → State F → State F
  rollback_order_submission agent_id s =
      let n = s.order_counts agent_id in
      record s { order_counts = with_count agent_id (if leb n 1 then 0 else n - 1) s.order_counts }

  unfoldable pub allow_api_call : ℕ → State F → Bool × State F
  allow_api_call agent_id s =
      let n = s.api_calls agent_id in
      if leb max_api_calls_per_tick n
      then (false, s)
      else (true, record s { api_calls = with_count agent_id (n + 1) s.api_calls })

  unfoldable pub reset_tick_counters : State F → State F
  reset_tick_counters s = record s { order_counts = no_counts; api_calls = no_counts }

  -- `publish`, whose error many callers drop
  unfoldable pub publish : (SimEvent → Bool) → SimEvent → State F → Option Error × State F
  unfolding publish_event
  publish takes e s =
      (publish_event takes e, record s { sent = if takes e then s.sent ++ (e ∷ []) else s.sent })

  unfoldable pub window_due : ℕ → State F → Bool
  window_due now s = s.window.is_open && leb s.window.close_at now

  -- `AsOfDate`
  unfoldable pub as_of_date : State F → Option Time
  as_of_date s = elim s.clock [
    | none ↦ none
    | some c ↦ if is_completed c.status then none else some c.current_date
  ]

  unfoldable pub match_date_for_order : State F → Result (Time × Bool)
  match_date_for_order s = elim s.clock [
    | none ↦ err Common.Error.no_active_clock
    | some c ↦
        if is_completed c.status
        then err Common.Error.clock_completed
        else if s.window.is_open
        then ok (c.current_date, true)
        else ok (c.current_date, false)
  ]

  unfoldable pub order_fills_on_current_date : State F → Bool
  unfolding should_advance_clock
  order_fills_on_current_date s = elim s.clock [
    | none ↦ false
    | some c ↦ if s.window.is_open then true else not (should_advance_clock s.last_matched c)
  ]
