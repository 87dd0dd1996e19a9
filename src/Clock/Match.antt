-- ===== src/Clock/Match.antt =====
-- `recordMissedTicks` and `CloseWindowAndMatch` of market-simulator/internal/clock/registry.go, and
-- `maybeCheckpoint` of autotick.go. The portfolio manager and a matcher are wired, as cmd/server does.
use agentic_sim_trading.Common.{
  Error, ℕ, Bool, true, false, not, ◌||◌, Option, none, some, List, [], ◌∷◌, ltb, leb,
  if◌then◌else◌, length, Result, ok, err,
}
use agentic_sim_trading.Float.{Float64}
use agentic_sim_trading.Market.Session.{Time, is_zero, truncate_day, session_calendar_utc}
use agentic_sim_trading.Database.{Db}
use agentic_sim_trading.Portfolio.Dq.{
  missed_ticks_dq_threshold, list_agent_ids, is_disqualified, reset_missed_ticks,
  increment_missed_ticks, set_disqualified,
}
use agentic_sim_trading.Simulation.{
  ClockStatus, is_running, Stamp, Config, Row, update_clock, merge_config, missed_ticks_limit,
  record_tick_for_checkpoint, set_awaiting_proceed,
}
use agentic_sim_trading.Clock.SimClock.{
  SimClock, SimEvent, hourly, session_calendar, at_end, is_last_bar_of_session,
}
use agentic_sim_trading.Clock.State.{Counts, State, reset_tick_counters, publish}

-- `DayMatcher` and `BarMatcher`: the tables after matching, or an error that changes nothing. The matcher
-- of bars reads the row of the simulation.
pub record Matcher (F : Type 0) : Type 0 where
  pub process_simulation_day : ℕ → Time → Db F → Result (Db F)
  pub process_simulation_bar : ℕ → Time → Option (Row F) → Db F → Result (Db F)

abbrev pub is_hourly_clock : Option SimClock → Bool
is_hourly_clock none = false
is_hourly_clock (some c) = hourly c

module _ {F : Type 0} where
  -- a statement on the row of the simulation, then the rest unless it fails
  abbrev pub then_on_row :
      Option Error × Option (Row F)
      → State F
      → (State F → Option Error × State F)
      → Option Error × State F
  then_on_row (some e, row) s rest = (some e, record s { row = row })
  then_on_row (none, row) s rest = rest (record s { row = row })

  -- `tradeDate`
  unfoldable pub window_date : State F → Time
  window_date s = elim s.clock [
    | none ↦ s.window.date
    | some c ↦ if is_zero s.window.date then c.current_date else s.window.date
  ]

  abbrev pub close_window : State F → State F
  close_window s = record s { window = record (s.window) { is_open = false } }

  -- the fragment of the configuration that tells what is matched
  abbrev pub matched_fragment : Bool → Time → Config F → Config F
  unfolding session_calendar_utc
  matched_fragment by_bar matched c =
      if by_bar
      then record c {
        last_matched_date = Stamp.at (session_calendar_utc matched);
        last_matched_ts = Stamp.at matched;
      }
      else record c { last_matched_date = Stamp.at (truncate_day matched) }

module _ {F : Type 0} ⦃fl : Float64 F⦄ where
  unfoldable pub missed_limit : Option (Row F) → ℕ
  unfolding missed_ticks_limit
  missed_limit none = missed_ticks_dq_threshold
  missed_limit (some r) = missed_ticks_limit r.config

module _ {F : Type 0} ⦃fl : Float64 F⦄ (matcher : Matcher F) (takes : SimEvent → Bool)
    (simulation_id : ℕ) where
  -- the body of the loop over the agents
  unfoldable pub record_missed_tick : Counts → ℕ → State F → State F
  unfolding missed_limit publish
  record_missed_tick api_calls agent_id s =
      if is_disqualified simulation_id agent_id s.db
      then s
      else if ltb 0 (api_calls agent_id)
      then record s { db = reset_missed_ticks simulation_id agent_id s.db }
      else let (n, db) = increment_missed_ticks simulation_id agent_id s.db in
        let s' = record s { db = db } in
        if leb (missed_limit s.row) n
        then (publish takes (SimEvent.agent_disqualified agent_id)
            (record s { db = set_disqualified simulation_id agent_id db })).1
        else s'

  unfoldable pub record_missed_ticks : Counts → List ℕ → State F → State F
  unfolding record_missed_tick
  record_missed_ticks api_calls [] s = s
  record_missed_ticks api_calls (a ∷ agents) s =
      record_missed_ticks api_calls agents (record_missed_tick api_calls a s)

  -- `maybeCheckpoint` from the pause on
  unfoldable pub checkpoint : SimClock → ℕ → ℕ → State F → Option Error × State F
  unfolding set_awaiting_proceed update_clock session_calendar publish
  checkpoint c new_days interval s =
      let s₁ = record s { clock = some (record c { status = ClockStatus.paused }) } in
      then_on_row (set_awaiting_proceed true s₁.row) s₁ (λ s₂.
        then_on_row (update_clock (session_calendar c) ClockStatus.paused s₂.row) s₂ (λ s₃.
          publish takes
            (SimEvent.sim_checkpoint (session_calendar c) new_days interval c.current_index
              (length c.trading_days))
            (close_window s₃)))

  unfoldable pub maybe_checkpoint : SimClock → Bool → State F → Option Error × State F
  unfolding record_tick_for_checkpoint
  maybe_checkpoint c counts s =
      if not counts || not (is_running c.status)
      then (none, s)
      else let (r, row) = record_tick_for_checkpoint s.row in
        let s₁ = record s { row = row } in
        elim r [
          | err e ↦ (some e, s₁)
          | ok (new_days, interval) ↦
              if ltb new_days interval || at_end c
              then (none, s₁)
              else checkpoint c new_days interval s₁
        ]

  -- `CloseWindowAndMatch` after matching. An error of `MergeConfig` is dropped.
  unfoldable pub after_match : Time → State F → Option Error × State F
  unfolding merge_config is_last_bar_of_session reset_tick_counters
  after_match trade_date s =
      let by_bar = is_hourly_clock s.clock in
      let matched = if by_bar then trade_date else truncate_day trade_date in
      let s₁ = record (reset_tick_counters s) {
        last_matched = matched;
        row = (merge_config (matched_fragment by_bar matched) s.row).1;
      } in
      elim s.clock [
        | none ↦ (none, s₁)
        | some c ↦
            if is_running c.status
            then maybe_checkpoint c (if hourly c then is_last_bar_of_session c else true) s₁
            else (none, s₁)
      ]

  unfoldable pub run_matcher : State F → Result (Db F)
  unfolding window_date
  run_matcher s =
      if is_hourly_clock s.clock
      then matcher.process_simulation_bar simulation_id (window_date s) s.row s.db
      else matcher.process_simulation_day simulation_id (window_date s) s.db

  unfoldable pub close_window_and_match : State F → Option Error × State F
  unfolding window_date record_missed_ticks
  close_window_and_match s =
      if not s.window.is_open
      then (none, s)
      else let s₁ =
          record_missed_ticks s.api_calls (list_agent_ids simulation_id s.db) (close_window s) in
        elim (run_matcher s₁) [
          | err e ↦ (some e, s₁)
          | ok db ↦ after_match (window_date s) (record s₁ { db = db })
        ]
