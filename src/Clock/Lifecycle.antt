-- ===== src/Clock/Lifecycle.antt =====
-- `Start`, `Pause` and `Tick` of market-simulator/internal/clock/registry.go and `Proceed` of autotick.go.
use agentic_sim_trading.Common.{
  Error, ℕ, ◌+◌, Bool, true, not, ◌&&◌, Option, none, some, List, [], ◌∷◌, ◌++◌, if◌then◌else◌,
  is_some,
}
use agentic_sim_trading.Common
use agentic_sim_trading.Common.Int.{pos_part}
use agentic_sim_trading.Float.{Float64, ◌⊗◌, nought}
use agentic_sim_trading.Market.Session.{is_zero, truncate_day, Time, Interval}
use agentic_sim_trading.Market.Data.{Tables}
use agentic_sim_trading.Market.Days.{distinct_trading_days, distinct_bars}
use agentic_sim_trading.Simulation.{
  ClockStatus, is_running, is_completed, Stamp, Row, update_clock, merge_config, bar_interval,
  effective_order_window, awaiting_proceed, reset_checkpoint_window,
}
use agentic_sim_trading.Clock.SimClock.{
  SimClock, SimEvent, hourly, is_hourly, session_calendar, tick_payload, new_sim_clock_at, restore,
}
use agentic_sim_trading.Clock.SimClock
use agentic_sim_trading.Clock.Index.{index_of_trading_day, index_of_bar, index_of_bar_on_session}
use agentic_sim_trading.Clock.State.{
  State, no_window, reset_tick_counters, publish, should_advance_clock,
}
use agentic_sim_trading.Clock.Match.{Matcher, then_on_row, close_window, close_window_and_match}

-- the index at which `Start` resumes
abbrev pub resume_on : Option Time → (Time → ℕ) → ℕ
resume_on none index = 0
resume_on (some day) index = index day

abbrev stamp_time : Stamp → Time
stamp_time Stamp.absent = 0
stamp_time Stamp.garbled = 0
stamp_time (Stamp.at t) = t

module _ {F : Type 0} where
  -- `persistAsOfTS`, whose error is dropped
  unfoldable pub persist_as_of_ts : SimClock → State F → State F
  unfolding merge_config
  persist_as_of_ts c s =
      if hourly c
      then record s {
        row = (merge_config (λ cfg. record cfg { as_of_ts = Stamp.at c.current_date }) s.row).1;
      }
      else s

  -- a clock put back where it was
  unfoldable pub restored : SimClock → State F → State F
  unfolding restore
  restored before s = elim s.clock [
    | none ↦ s
    | some c ↦ record s {
      clock = some (restore before.current_index before.current_date before.status c);
    }
  ]

  unfoldable pub resume_index : Row F → Interval → List Time → ℕ
  unfolding index_of_trading_day index_of_bar index_of_bar_on_session
  resume_index row Interval.daily days = resume_on row.as_of_date (index_of_trading_day days)
  resume_index row Interval.hourly days = elim row.config.as_of_ts [
    | Stamp.at t ↦ index_of_bar days t
    | Stamp.garbled ↦ 0
    | Stamp.absent ↦ resume_on row.as_of_date (index_of_bar_on_session days)
  ]

  -- `lastMatched`; a date is a midnight.
  unfoldable pub resume_matched : Row F → Interval → Time
  resume_matched row Interval.daily = truncate_day (stamp_time row.config.last_matched_date)
  resume_matched row Interval.hourly = stamp_time row.config.last_matched_ts

  unfoldable pub calendar : Tables F → Row F → Interval → List Time
  unfolding distinct_trading_days distinct_bars
  calendar tables row Interval.daily = distinct_trading_days tables row.start_date row.end_date
  calendar tables row Interval.hourly = distinct_bars tables row.start_date row.end_date

  -- The clock is found first and its status is set before the row is updated.
  unfoldable pub pause : State F → Option Error × State F
  unfolding update_clock session_calendar
  pause s = elim s.clock [
    | none ↦ (some Common.Error.no_active_clock, s)
    | some c ↦
        if is_completed c.status
        then (some Common.Error.clock_completed, s)
        else let s₁ =
            close_window (record s { clock = some (record c { status = ClockStatus.paused }) }) in
          then_on_row (update_clock (session_calendar c) ClockStatus.paused s₁.row) s₁
            (λ s₂. (none, s₂))
  ]

module _ {F : Type 0} (takes : SimEvent → Bool) where
  abbrev pub log_event : Option SimEvent → State F → State F
  log_event none s = s
  log_event (some e) s = record s { sent = if takes e then s.sent ++ (e ∷ []) else s.sent }

  -- a clock that is paused in memory goes on
  unfoldable pub resume_clock : SimClock → Interval → State F → Option Error × State F
  unfolding update_clock session_calendar persist_as_of_ts publish tick_payload
  resume_clock existing interval s =
      let c = record existing { status = ClockStatus.running; interval = interval } in
      let s₁ = record s { clock = some c } in
      then_on_row (update_clock (session_calendar c) ClockStatus.running s₁.row) s₁
        (λ s₂. publish takes (SimEvent.sim_resumed (tick_payload c)) (persist_as_of_ts c s₂))

  -- a clock is made and stored, and taken out again if the row cannot be updated
  unfoldable pub start_clock : Row F → Interval → List Time → State F → Option Error × State F
  unfolding update_clock session_calendar persist_as_of_ts publish tick_payload new_sim_clock_at
      resume_index resume_matched
  start_clock row interval days s =
      let made = new_sim_clock_at days (resume_index row interval days) ClockStatus.running in
      let c = record made { interval = interval } in
      let matched = resume_matched row interval in
      let s₁ = record s { clock = some c; last_matched = matched } in
      let event =
        if is_some row.as_of_date && not (is_zero matched)
        then SimEvent.sim_resumed (tick_payload c)
        else SimEvent.sim_started (tick_payload c) in
      let (error, r) = update_clock (session_calendar c) ClockStatus.running s₁.row in
      elim error [
        | some e ↦ (some e, record s₁ { row = r; clock = none })
        | none ↦ publish takes event (persist_as_of_ts c (record s₁ { row = r }))
      ]

  unfoldable pub start_on : Row F → Interval → List Time → State F → Option Error × State F
  unfolding start_clock resume_clock
  start_on row interval [] s = (some Common.Error.no_trading_days, s)
  start_on row interval (d ∷ ds) s = elim s.clock [
    | none ↦ start_clock row interval (d ∷ ds) s
    | some existing ↦ elim existing.status [
      | ClockStatus.paused ↦ resume_clock existing interval s
      | ClockStatus.running ↦ (none, s)
      | ClockStatus.completed ↦ start_clock row interval (d ∷ ds) s
    ]
  ]

  unfoldable pub start : Tables F → State F → Option Error × State F
  unfolding start_on calendar bar_interval
  start tables s = elim s.row [
    | none ↦ (some Common.Error.not_found, s)
    | some row ↦
        if is_completed row.status
        then (some Common.Error.clock_completed, s)
        else let interval = bar_interval row.config in
          start_on row interval (calendar tables row interval) s
  ]

module _ {F : Type 0} ⦃fl : Float64 F⦄ (takes : SimEvent → Bool) where
  unfoldable pub proceed : Tables F → State F → Option Error × State F
  unfolding awaiting_proceed reset_checkpoint_window start
  proceed tables s = elim s.row [
    | none ↦ (some Common.Error.not_found, s)
    | some row ↦
        if not (awaiting_proceed row.config)
        then (some Common.Error.not_awaiting_proceed, s)
        else then_on_row (reset_checkpoint_window s.row) s (start takes tables)
  ]

module _ {F : Type 0} ⦃fl : Float64 F⦄ (matcher : Matcher F) (takes : SimEvent → Bool)
    (simulation_id : ℕ) where
  -- a window of no length is closed at once
  unfoldable pub match_at_once : SimClock → State F → Option Error × State F
  unfolding restored close_window_and_match
  match_at_once before s =
      let (error, s') = close_window_and_match matcher takes simulation_id s in
      elim error [ some e ↦ (some e, restored before s') | none ↦ (none, s') ]

  -- `Tick` from the opening of the window on. `before` is the clock before the move, `now` the wall
  -- clock in nanoseconds.
  unfoldable pub open_and_match :
      (now : ℕ) (window_secs : F) (before c : SimClock) → State F → Option Error × State F
  unfolding update_clock session_calendar persist_as_of_ts reset_tick_counters restored
      match_at_once
  open_and_match now window_secs before c s =
      let s₁ = record (reset_tick_counters s) {
        clock = some c;
        window = record {
          is_open = true;
          date = c.current_date;
          close_at = now + pos_part (fl.floor (window_secs ⊗ fl.dec 1_000_000_000 0));
        };
      } in
      let (error, r) = update_clock (session_calendar c) c.status s₁.row in
      elim error [
        | some e ↦ (some e, restored before (record s₁ { row = r }))
        | none ↦
            let s₂ = persist_as_of_ts c (record s₁ { row = r }) in
            if fl.le window_secs nought then match_at_once before s₂ else (none, s₂)
      ]

  -- what follows the move of the clock `before` to `c`: the end, or the window of the new day
  unfoldable pub after_tick :
      (now : ℕ) → F → (before c : SimClock) → Option Error → State F → Option Error × State F
  unfolding update_clock open_and_match
  after_tick now window_secs before c (some x) s = (some x, s)
  after_tick now window_secs before c none s =
      if is_completed c.status
      then then_on_row (update_clock before.current_date ClockStatus.completed s.row) s
          (λ s'. (none, record s' { clock = none; window = no_window }))
      else open_and_match now window_secs before c s

  -- `Tick` on a running clock whose day is matched: the next day, or the end
  unfoldable pub advance : (now : ℕ) → F → SimClock → State F → Option Error × State F
  unfolding SimClock.tick after_tick
  advance now window_secs c s =
      let (error, c', e) = SimClock.tick takes c in
      after_tick now window_secs c c' error (log_event takes e (record s { clock = some c' }))

  -- `Tick` once an open window is closed
  unfoldable pub tick_closed : (now : ℕ) → State F → Option Error × State F
  unfolding should_advance_clock effective_order_window advance open_and_match publish tick_payload
  tick_closed now s = elim s.row [
    | none ↦ (some Common.Error.not_found, s)
    | some row ↦
        let window_secs = effective_order_window row.config in
        elim s.clock [
          | none ↦ (some Common.Error.no_active_clock, s)
          | some c ↦
              if not (is_running c.status)
              then (some Common.Error.clock_not_running, s)
              else if should_advance_clock s.last_matched c
              then advance now window_secs c s
              else open_and_match now window_secs c c
                  (publish takes (SimEvent.sim_tick (tick_payload c)) s).1
        ]
  ]

  unfoldable pub tick : (now : ℕ) → State F → Option Error × State F
  unfolding close_window_and_match tick_closed
  tick now s =
      let (error, s') = close_window_and_match matcher takes simulation_id s in
      elim error [ some e ↦ (some e, s') | none ↦ tick_closed now s' ]
