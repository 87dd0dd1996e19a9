-- ===== src/Examples/Clock.antt =====
-- The clock of a simulation of three days, run with the matching engine.
use agentic_sim_trading.Common.{
  find?, ◌*◌, some, ◌∷◌, ◌≤◌, ◌<◌, ◌≡◌, refl, ◌↔◌, Bool, true, none, some, [],
}
use agentic_sim_trading.Common.Int.{ℤ, pos}
use agentic_sim_trading.Float.Fixed.{unit, fixed}
use agentic_sim_trading.Market.Session.{Interval}
use agentic_sim_trading.Simulation.{
  Row, days_since_checkpoint, checkpoint_interval_days, ClockStatus, Stamp, Config,
}
use agentic_sim_trading.Clock.SimClock.{SimClock, SimEvent}
use agentic_sim_trading.Clock.State.{
  State, no_counts, no_window, try_accept_order_submission, rollback_order_submission,
  allow_api_call,
}
use agentic_sim_trading.Clock.Match.{
  missed_limit, record_missed_tick, maybe_checkpoint, Matcher, close_window_and_match,
}
use agentic_sim_trading.Clock.Lifecycle.{start, tick}
use agentic_sim_trading.Clock.Checkpoints.{Checkpointed, is_due, maybe_checkpoint-Checkpointed}
use agentic_sim_trading.Clock.Missed.{ticked, record_missed_tick_lem}
use agentic_sim_trading.Portfolio.Tx.{of_agent}
use agentic_sim_trading.Database.{AgentStatus, PortfolioRow}
use agentic_sim_trading.Clock.Engine.{engine}
use agentic_sim_trading.Clock.Moves.{Moves}
use agentic_sim_trading.Clock.Ticks.{tick-Moves}
use agentic_sim_trading.Clock.Starts.{OnCalendar}
use agentic_sim_trading.Clock.Sound.{Call, Runs, Runs-OnCalendar}
use agentic_sim_trading.Clock.Limits.{submission_limits}
use agentic_sim_trading.Examples.Trading.{tables, day, start_db}

abbrev pub no_config : Config ℤ
no_config = record {
  checkpoint_interval_days = none;
  days_since_checkpoint = none;
  awaiting_proceed = none;
  auto_tick_enabled = none;
  tick_interval_seconds = none;
  order_window_seconds = some (pos 0);
  tick_speed_multiplier = none;
  bar_interval = none;
  last_matched_date = Stamp.absent;
  as_of_ts = Stamp.absent;
  last_matched_ts = Stamp.absent;
  participation_rate = none;
  missed_ticks_limit = none;
}

abbrev pub fresh : State ℤ
fresh = record {
  row = some (record {
    start_date = day 10;
    end_date = day 14;
    as_of_date = none;
    status = ClockStatus.paused;
    config = no_config;
  });
  db = start_db;
  clock = none;
  order_counts = no_counts;
  api_calls = no_counts;
  window = no_window;
  last_matched = 0;
  sent = [];
}

abbrev pub matcher : Matcher ℤ
matcher = engine tables

abbrev pub all_sent : SimEvent → Bool
all_sent e = true

abbrev pub started : State ℤ
started = (start all_sent tables fresh).1

tick-Moves_example :
    Moves
      (close_window_and_match matcher all_sent 1 started).1.last_matched
      started.clock
      (tick matcher all_sent 1 7 started).1.clock
tick-Moves_example = tick-Moves matcher all_sent 1 7 started

abbrev two_ticks :
    Runs tables matcher all_sent 1 fresh
      (tick matcher all_sent 1 9 (tick matcher all_sent 1 7 started).1).1
two_ticks = Runs.next (Runs.next (Runs.next Runs.here Call.started) (Call.ticked 7)) (Call.ticked 9)

Runs-OnCalendar_example :
    OnCalendar (tick matcher all_sent 1 9 (tick matcher all_sent 1 7 started).1).1.clock
Runs-OnCalendar_example = Runs-OnCalendar tables matcher all_sent 1 refl two_ticks

submission_limits_example :
    let r = try_accept_order_submission 3 fresh in
    ((r.0 ≡ true) ↔ (0 < 10))
    × (r.0 ≡ true → (rollback_order_submission 3 r.1).order_counts 4 ≡ 0)
    × (0 ≤ 10 → r.1.order_counts 4 ≤ 10)
    × (0 ≤ 100 → (allow_api_call 3 fresh).1.api_calls 4 ≤ 100)
submission_limits_example = submission_limits fresh 3 4

-- The fifth day since the last checkpoint, on the second of three days.
abbrev due_row : Row ℤ
due_row = record {
  start_date = day 10;
  end_date = day 14;
  as_of_date = some (day 11);
  status = ClockStatus.running;
  config = record no_config { days_since_checkpoint = some (pos (4 * unit)) };
}

abbrev mid_clock : SimClock
mid_clock = record {
  current_date = day 11;
  trading_days = day 10 ∷ day 11 ∷ day 14 ∷ [];
  current_index = 1;
  status = ClockStatus.running;
  interval = Interval.daily;
}

abbrev due_state : State ℤ
due_state = record fresh { row = some due_row; clock = some mid_clock }

a_checkpoint_is_due : is_due mid_clock due_row ≡ true
unfolding days_since_checkpoint checkpoint_interval_days
a_checkpoint_is_due = refl

maybe_checkpoint_example :
    Checkpointed
      (is_due mid_clock due_row)
      mid_clock
      due_state
      (maybe_checkpoint matcher all_sent 1 mid_clock true due_state).1
maybe_checkpoint_example =
    maybe_checkpoint-Checkpointed matcher all_sent 1 mid_clock due_state due_row refl refl

abbrev silent_portfolio : PortfolioRow ℤ
silent_portfolio = record {
  id = 7;
  simulation_id = 1;
  agent_id = 3;
  cash = pos (100_000 * unit);
  status = AgentStatus.active;
  consecutive_missed_ticks = 0;
  consecutive_4xx = 0;
}

record_missed_tick_example :
    find? (of_agent 1 3) (record_missed_tick matcher all_sent 1 no_counts 3 fresh).db.portfolios
    ≡ some (ticked (missed_limit fresh.row) 0 silent_portfolio)
record_missed_tick_example =
    record_missed_tick_lem matcher all_sent 1 no_counts 3 fresh silent_portfolio refl
