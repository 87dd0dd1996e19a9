-- ===== src/Clock/SimClock.antt =====
-- market-simulator/internal/clock/clock.go
use agentic_sim_trading.Common.{
  Error, ℕ, ◌+◌, Bool, true, false, not, ◌||◌, Option, none, some, List, [], ◌∷◌, leb, ◌==◌,
  if◌then◌else◌, length, get_elem?, select,
}
use agentic_sim_trading.Common
use agentic_sim_trading.Market.Session.{
  Time, Interval, truncate_day, session_calendar_utc, same_session,
}
use agentic_sim_trading.Simulation.{ClockStatus}

pub record SimClock : Type 0 where
  pub current_date : Time
  pub trading_days : List Time
  pub current_index : ℕ
  pub status : ClockStatus
  pub interval : Interval

-- `tickPayload`, without the simulation's id
pub record TickPayload : Type 0 where
  pub date : Time
  pub interval : Interval
  pub trading_day_index : ℕ
  pub total_trading_days : ℕ
  -- bar_ts, session_bar and session_bars, of an hourly clock
  pub bar : Option (Time × ℕ × ℕ)

-- The events of a clock on the channel `sim.events`.
pub data SimEvent : Type 0 where
  sim_started sim_resumed sim_tick : TickPayload → SimEvent
  -- date, and bar_ts of an hourly clock; no date without trading days
  sim_completed : Option Time → Option Time → SimEvent
  -- date, days_since_checkpoint, checkpoint_interval_days, trading_day_index, total_trading_days
  sim_checkpoint : Time → ℕ → ℕ → ℕ → ℕ → SimEvent
  -- the agent, for missed ticks
  agent_disqualified : ℕ → SimEvent

abbrev pub is_hourly : Interval → Bool
is_hourly Interval.daily = false
is_hourly Interval.hourly = true

unfoldable pub new_sim_clock_at : List Time → ℕ → ClockStatus → SimClock
new_sim_clock_at days index status = record {
  current_date = elim (get_elem? days index) [ none ↦ 0 | some d ↦ d ];
  trading_days = days;
  current_index = index;
  status = status;
  interval = Interval.daily;
}

abbrev pub hourly : SimClock → Bool
hourly c = is_hourly c.interval

unfoldable pub session_calendar : SimClock → Time
unfolding session_calendar_utc
session_calendar c =
    if hourly c then session_calendar_utc c.current_date else truncate_day c.current_date

-- the loop of `SessionBarIndex` from position `i` with count `n`
abbrev bar_index_from : Time → ℕ → (i n : ℕ) → List Time → ℕ
unfolding same_session
bar_index_from now index i n [] = n
bar_index_from now index i n (ts ∷ bars) =
    let skipped = bar_index_from now index (i + 1) n bars in
    let counted = bar_index_from now index (i + 1) (n + 1) bars in
    if same_session ts now then if i == index then n + 1 else counted else skipped

unfoldable pub session_bar_index : SimClock → ℕ
unfolding same_session bar_index_from
session_bar_index c =
    if not (hourly c) || length c.trading_days == 0
    then 1
    else bar_index_from c.current_date c.current_index 0 0 c.trading_days

unfoldable pub session_bar_count : SimClock → ℕ
unfolding same_session
session_bar_count c =
    if not (hourly c)
    then 1
    else length (select (λ ts. same_session ts c.current_date) c.trading_days)

-- `c.CurrentIndex >= len(c.TradingDays)-1`, where no day at all counts as at the end
abbrev pub at_end : SimClock → Bool
at_end c = leb (length c.trading_days) (c.current_index + 1)

unfoldable pub is_last_bar_of_session : SimClock → Bool
unfolding same_session
is_last_bar_of_session c =
    if not (hourly c)
    then true
    else if at_end c
    then true
    else elim (get_elem? c.trading_days (c.current_index + 1)) [
      | none ↦ true
      | some ts ↦ not (same_session c.current_date ts)
    ]

unfoldable pub tick_payload : SimClock → TickPayload
unfolding session_calendar session_bar_index session_bar_count
tick_payload c = record {
  date = session_calendar c;
  interval = c.interval;
  trading_day_index = c.current_index;
  total_trading_days = length c.trading_days;
  bar = if hourly c then some (c.current_date, session_bar_index c, session_bar_count c) else none;
}

-- `Publish`: `takes` tells which events Redis takes.
unfoldable pub publish_event : (SimEvent → Bool) → SimEvent → Option Error
publish_event takes e = if takes e then none else some Common.Error.publish_failed

-- `CurrentDate = TradingDays[CurrentIndex]`
abbrev pub move_to : ℕ → SimClock → SimClock
move_to index c = record c {
  current_index = index;
  current_date = elim (get_elem? c.trading_days index) [ none ↦ c.current_date | some d ↦ d ];
}

-- The error, the clock, and the event that `Tick` publishes, taken or not.
unfoldable pub tick : (SimEvent → Bool) → SimClock → Option Error × SimClock × Option SimEvent
unfolding publish_event session_calendar tick_payload
tick takes c = elim c.status [
  | ClockStatus.paused ↦ (some Common.Error.clock_not_running, c, none)
  | ClockStatus.completed ↦ (some Common.Error.clock_not_running, c, none)
  | ClockStatus.running ↦
      let done = record c { status = ClockStatus.completed } in
      let e =
        if length c.trading_days == 0
        then SimEvent.sim_completed none none
        else SimEvent.sim_completed (some (session_calendar c))
            (if hourly c then some c.current_date else none) in
      let next = move_to (c.current_index + 1) c in
      let e' = SimEvent.sim_tick (tick_payload next) in
      if at_end c
      then (publish_event takes e, done, some e)
      else (publish_event takes e', next, some e')
]

unfoldable pub restore : ℕ → Time → ClockStatus → SimClock → SimClock
restore index date status c = record c {
  current_index = index;
  current_date = date;
  status = status;
}
