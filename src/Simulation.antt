-- ===== src/Simulation.antt =====
-- market-simulator/internal/simulation/checkpoint.go and repo.go: a row of the table `simulations`, and
-- the values that its JSON configuration gives. A field of `Config` is `none` where the key is missing or
-- holds a JSON value of another kind.
use agentic_sim_trading.Common.{
  Error, ℕ, ◌+◌, Bool, true, false, ◌||◌, Option, none, some, if◌then◌else◌, Result, ok, err,
}
use agentic_sim_trading.Common
use agentic_sim_trading.Common.Int.{pos_part}
use agentic_sim_trading.Common.Text.{Text, codes, text_eq}
use agentic_sim_trading.Float.{Float64, ◌⊘◌, gt, ge, nought}
use agentic_sim_trading.Market.Session.{Time, truncate_day, Interval}

-- the `status` of a simulation and of its clock
pub data ClockStatus : Type 0 where
  paused running completed : ClockStatus

abbrev pub is_running : ClockStatus → Bool
is_running ClockStatus.running = true
is_running ClockStatus.paused = false
is_running ClockStatus.completed = false

abbrev pub is_completed : ClockStatus → Bool
is_completed ClockStatus.completed = true
is_completed ClockStatus.paused = false
is_completed ClockStatus.running = false

-- a text that should spell a time: absent or empty, not a time, or the time
pub data Stamp : Type 0 where
  absent garbled : Stamp
  at : Time → Stamp

pub record Config (F : Type 0) : Type 0 where
  pub checkpoint_interval_days : Option F
  pub days_since_checkpoint : Option F
  pub awaiting_proceed : Option Bool
  pub auto_tick_enabled : Option Bool
  pub tick_interval_seconds : Option F
  pub order_window_seconds : Option F
  pub tick_speed_multiplier : Option F
  pub bar_interval : Option Text
  pub last_matched_date : Stamp
  pub as_of_ts : Stamp
  pub last_matched_ts : Stamp
  pub participation_rate : Option F
  pub missed_ticks_limit : Option F

pub record Row (F : Type 0) : Type 0 where
  pub start_date : Time
  pub end_date : Time
  pub as_of_date : Option Time
  pub status : ClockStatus
  pub config : Config F

module _ {F : Type 0} where
  unfoldable pub awaiting_proceed : Config F → Bool
  awaiting_proceed cfg = elim cfg.awaiting_proceed [ none ↦ false | some b ↦ b ]

  unfoldable pub auto_tick_enabled : Config F → Bool
  auto_tick_enabled cfg = elim cfg.auto_tick_enabled [ none ↦ true | some b ↦ b ]

  -- `BarInterval`
  unfoldable pub bar_interval : Config F → Interval
  bar_interval cfg = elim cfg.bar_interval [
    | none ↦ Interval.daily
    | some s ↦
        if text_eq s (codes "60m") || (text_eq s (codes "60min") || text_eq s (codes "1h"))
        then Interval.hourly
        else Interval.daily
  ]

  -- `UpdateClock`: the row after the statement; `as_of_date` holds a date.
  unfoldable pub update_clock : Time → ClockStatus → Option (Row F) → Option Error × Option (Row F)
  update_clock as_of status none = (some Common.Error.not_found, none)
  update_clock as_of status (some r) =
      (none, some (record r { as_of_date = some (truncate_day as_of); status = status }))

  -- `MergeConfig`, where the fragment sets fields
  unfoldable pub merge_config :
      (Config F → Config F) → Option (Row F) → Option Error × Option (Row F)
  merge_config fragment none = (some Common.Error.not_found, none)
  merge_config fragment (some r) = (none, some (record r { config = fragment r.config }))

abbrev missed_ticks_default : Interval → ℕ
missed_ticks_default Interval.daily = 10
missed_ticks_default Interval.hourly = 20

module _ {F : Type 0} ⦃fl : Float64 F⦄ where
  -- `int(x)` of a number that is not negative
  abbrev pub int_of : F → ℕ
  int_of x = pos_part (fl.floor x)

  unfoldable pub checkpoint_interval_days : Config F → ℕ
  checkpoint_interval_days cfg = elim cfg.checkpoint_interval_days [
    | none ↦ 5
    | some x ↦ if fl.lt x (fl.dec 1 0) then 5 else if gt x (fl.dec 60 0) then 60 else int_of x
  ]

  unfoldable pub days_since_checkpoint : Config F → ℕ
  days_since_checkpoint cfg = elim cfg.days_since_checkpoint [
    | none ↦ 0
    | some x ↦ if fl.lt x nought then 0 else int_of x
  ]

  unfoldable pub tick_interval_seconds : Config F → F
  tick_interval_seconds cfg = elim cfg.tick_interval_seconds [
    | none ↦ fl.dec 50 1
    | some x ↦
        if fl.le x nought then fl.dec 50 1 else if gt x (fl.dec 3600 0) then fl.dec 3600 0 else x
  ]

  unfoldable pub order_window_seconds : Config F → F
  order_window_seconds cfg = elim cfg.order_window_seconds [
    | none ↦ fl.dec 30 1
    | some x ↦ if fl.lt x nought then nought else if gt x (fl.dec 120 0) then fl.dec 120 0 else x
  ]

  unfoldable pub tick_speed_multiplier : Config F → F
  tick_speed_multiplier cfg = elim cfg.tick_speed_multiplier [
    | none ↦ fl.dec 1 0
    | some x ↦ if fl.le x nought then fl.dec 1 0 else x
  ]

  unfoldable pub effective_tick_interval : Config F → F
  unfolding tick_speed_multiplier tick_interval_seconds
  effective_tick_interval cfg =
      let m = tick_speed_multiplier cfg in
      let mult = if fl.le m nought then fl.dec 1 0 else m in
      let iv = tick_interval_seconds cfg ⊘ mult in if fl.lt iv (fl.dec 5 2) then fl.dec 5 2 else iv

  unfoldable pub effective_order_window : Config F → F
  unfolding tick_speed_multiplier order_window_seconds
  effective_order_window cfg =
      let m = tick_speed_multiplier cfg in
      let mult = if fl.le m nought then fl.dec 1 0 else m in
      let w = order_window_seconds cfg ⊘ mult in if fl.lt w nought then nought else w

  unfoldable pub participation_rate : Config F → F
  participation_rate cfg = elim cfg.participation_rate [
    | none ↦ fl.dec 10 2
    | some x ↦ if fl.le x nought then fl.dec 10 2 else if gt x (fl.dec 1 0) then fl.dec 1 0 else x
  ]

  unfoldable pub missed_ticks_limit : Config F → ℕ
  unfolding bar_interval
  missed_ticks_limit cfg = elim cfg.missed_ticks_limit [
    | none ↦ missed_ticks_default (bar_interval cfg)
    | some x ↦
        if ge x (fl.dec 1 0)
        then if gt x (fl.dec 200 0) then 200 else int_of x
        else missed_ticks_default (bar_interval cfg)
  ]

  -- `RecordTickForCheckpoint`: the new count and the interval
  unfoldable pub record_tick_for_checkpoint : Option (Row F) → Result (ℕ × ℕ) × Option (Row F)
  unfolding days_since_checkpoint checkpoint_interval_days
  record_tick_for_checkpoint none = (err Common.Error.not_found, none)
  record_tick_for_checkpoint (some r) =
      let new_days = days_since_checkpoint r.config + 1 in
      (
        ok (new_days, checkpoint_interval_days r.config),
        some (record r {
          config = record (r.config) { days_since_checkpoint = some (fl.of_nat new_days) };
        }),
      )

  -- the fragments of `SetAwaitingProceed` and `ResetCheckpointWindow`
  unfoldable pub set_awaiting_proceed : Bool → Option (Row F) → Option Error × Option (Row F)
  unfolding merge_config
  set_awaiting_proceed awaiting = merge_config (λ c. record c { awaiting_proceed = some awaiting })

  unfoldable pub reset_checkpoint_window : Option (Row F) → Option Error × Option (Row F)
  unfolding merge_config
  reset_checkpoint_window =
      merge_config
        (λ c. record c { days_since_checkpoint = some nought; awaiting_proceed = some false })
