-- ===== src/Clock/Starts.antt =====
-- `Start` and `Pause` of market-simulator/internal/clock/registry.go keep a clock on its calendar.
use agentic_sim_trading.Common.{
  Error, ℕ, ◌<◌, ◌≡◌, refl, ◌⊎◌, inl, inr, Bool, Option, none, some, List, [], ◌∷◌, arith,
  Bool-cases, Option-cases, length, get_elem?,
}
use agentic_sim_trading.Market.Session.{truncate_day, Time, Interval}
use agentic_sim_trading.Simulation.{
  bar_interval, ClockStatus, is_completed, Row, Stamp, update_clock,
}
use agentic_sim_trading.Clock.SimClock.{
  session_calendar, hourly, SimClock, SimEvent, new_sim_clock_at,
}
use agentic_sim_trading.Clock.Match.{then_on_row}
use agentic_sim_trading.Market.Data.{Tables}
use agentic_sim_trading.Clock.State.{State, publish}
use agentic_sim_trading.Clock.Index.{index_of_lt}
use agentic_sim_trading.Clock.Lifecycle.{
  calendar, resume_matched, persist_as_of_ts, resume_index, resume_on, resume_clock, start_clock,
  start_on, start, pause,
}
use agentic_sim_trading.Clock.Places.{KeepsPlace}
use agentic_sim_trading.Clock.Moves.{from_some, Moves, get_elem-lt}

-- the clock's date is the day of the calendar at its index, which is in range then
abbrev pub OnCalendar : Option SimClock → Type 0
OnCalendar none = Unit
OnCalendar (some c) = get_elem? c.trading_days c.current_index ≡ some c.current_date

pub OnCalendar-of_KeepsPlace :
    (o o' : Option SimClock) → KeepsPlace o o' → OnCalendar o → OnCalendar o'
OnCalendar-of_KeepsPlace none none k h = tt
OnCalendar-of_KeepsPlace none (some c') k h = absurd k
OnCalendar-of_KeepsPlace (some c) none k h = tt
OnCalendar-of_KeepsPlace (some c) (some c') (d, i, t, v) h = rw (d, i, t) h

pub OnCalendar-of_Moves :
    (last_matched : Time) (o o' : Option SimClock)
    → Moves last_matched o o'
    → OnCalendar o
    → OnCalendar o'
OnCalendar-of_Moves last_matched none o' m h = rw m tt
OnCalendar-of_Moves last_matched (some c) none m h = tt
OnCalendar-of_Moves last_matched (some c) (some c') (inl k) h =
    OnCalendar-of_KeepsPlace (some c) (some c') k h
OnCalendar-of_Moves last_matched (some c) (some c') (inr m) h = rw m.1 m.4

resume_on_lt :
    (o : Option Time) (index : Time → ℕ) (n : ℕ)
    → 0 < n
    → ((t : Time) → index t < n)
    → resume_on o index < n
resume_on_lt none index n h k = h
resume_on_lt (some t) index n h k = k t

Status-cases :
    (x : ClockStatus)
    → (x ≡ ClockStatus.paused) ⊎ ((x ≡ ClockStatus.running) ⊎ (x ≡ ClockStatus.completed))
Status-cases ClockStatus.paused = inl refl
Status-cases ClockStatus.running = inr (inl refl)
Status-cases ClockStatus.completed = inr (inr refl)

Stamp-cases :
    (x : Stamp) → ((t : Time) × (x ≡ Stamp.at t)) ⊎ ((x ≡ Stamp.absent) ⊎ (x ≡ Stamp.garbled))
Stamp-cases (Stamp.at t) = inl (t, refl)
Stamp-cases Stamp.absent = inr (inl refl)
Stamp-cases Stamp.garbled = inr (inr refl)

some_day :
    (days : List Time) (i : ℕ)
    → i < length days
    → OnCalendar (some (new_sim_clock_at days i ClockStatus.running))
unfolding new_sim_clock_at
some_day days i h = let (d, g) = get_elem-lt days i h in from_some (get_elem? days i) 0 d g

module _ {F : Type 0} where
  resume_index_lt :
      (row : Row F) (interval : Interval) (days : List Time)
      → 0 < length days
      → resume_index row interval days < length days
  unfolding resume_index
  resume_index_lt row Interval.daily days h =
      resume_on_lt row.as_of_date _ (length days) h (λ t. (index_of_lt days t h).0)
  resume_index_lt row Interval.hourly days h = elim (Stamp-cases row.config.as_of_ts) [
    | inl (t, e) ↦ rw (resume_index, e) (index_of_lt days t h).1
    | inr (inl e) ↦
        rw (resume_index, e)
          (resume_on_lt row.as_of_date _ (length days) h (λ t. (index_of_lt days t h).2))
    | inr (inr e) ↦ rw (resume_index, e) h
  ]

  persist_some :
      (c c' : SimClock) (s : State F)
      → s.clock ≡ some c'
      → OnCalendar (some c')
      → OnCalendar (persist_as_of_ts c s).clock
  unfolding persist_as_of_ts
  persist_some c c' s e h = elim (Bool-cases (hourly c)) [
    | inl b ↦ rw (b, e) h
    | inr b ↦ rw (b, e) h
  ]

  -- the row that `UpdateClock` leaves for a running clock
  abbrev on_row : SimClock → Row F → Row F
  on_row c r = record r {
    as_of_date = some (truncate_day (session_calendar c));
    status = ClockStatus.running;
  }

  resume_clock-OnCalendar :
      (takes : SimEvent → Bool) (existing : SimClock) (interval : Interval) (s : State F)
      → OnCalendar (some existing)
      → OnCalendar (resume_clock takes existing interval s).1.clock
  unfolding resume_clock update_clock publish
  resume_clock-OnCalendar takes existing interval s h =
      let c : SimClock = record existing { status = ClockStatus.running; interval = interval } in
      elim (Option-cases s.row) [
        | inl e ↦ rw e h
        | inr (r, e) ↦
            rw e (persist_some c c (record s { clock = some c; row = some (on_row c r) }) refl h)
      ]

  start_clock-OnCalendar :
      (takes : SimEvent → Bool) (row : Row F) (interval : Interval) (days : List Time) (s : State F)
      → 0 < length days
      → OnCalendar (start_clock takes row interval days s).1.clock
  unfolding start_clock update_clock publish
  start_clock-OnCalendar takes row interval days s h =
      let i = resume_index row interval days in
      let made = new_sim_clock_at days i ClockStatus.running in
      let c : SimClock = record made { interval = interval } in
      elim (Option-cases s.row) [
        | inl e ↦ rw e tt
        | inr (r, e) ↦ rw e (
            persist_some c c
              (record s {
                clock = some c;
                last_matched = resume_matched row interval;
                row = some (on_row c r);
              })
              refl (some_day days i (resume_index_lt row interval days h)))
      ]

  start_on-OnCalendar :
      (takes : SimEvent → Bool) (row : Row F) (interval : Interval) (days : List Time) (s : State F)
      → OnCalendar s.clock
      → OnCalendar (start_on takes row interval days s).1.clock
  unfolding start_on
  start_on-OnCalendar takes row interval [] s h = h
  start_on-OnCalendar takes row interval (d ∷ ds) s h =
      let fresh = start_clock-OnCalendar takes row interval (d ∷ ds) s (omega arith) in
      elim (Option-cases s.clock) [
        | inl e ↦ rw (start_on, e) fresh
        | inr (c, e) ↦ elim (Status-cases c.status) [
          | inl p ↦ rw (start_on, e, p) (resume_clock-OnCalendar takes c interval s (rw e at h))
          | inr (inl r) ↦ rw (start_on, e, r, e) (rw e at h)
          | inr (inr done) ↦ rw (start_on, e, done) fresh
        ]
      ]

  pub start-OnCalendar :
      (takes : SimEvent → Bool) (tables : Tables F) (s : State F)
      → OnCalendar s.clock
      → OnCalendar (start takes tables s).1.clock
  unfolding start
  start-OnCalendar takes tables s h = elim (Option-cases s.row) [
    | inl e ↦ rw (start, e) h
    | inr (row, e) ↦ elim (Bool-cases (is_completed row.status)) [
      | inl over ↦ rw (start, e, over) h
      | inr on ↦
          rw (start, e, on)
            (start_on-OnCalendar takes row (bar_interval row.config)
              (calendar tables row (bar_interval row.config)) s h)
    ]
  ]

  pub then_start-OnCalendar :
      (takes : SimEvent → Bool) (tables : Tables F) (r : Option Error × Option (Row F))
      (s : State F)
      → OnCalendar s.clock
      → OnCalendar (then_on_row r s (start takes tables)).1.clock
  then_start-OnCalendar takes tables (some e, row) s h = h
  then_start-OnCalendar takes tables (none, row) s h =
      start-OnCalendar takes tables (record s { row = row }) h

  pub pause-OnCalendar : (s : State F) → OnCalendar s.clock → OnCalendar (pause s).1.clock
  unfolding pause update_clock
  pause-OnCalendar s h = elim (Option-cases s.clock) [
    | inl e ↦ rw (pause, e, e) tt
    | inr (c, e) ↦ elim (Bool-cases (is_completed c.status)) [
      | inl over ↦ rw (pause, e, over, e) (rw e at h)
      | inr on ↦ elim (Option-cases s.row) [
        | inl er ↦ rw (pause, e, on, er) (rw e at h)
        | inr (r, er) ↦ rw (pause, e, on, er) (rw e at h)
      ]
    ]
  ]
