-- ===== src/Clock/Ticks.antt =====
-- Where `Tick` of market-simulator/internal/clock/registry.go may take a clock.
use agentic_sim_trading.Common.{
  Error, ℕ, ◌≡◌, refl, sym, ◌∙◌, ◌⊎◌, inl, inr, Bool, true, Option, none, some, Bool-cases,
  Option-cases,
}
use agentic_sim_trading.Float.{Float64, nought}
use agentic_sim_trading.Market.Session.{Time}
use agentic_sim_trading.Simulation.{is_running, ClockStatus, update_clock}
use agentic_sim_trading.Clock.SimClock
use agentic_sim_trading.Clock.SimClock.{
  move_to, at_end, publish_event, SimClock, hourly, tick_payload, SimEvent, restore,
}
use agentic_sim_trading.Clock.State.{publish, State, reset_tick_counters, should_advance_clock}
use agentic_sim_trading.Clock.Match.{Matcher, close_window_and_match}
use agentic_sim_trading.Clock.Lifecycle.{
  tick, tick_closed, after_tick, log_event, advance, restored, match_at_once, open_and_match,
  persist_as_of_ts,
}
use agentic_sim_trading.Clock.Places.{KeepsPlace-refl, SamePlace, close_window_and_match-KeepsPlace}
use agentic_sim_trading.Clock.Moves.{
  IsAt, IsNextDay, Moves, IsAt-of_KeepsPlace, Arrives, tick-Arrives, log_event-clock, running_only,
  Moves-of_KeepsPlace, Moves-of_either_same, Moves-after,
}

module _ {F : Type 0} ⦃fl : Float64 F⦄ (matcher : Matcher F) (takes : SimEvent → Bool)
    (simulation_id : ℕ) where
  -- a clock is at `c` or at `before`
  abbrev pub AtEither : SimClock → SimClock → Option SimClock → Type 0
  AtEither before c o = IsAt c o ⊎ IsAt before o

  restored_lem :
      (before c : SimClock) (s : State F)
      → before.trading_days ≡ c.trading_days
      → before.interval ≡ c.interval
      → IsAt c s.clock
      → IsAt before (restored before s).clock
  unfolding restored restore
  restored_lem before c s days kind h = elim (Option-cases s.clock) [
    | inl e ↦ absurd (rw e at h)
    | inr (x, e) ↦
        let h' : SamePlace c x = rw e at h in rw e (h'.0 ∙ sym days, refl, refl, h'.3 ∙ sym kind)
  ]

  persist-IsAt :
      (c : SimClock) (s : State F) → s.clock ≡ some c → IsAt c (persist_as_of_ts c s).clock
  unfolding persist_as_of_ts
  persist-IsAt c s e = elim (Bool-cases (hourly c)) [
    | inl h ↦ rw (h, e) (refl, refl, refl, refl)
    | inr h ↦ rw (h, e) (refl, refl, refl, refl)
  ]

  match_at_once_lem :
      (before c : SimClock) (s : State F)
      → before.trading_days ≡ c.trading_days
      → before.interval ≡ c.interval
      → IsAt c s.clock
      → AtEither before c (match_at_once matcher takes simulation_id before s).1.clock
  unfolding match_at_once
  match_at_once_lem before c s days kind h =
      let r = close_window_and_match matcher takes simulation_id s in
      let k =
        IsAt-of_KeepsPlace c s.clock r.1.clock h
          (close_window_and_match-KeepsPlace matcher takes simulation_id s) in
      elim (Option-cases r.0) [
        | inl e ↦ rw (match_at_once, e) (inl k)
        | inr (x, e) ↦ rw (match_at_once, e) (inr (restored_lem before c r.1 days kind k))
      ]

  open_and_match_lem :
      (now : ℕ) (window_secs : F) (before c : SimClock) (s : State F)
      → before.trading_days ≡ c.trading_days
      → before.interval ≡ c.interval
      → AtEither before c
          (open_and_match matcher takes simulation_id now window_secs before c s).1.clock
  unfolding open_and_match reset_tick_counters update_clock restored restore
  open_and_match_lem now window_secs before c s days kind = elim (Option-cases s.row) [
    | inl e ↦ rw (open_and_match, e) (inr (sym days, refl, refl, sym kind))
    | inr (r, e) ↦ elim (Bool-cases (fl.le window_secs nought)) [
      | inr w ↦ rw (open_and_match, e, w) (inl (persist-IsAt c _ refl))
      | inl w ↦
          rw (open_and_match, e, w) (match_at_once_lem before c _ days kind (persist-IsAt c _ refl))
    ]
  ]

  Moves-of_either :
      (last_matched : Time) (c next : SimClock) (o : Option SimClock)
      → IsNextDay last_matched c next
      → AtEither c next o
      → Moves last_matched (some c) o
  Moves-of_either last_matched c next none n (inl h) = absurd h
  Moves-of_either last_matched c next none n (inr h) = absurd h
  Moves-of_either last_matched c next (some c') n (inr h) = inl h
  Moves-of_either last_matched c next (some c') n (inl (d, i, t, v)) =
      inr (n.0, d ∙ n.1, v ∙ n.2, i ∙ n.3, rw (i, t) n.4)

  after_tick_lem :
      (now : ℕ) (window_secs : F) (last_matched : Time) (c c' : SimClock) (error : Option Error)
      (s : State F)
      → should_advance_clock last_matched c ≡ true
      → s.clock ≡ some c'
      → Arrives last_matched c c'
      → Moves last_matched
          (some c)
          (after_tick matcher takes simulation_id now window_secs c c' error s).1.clock
  unfolding after_tick update_clock
  after_tick_lem now window_secs last_matched c c' (some x) s matched e (inl a) = rw e (inl a.0)
  after_tick_lem now window_secs last_matched c c' (some x) s matched e (inr a) = rw e (inr a.0)
  after_tick_lem now window_secs last_matched c c' none s matched e (inl a) =
      elim (Option-cases s.row) [
        | inl none_left ↦ rw (after_tick, a.1, none_left, e) (inl a.0)
        | inr (r, er) ↦ rw (after_tick, a.1, er) (matched, a.2)
      ]
  after_tick_lem now window_secs last_matched c c' none s matched e (inr a) =
      rw (after_tick, a.1)
        (Moves-of_either last_matched c c' _ a.0
          (open_and_match_lem now window_secs c c' s (sym a.0.1) (sym a.0.2)))

  advance_lem :
      (now : ℕ) (window_secs : F) (c : SimClock) (s : State F)
      → should_advance_clock s.last_matched c ≡ true
      → c.status ≡ ClockStatus.running
      → Moves s.last_matched
          (some c)
          (advance matcher takes simulation_id now window_secs c s).1.clock
  unfolding advance
  advance_lem now window_secs c s matched on =
      let (error, c', e) = SimClock.tick takes c in
      after_tick_lem now window_secs s.last_matched c c' error
        (log_event takes e (record s { clock = some c' })) matched (log_event-clock takes e c' s)
        (tick-Arrives takes s.last_matched c matched on)

  tick_closed_lem :
      (now : ℕ) (s : State F)
      → Moves s.last_matched s.clock (tick_closed matcher takes simulation_id now s).1.clock
  unfolding tick_closed publish
  tick_closed_lem now s = elim (Option-cases s.row) [
    | inl e ↦
        rw (tick_closed, e)
          (Moves-of_KeepsPlace s.last_matched s.clock s.clock (KeepsPlace-refl s.clock))
    | inr (r, e) ↦ elim (Option-cases s.clock) [
      | inl ec ↦ rw (tick_closed, e, ec) ec
      | inr (c, ec) ↦ elim (Bool-cases (is_running c.status)) [
        | inr off ↦ rw (tick_closed, e, ec, off, ec) (inl (refl, refl, refl, refl))
        | inl on ↦ elim (Bool-cases (should_advance_clock s.last_matched c)) [
          | inl due ↦
              rw (tick_closed, e, ec, on, due)
                (advance_lem now _ c s due (running_only c.status on))
          | inr early ↦
              rw (tick_closed, e, ec, on, early)
                (Moves-of_either_same s.last_matched c _ (
                  open_and_match_lem now _ c c
                    (publish takes (SimEvent.sim_tick (tick_payload c)) s).1 refl refl))
        ]
      ]
    ]
  ]

  -- `Tick` moves a clock only within its calendar, by one day at most, and only from a day that is matched (the
  -- current day, once an open window is closed): afterwards the clock is where it was; or on the next
  -- day of its calendar; or, from the last day, gone. It makes no clock where there is none.
  pub tick-Moves :
      (now : ℕ) (s : State F)
      → Moves
          (close_window_and_match matcher takes simulation_id s).1.last_matched
          s.clock
          (tick matcher takes simulation_id now s).1.clock
  unfolding tick
  tick-Moves now s =
      let r = close_window_and_match matcher takes simulation_id s in
      let k = close_window_and_match-KeepsPlace matcher takes simulation_id s in
      elim (Option-cases r.0) [
        | inr (x, e) ↦ rw (tick, e) (Moves-of_KeepsPlace r.1.last_matched s.clock r.1.clock k)
        | inl e ↦
            rw (tick, e)
              (Moves-after r.1.last_matched s.clock r.1.clock _ k (tick_closed_lem now r.1))
      ]
