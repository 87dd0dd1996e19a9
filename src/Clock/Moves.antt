-- ===== src/Clock/Moves.antt =====
-- Where a clock may go: the relations, and the move of `SimClock.Tick`.
use agentic_sim_trading.Common.{
  false, ℕ, zero, suc, ◌+◌, ◌≤◌, ◌<◌, ◌≡◌, refl, ◌∙◌, ◌⊎◌, inl, inr, Bool, true, Option, none, some,
  List, [], ◌∷◌, arith, Bool-cases, length, get_elem?,
}
use agentic_sim_trading.Market.Session.{Time}
use agentic_sim_trading.Simulation.{is_running, is_completed, ClockStatus}
use agentic_sim_trading.Clock.SimClock
use agentic_sim_trading.Clock.SimClock.{
  move_to, at_end, publish_event, SimClock, hourly, tick_payload, SimEvent, restore,
}
use agentic_sim_trading.Clock.State.{State, should_advance_clock}
use agentic_sim_trading.Clock.Lifecycle.{log_event}
use agentic_sim_trading.Clock.Places.{SamePlace, KeepsPlace}

pub SamePlace-trans : (a b c : SimClock) → SamePlace a b → SamePlace b c → SamePlace a c
SamePlace-trans a b c (d, i, t, v) (d', i', t', v') = (d' ∙ d, i' ∙ i, t' ∙ t, v' ∙ v)

-- a clock that stands where `c` stands
abbrev pub IsAt : SimClock → Option SimClock → Type 0
IsAt c none = ⊥
IsAt c (some c') = SamePlace c c'

-- `c'` stands one day after `c`, on that day of the calendar, and the day of `c` was matched
abbrev pub IsNextDay : Time → SimClock → SimClock → Type 0
IsNextDay last_matched c c' =
    (should_advance_clock last_matched c ≡ true)
    × (c'.trading_days ≡ c.trading_days)
    × (c'.interval ≡ c.interval)
    × (c'.current_index ≡ c.current_index + 1)
    × (get_elem? c.trading_days c'.current_index ≡ some c'.current_date)

-- where a clock may be after `Tick`: gone, if it was at its last day, which was matched; or at its place; or
-- one day on
abbrev pub Moves : Time → Option SimClock → Option SimClock → Type 0
Moves last_matched none o = o ≡ none
Moves last_matched (some c) none =
    (should_advance_clock last_matched c ≡ true) × (length c.trading_days ≤ c.current_index + 1)
Moves last_matched (some c) (some c') = SamePlace c c' ⊎ IsNextDay last_matched c c'

pub get_elem-lt : (ds : List Time) (i : ℕ) → i < length ds → (d : Time) × (get_elem? ds i ≡ some d)
get_elem-lt [] i h = absurd (ground arith)
get_elem-lt (d ∷ ds) zero h = (d, refl)
get_elem-lt (d ∷ ds) (suc i) h = get_elem-lt ds i (omega arith)

pub IsAt-of_KeepsPlace :
    (c : SimClock) (o o' : Option SimClock) → IsAt c o → KeepsPlace o o' → IsAt c o'
IsAt-of_KeepsPlace c none o' h k = absurd h
IsAt-of_KeepsPlace c (some a) none h k = k
IsAt-of_KeepsPlace c (some a) (some b) h k = SamePlace-trans c a b h k

-- what the move of a running clock may give
abbrev pub Arrives : Time → SimClock → SimClock → Type 0
Arrives last_matched c c' =
    (SamePlace c c'
      × (c'.status ≡ ClockStatus.completed)
      × (length c.trading_days ≤ c.current_index + 1))
    ⊎ (IsNextDay last_matched c c' × (is_completed c'.status ≡ false))

pub from_some :
    (o : Option Time) (other d : Time)
    → o ≡ some d
    → o ≡ some (elim o [ none ↦ other | some x ↦ x ])
from_some none other d e = cc
from_some (some x) other d e = refl

pub move_to_lem :
    (c : SimClock) (i : ℕ)
    → i < length c.trading_days
    → get_elem? c.trading_days i ≡ some (move_to i c).current_date
move_to_lem c i h =
    let (d, g) = get_elem-lt c.trading_days i h in
    from_some (get_elem? c.trading_days i) c.current_date d g

pub tick-Arrives :
    (takes : SimEvent → Bool) (last_matched : Time) (c : SimClock)
    → should_advance_clock last_matched c ≡ true
    → c.status ≡ ClockStatus.running
    → Arrives last_matched c (SimClock.tick takes c).1
unfolding SimClock.tick should_advance_clock
tick-Arrives takes last_matched c matched on = elim (Bool-cases (at_end c)) [
  | inl last ↦ rw (SimClock.tick, on, last) (inl ((refl, refl, refl, refl), refl, ground arith))
  | inr more ↦
      let there = move_to_lem c (c.current_index + 1) (ground arith) in
      rw (SimClock.tick, on, more) (inr ((matched, refl, refl, refl, there), rw on refl))
]

pub log_event-clock :
    {F : Type 0} (takes : SimEvent → Bool) (e : Option SimEvent) (c : SimClock) (s : State F)
    → (log_event takes e (record s { clock = some c })).clock ≡ some c
log_event-clock takes none c s = refl
log_event-clock takes (some e) c s = refl

pub running_only : (x : ClockStatus) → is_running x ≡ true → x ≡ ClockStatus.running
running_only ClockStatus.running e = refl
running_only ClockStatus.paused e = cc
running_only ClockStatus.completed e = cc

pub Moves-of_KeepsPlace :
    (last_matched : Time) (o o' : Option SimClock) → KeepsPlace o o' → Moves last_matched o o'
Moves-of_KeepsPlace last_matched none none h = refl
Moves-of_KeepsPlace last_matched none (some c') h = absurd h
Moves-of_KeepsPlace last_matched (some c) none h = absurd h
Moves-of_KeepsPlace last_matched (some c) (some c') h = inl h

pub Moves-of_either_same :
    (last_matched : Time) (c : SimClock) (o : Option SimClock)
    → IsAt c o ⊎ IsAt c o
    → Moves last_matched (some c) o
Moves-of_either_same last_matched c none (inl h) = absurd h
Moves-of_either_same last_matched c none (inr h) = absurd h
Moves-of_either_same last_matched c (some c') (inl h) = inl h
Moves-of_either_same last_matched c (some c') (inr h) = inl h

-- a move from where a clock still stands
pub Moves-after :
    (last_matched : Time) (o o' o'' : Option SimClock)
    → KeepsPlace o o'
    → Moves last_matched o' o''
    → Moves last_matched o o''
unfolding should_advance_clock
Moves-after last_matched none none o'' k m = m
Moves-after last_matched none (some b) o'' k m = absurd k
Moves-after last_matched (some a) none o'' k m = absurd k
Moves-after last_matched (some a) (some b) none (d, i, t, v) m = rw (d, i, t, v) at m
Moves-after last_matched (some a) (some b) (some c) k (inl m) = inl (SamePlace-trans a b c k m)
Moves-after last_matched (some a) (some b) (some c) (d, i, t, v) (inr m) =
    inr (rw (d, i, t, v) at m)
