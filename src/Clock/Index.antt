-- ===== src/Clock/Index.antt =====
-- `indexOfTradingDay`, `indexOfBar` and `indexOfBarOnSession` of
-- market-simulator/internal/clock/registry.go.
use agentic_sim_trading.Common.{
  ℕ, ◌+◌, ◌<◌, ◌≡◌, refl, ◌⊎◌, inl, inr, ◌||◌, Option, none, some, List, [], ◌∷◌, arith, leb, ◌==◌,
  if◌then◌else◌, Option-cases, length,
}
use agentic_sim_trading.Market.Session.{Time, is_zero, truncate_day, session_calendar_utc}

-- the loops, from position `i`
abbrev day_from : Time → ℕ → List Time → ℕ
day_from day i [] = 0
day_from day i (d ∷ ds) =
    let rest = day_from day (i + 1) ds in if truncate_day d == day then i else rest

unfoldable pub index_of_trading_day : List Time → Time → ℕ
index_of_trading_day days as_of = day_from (truncate_day as_of) 0 days

abbrev pub bar_from : Time → (i best : ℕ) → List Time → ℕ
bar_from as_of i best [] = best
bar_from as_of i best (ts ∷ bars) =
    let taken = bar_from as_of (i + 1) i bars in
    let passed = bar_from as_of (i + 1) best bars in
    if leb ts as_of then if ts == as_of then i else taken else passed

unfoldable pub index_of_bar : List Time → Time → ℕ
index_of_bar bars as_of = if is_zero as_of || length bars == 0 then 0 else bar_from as_of 0 0 bars

-- the first bar of the session
abbrev on_session_from : Time → ℕ → List Time → Option ℕ
unfolding session_calendar_utc
on_session_from cal i [] = none
on_session_from cal i (ts ∷ bars) =
    let rest = on_session_from cal (i + 1) bars in
    if session_calendar_utc ts == cal then some i else rest

unfoldable pub index_of_bar_on_session : List Time → Time → ℕ
unfolding session_calendar_utc on_session_from index_of_bar
index_of_bar_on_session bars session =
    elim (on_session_from (session_calendar_utc session) 0 bars) [
      | some i ↦ i
      | none ↦ index_of_bar bars session
    ]

day_from_lt :
    (day i : ℕ) (ds : List Time) → (day_from day i ds ≡ 0) ⊎ (day_from day i ds < i + length ds)
day_from_lt day i [] = inl refl
day_from_lt day i (d ∷ ds) = ground (arith, day_from_lt day (i + 1) ds)

bar_from_lt :
    (as_of i best : ℕ) (ds : List Time)
    → (bar_from as_of i best ds ≡ best) ⊎ (bar_from as_of i best ds < i + length ds)
bar_from_lt as_of i best [] = inl refl
bar_from_lt as_of i best (d ∷ ds) =
    ground (arith, bar_from_lt as_of (i + 1) i ds, bar_from_lt as_of (i + 1) best ds)

index_of_bar-lt :
    (bars : List Time) (as_of : Time) → 0 < length bars → index_of_bar bars as_of < length bars
unfolding index_of_bar
index_of_bar-lt bars as_of some_bar = ground (arith, bar_from_lt as_of 0 0 bars)

on_session_from_lt :
    (cal i : ℕ) (ds : List Time) (j : ℕ) → on_session_from cal i ds ≡ some j → j < i + length ds
unfolding on_session_from session_calendar_utc
on_session_from_lt cal i [] j e = cc
on_session_from_lt cal i (d ∷ ds) j e = ground (arith, on_session_from_lt cal (i + 1) ds j)

-- Wherever a simulation resumes, the index is one of the calendar's, if the calendar is not empty.
pub index_of_lt :
    (days : List Time) (as_of : Time)
    → 0 < length days
    → (index_of_trading_day days as_of < length days)
      × (index_of_bar days as_of < length days)
      × (index_of_bar_on_session days as_of < length days)
unfolding index_of_trading_day index_of_bar_on_session
index_of_lt days as_of some_day = (
  ground (arith, day_from_lt (truncate_day as_of) 0 days),
  index_of_bar-lt days as_of some_day,
  elim (Option-cases (on_session_from (session_calendar_utc as_of) 0 days)) [
    | inl e ↦ rw (index_of_bar_on_session, e) (index_of_bar-lt days as_of some_day)
    | inr (i, e) ↦
        rw (index_of_bar_on_session, e)
          (ground (arith, on_session_from_lt (session_calendar_utc as_of) 0 days i e))
  ],
)
