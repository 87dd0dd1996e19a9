-- ===== src/Api/PlaceOrder/Slots.antt =====
-- When an order may match, and the slots of an agent's submissions, in `PlaceOrder` of
-- market-simulator/internal/api/handlers.go.
use agentic_sim_trading.Common.{
  ℕ, ◌+◌, ◌≤◌, ◌<◌, ◌≡◌, refl, ◌≢◌, ◌⊎◌, inl, inr, Bool, true, false, Option, none, some, arith,
  leb, Bool-cases, Result-cases,
}
use agentic_sim_trading.Market.Session.{Time, is_zero, truncate_day}
use agentic_sim_trading.Market.Data.{Tables, next_trading_day, next_bar}
use agentic_sim_trading.Market.Lookup.{next_trading_day_lem}
use agentic_sim_trading.Clock.SimClock.{SimClock, hourly}
use agentic_sim_trading.Clock.State.{
  State, Counts, try_accept_order_submission, rollback_order_submission,
}
use agentic_sim_trading.Common.Text.{Text}
use agentic_sim_trading.Api.PlaceOrder.{match_target}

-- When an order of a day may match, and an order of a bar.
abbrev pub IsDue : SimClock → Time → Option Time → Type 0
IsDue c on none = (hourly c ≡ false) × (truncate_day c.current_date ≤ on)
IsDue c on (some t) = (hourly c ≡ true) × (c.current_date ≤ t)

-- One slot of the agent is used.
abbrev pub OneMore : ℕ → Counts → Counts → Type 0
OneMore agent_id before after =
    (before agent_id < 10)
    × (after agent_id ≡ before agent_id + 1)
    × ((a : ℕ) → a ≢ agent_id → after a ≡ before a)

-- what `match_target` may give
abbrev pub IsTarget : SimClock → Text ⊎ (Time × Option Time) → Type 0
IsTarget c (inl reason) = Unit
IsTarget c (inr target) = IsDue c (truncate_day target.0) target.1

truncate_day_idem : (t : Time) → truncate_day t ≤ truncate_day (truncate_day t)
truncate_day_idem t = omega arith

truncate_day_mono : (t u : Time) → truncate_day t < u → truncate_day t ≤ truncate_day u
truncate_day_mono t u h = omega arith

module _ {F : Type 0} where
  -- Nothing of the simulation has changed, and no agent's count of submissions.
  abbrev pub Refused : State F → State F → Type 0
  Refused s s' =
      (s'.db ≡ s.db)
      × (s'.row ≡ s.row)
      × (s'.clock ≡ s.clock)
      × (s'.last_matched ≡ s.last_matched)
      × ((a : ℕ) → s'.order_counts a ≡ s.order_counts a)

  pub match_target-IsTarget :
      (tables : Tables F) (c : SimClock) (now : Bool) → IsTarget c (match_target tables c now)
  unfolding match_target
  match_target-IsTarget tables c now = elim (Bool-cases (hourly c)) [
    | inl e ↦ elim (Bool-cases now) [
      | inl n ↦ rw (match_target, e, n) (e, omega arith)
      | inr n ↦ elim (Result-cases (next_bar tables c.current_date)) [
        | inr (x, q) ↦ rw (match_target, e, n, q) tt
        | inl (t, q) ↦
            let later = (next_trading_day_lem tables c.current_date).1 in
            let after : c.current_date < t = (rw q at later).0 in
            elim (Bool-cases (is_zero t)) [
              | inl z ↦ rw (match_target, e, n, q, z) tt
              | inr z ↦ rw (match_target, e, n, q, z) (e, omega arith)
            ]
      ]
    ]
    | inr e ↦ elim (Bool-cases now) [
      | inl n ↦ rw (match_target, e, n) (e, truncate_day_idem c.current_date)
      | inr n ↦ elim (Result-cases (next_trading_day tables (truncate_day c.current_date))) [
        | inr (x, q) ↦ rw (match_target, e, n, q) tt
        | inl (t, q) ↦
            let later = (next_trading_day_lem tables (truncate_day c.current_date)).0 in
            let after : truncate_day c.current_date < t = (rw q at later).0 in
            elim (Bool-cases (is_zero t)) [
              | inl z ↦ rw (match_target, e, n, q, z) tt
              | inr z ↦ rw (match_target, e, n, q, z) (e, truncate_day_mono c.current_date t after)
            ]
      ]
    ]
  ]

  pub rolled_back :
      (agent_id : ℕ) (s : State F)
      → let s' = (try_accept_order_submission agent_id s).1 in
        (try_accept_order_submission agent_id s).0 ≡ true
        → Refused s (rollback_order_submission agent_id s')
  unfolding try_accept_order_submission rollback_order_submission
  rolled_back agent_id s e = elim (Bool-cases (leb 10 (s.order_counts agent_id))) [
    | inl full ↦ let never : false ≡ true = rw full at e in cc
    | inr free ↦ rw free (refl, refl, refl, refl, λ a. ground arith)
  ]

  pub full_slot :
      (agent_id : ℕ) (s : State F)
      → (try_accept_order_submission agent_id s).0 ≡ false
      → Refused s (try_accept_order_submission agent_id s).1
  unfolding try_accept_order_submission
  full_slot agent_id s e = elim (Bool-cases (leb 10 (s.order_counts agent_id))) [
    | inl full ↦ rw full (refl, refl, refl, refl, λ a. refl)
    | inr free ↦ let never : true ≡ false = rw free at e in cc
  ]

  pub taken_slot :
      (agent_id : ℕ) (s : State F)
      → (try_accept_order_submission agent_id s).0 ≡ true
      → let s' = (try_accept_order_submission agent_id s).1 in
        OneMore agent_id s.order_counts s'.order_counts
        × (s'.db ≡ s.db)
        × (s'.row ≡ s.row)
        × (s'.clock ≡ s.clock)
        × (s'.last_matched ≡ s.last_matched)
  unfolding try_accept_order_submission
  taken_slot agent_id s e = elim (Bool-cases (leb 10 (s.order_counts agent_id))) [
    | inl full ↦ let never : false ≡ true = rw full at e in cc
    | inr free ↦
        rw free ((ground arith, ground arith, λ a ne. ground arith), refl, refl, refl, refl)
  ]
