-- ===== src/Clock/Limits.antt =====
-- The limits of an agent's submissions and calls in one tick.
use agentic_sim_trading.Common.{ℕ, ◌≤◌, ◌<◌, ◌≡◌, ◌↔◌, true, arith}
use agentic_sim_trading.Clock.State.{
  State, try_accept_order_submission, rollback_order_submission, allow_api_call,
}

module _ {F : Type 0} where
  -- A submission is accepted exactly while the agent has fewer than 10 in the tick; taking an accepted one back
  -- restores every agent's count; and no submission or call takes a count above 10 or 100.
  pub submission_limits :
      (s : State F) (a b : ℕ)
      → let r = try_accept_order_submission a s in
        ((r.0 ≡ true) ↔ (s.order_counts a < 10))
        × (r.0 ≡ true → (rollback_order_submission a r.1).order_counts b ≡ s.order_counts b)
        × (s.order_counts b ≤ 10 → r.1.order_counts b ≤ 10)
        × (s.api_calls b ≤ 100 → (allow_api_call a s).1.api_calls b ≤ 100)
  unfolding try_accept_order_submission rollback_order_submission allow_api_call
  submission_limits s a b = (ground arith, ground arith, ground arith, ground arith)
