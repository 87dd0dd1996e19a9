-- ===== src/Api/PlaceOrder.antt =====
-- `PlaceOrder` of market-simulator/internal/api/handlers.go.
pub mod Slots
pub mod Outcome
use agentic_sim_trading.Common.{
  ℕ, ◌⊎◌, inl, inr, Bool, not, ◌&&◌, ◌||◌, Option, none, some, ◌==◌, if◌then◌else◌, Result, ok, err,
}
use agentic_sim_trading.Common.Int.{ℤ, pos_part}
use agentic_sim_trading.Common.Text.{Text, codes, to_lower, trim_space}
use agentic_sim_trading.Market.Session.{Time, is_zero, truncate_day, session_calendar_utc}
use agentic_sim_trading.Market.Data.{Tables, next_trading_day, next_bar}
use agentic_sim_trading.Float.{Float64}
use agentic_sim_trading.Simulation.{is_completed}
use agentic_sim_trading.Orders.{insert_pending}
use agentic_sim_trading.Portfolio.Dq.{is_disqualified}
use agentic_sim_trading.Clock.SimClock.{SimClock, hourly}
use agentic_sim_trading.Clock.State.{
  State, try_accept_order_submission, rollback_order_submission, order_fills_on_current_date,
}
use agentic_sim_trading.Validation.{OrderError, order}
use agentic_sim_trading.Api.{Handler, Body, Response, reply, agent_access_denied}

-- the decoded body; an id of 0 is `uuid.Nil`
pub record OrderRequest (F : Type 0) : Type 0 where
  pub simulation_id : ℕ
  pub agent_id : ℕ
  pub symbol : Text
  pub order_type : Text
  pub side : Text
  pub quantity : ℤ
  pub price : Option F

unfoldable pub order_error_text : OrderError → Text
order_error_text OrderError.empty_symbol = codes "symbol required"
order_error_text OrderError.invalid_side = codes "side must be buy or sell"
order_error_text OrderError.invalid_qty = codes "quantity must be a positive integer"
order_error_text OrderError.invalid_order_type = codes "order_type must be market, limit, or stop"
order_error_text OrderError.symbol_universe = codes "symbol must be a Nifty 50 ticker (.NS)"
order_error_text OrderError.limit_price = codes "limit and stop orders require a positive price"

-- a query that failed or found no time
abbrev pub found : Result Time → Option Time
found (err e) = none
found (ok t) = if is_zero t then none else some t

module _ {F : Type 0} where
  -- The texts of a request are trimmed, and two of them in lower case, before anything else.
  unfoldable pub normalized : OrderRequest F → OrderRequest F
  unfolding trim_space to_lower
  normalized req = record req {
    symbol = trim_space req.symbol;
    order_type = to_lower (trim_space req.order_type);
    side = to_lower (trim_space req.side);
  }

  -- `matchOn` and `matchTs`, or the reason why there is no time to match at
  unfoldable pub match_target : Tables F → SimClock → (now : Bool) → Text ⊎ (Time × Option Time)
  unfolding session_calendar_utc next_bar next_trading_day
  match_target tables c now =
      if hourly c
      then if now
        then inr (session_calendar_utc c.current_date, some c.current_date)
        else elim (found (next_bar tables c.current_date)) [
          | none ↦ inl (codes "no next bar after current simulation time")
          | some next ↦ inr (session_calendar_utc next, some next)
        ]
      else if now
      then inr (truncate_day c.current_date, none)
      else elim (found (next_trading_day tables (truncate_day c.current_date))) [
        | none ↦ inl (codes "no next trading day after current simulation date")
        | some next ↦ inr (next, none)
      ]

module _ {F : Type 0} ⦃fl : Float64 F⦄ where
  -- the handler from `InsertPending` on: the database draws `id` and `created_at`
  unfoldable pub persist :
      (id created_at : ℕ) → OrderRequest F → Time → Option Time → State F → Response F × State F
  unfolding insert_pending
  persist id created_at req match_on match_ts s = (
    record { status = 201; body = Body.order_placed id match_on match_ts },
    record s {
      db = record (s.db) {
        orders =
            insert_pending id created_at req.simulation_id req.agent_id req.symbol req.order_type
              req.side (pos_part req.quantity) req.price match_on match_ts s.db.orders;
      };
    },
  )

  -- the handler from `TryAcceptOrderSubmission` on
  unfoldable pub submit :
      Tables F → (id created_at : ℕ) → SimClock → OrderRequest F → State F → Response F × State F
  unfolding try_accept_order_submission rollback_order_submission order_fills_on_current_date
      match_target persist
  submit tables id created_at c req s =
      let (accepted, s') = try_accept_order_submission req.agent_id s in
      if not accepted
      then (reply 429 (codes "tick_order_limit_exceeded"), s')
      else elim (match_target tables c (order_fills_on_current_date s')) [
        | inl reason ↦ (reply 400 reason, rollback_order_submission req.agent_id s')
        | inr target ↦ persist id created_at req target.0 target.1 s'
      ]

  -- the handler from `ActiveClock` on, given the clock
  unfoldable pub on_clock :
      Handler
      → Tables F
      → (id created_at : ℕ) → OrderRequest F
      → State F
      → Option SimClock
      → Response F × State F
  unfolding is_disqualified submit
  on_clock h tables id created_at req s none =
      (reply 409 (codes "simulation clock must be running or paused"), s)
  on_clock h tables id created_at req s (some c) =
      if is_completed c.status
      then (reply 409 (codes "simulation clock must be running or paused"), s)
      else if h.portfolio && is_disqualified req.simulation_id req.agent_id s.db
      then (reply 409 (codes "agent is disqualified"), s)
      else submit tables id created_at c req s

  -- the handler once the body is decoded
  unfoldable pub place_decoded :
      Handler
      → Tables F
      → (id created_at : ℕ) → (caller : Option ℕ) → OrderRequest F
      → State F
      → Response F × State F
  unfolding agent_access_denied order order_error_text on_clock
  place_decoded h tables id created_at caller req s =
      if (req.simulation_id == 0) || (req.agent_id == 0)
      then (reply 400 (codes "simulation_id and agent_id required"), s)
      else elim (agent_access_denied h caller req.agent_id) [
        | some denied ↦ (denied, s)
        | none ↦ elim (order req.symbol req.order_type req.side req.quantity req.price) [
          | some e ↦ (reply 400 (order_error_text e), s)
          | none ↦ on_clock h tables id created_at req s s.clock
        ]
      ]

  -- `none` is a body that is not the JSON of a request.
  unfoldable pub place_order :
      Handler
      → Tables F
      → (id created_at : ℕ) → (caller : Option ℕ) → Option (OrderRequest F)
      → State F
      → Response F × State F
  unfolding normalized place_decoded
  place_order h tables id created_at caller req s =
      if not h.db
      then (reply 503 (codes "DATABASE_URL required"), s)
      else if not h.market || not h.clocks
      then (reply 503 (codes "market data or clock registry not configured"), s)
      else elim req [
        | none ↦ (reply 400 (codes "invalid JSON body"), s)
        | some r ↦ place_decoded h tables id created_at caller (normalized r) s
      ]
