-- ===== src/Api/PlaceOrder/Outcome.antt =====
-- What `PlaceOrder` of market-simulator/internal/api/handlers.go leaves, whatever the request.
use agentic_sim_trading.Common.{
  ℕ, ◌≤◌, ◌≡◌, refl, ap, ◌⊎◌, inl, inr, false, not, ◌&&◌, ◌||◌, Option, none, some, [], ◌∷◌, ◌++◌,
  arith, ◌==◌, Bool-cases, Option-cases, Sum-cases,
}
use agentic_sim_trading.Api.PlaceOrder.Slots.{
  IsDue, OneMore, Refused, match_target-IsTarget, rolled_back, full_slot, taken_slot,
}
use agentic_sim_trading.Float.{Float64}
use agentic_sim_trading.Simulation.{is_completed}
use agentic_sim_trading.Portfolio.Dq.{is_disqualified}
use agentic_sim_trading.Validation.{order}
use agentic_sim_trading.Validation.Accepted.{order_iff, IsAmount}
use agentic_sim_trading.Common.Int.{ℤ, negsuc}
use agentic_sim_trading.Common.Int.{pos, pos_part}
use agentic_sim_trading.Database.{OrderStatus, OrderRow}
use agentic_sim_trading.Orders.{insert_pending, stored_price}
use agentic_sim_trading.Market.Session.{Time, truncate_day}
use agentic_sim_trading.Market.Data.{Tables}
use agentic_sim_trading.Clock.SimClock.{SimClock}
use agentic_sim_trading.Clock.State.{
  State, order_fills_on_current_date, try_accept_order_submission,
}
use agentic_sim_trading.Api.Cancel.{denied_status}
use agentic_sim_trading.Api.{Handler, agent_access_denied, Response}
use agentic_sim_trading.Api.PlaceOrder.{
  normalized, on_clock, place_decoded, place_order, persist, submit, OrderRequest, match_target,
}

module _ {F : Type 0} ⦃fl : Float64 F⦄ where
  -- the row is the order of the request, its price as the column holds it, and it is pending
  abbrev pub IsOrderOf : OrderRequest F → OrderRow F → Type 0
  IsOrderOf req row =
      (row.status ≡ OrderStatus.pending)
      × (row.simulation_id ≡ req.simulation_id)
      × (row.agent_id ≡ req.agent_id)
      × (row.symbol ≡ req.symbol)
      × (row.order_type ≡ req.order_type)
      × (row.side ≡ req.side)
      × (pos row.quantity ≡ req.quantity)
      × (row.price ≡ stored_price req.price)
      × (row.filled_quantity ≡ 0)

  -- One order is added, for a time that has not passed, and uses one slot of the agent.
  abbrev pub IsPlaced : SimClock → OrderRequest F → State F → State F → Type 0
  IsPlaced c req s s' =
      ((row : OrderRow F) × (s'.db.orders ≡ s.db.orders ++ (row ∷ []))
        × IsOrderOf req row
        × IsDue c row.match_on_date row.match_on_ts)
      × (s'.db.portfolios ≡ s.db.portfolios)
      × (s'.db.holdings ≡ s.db.holdings)
      × (s'.db.snapshots ≡ s.db.snapshots)
      × (s'.row ≡ s.row)
      × (s'.clock ≡ s.clock)
      × OneMore req.agent_id s.order_counts s'.order_counts

  abbrev pub Submitted : SimClock → OrderRequest F → State F → Response F × State F → Type 0
  Submitted c req s r =
      ((r.0.status ≡ 201) × IsPlaced c req s r.1) ⊎ ((400 ≤ r.0.status) × Refused s r.1)

  abbrev placed_row : (id created_at : ℕ) → OrderRequest F → Time → Option Time → OrderRow F
  placed_row id created_at req on ts = record {
    id = id;
    simulation_id = req.simulation_id;
    agent_id = req.agent_id;
    symbol = req.symbol;
    order_type = req.order_type;
    side = req.side;
    quantity = pos_part req.quantity;
    price = stored_price req.price;
    status = OrderStatus.pending;
    match_on_date = truncate_day on;
    match_on_ts = ts;
    filled_quantity = 0;
    remaining_quantity = some (pos_part req.quantity);
    filled_price = none;
    filled_at = none;
    filled_at_ts = none;
    trade_value = none;
    fees = none;
    rejection_reason = none;
    created_at = created_at;
  }

  persist-IsPlaced :
      (id created_at : ℕ) (c : SimClock) (req : OrderRequest F) (on : Time) (ts : Option Time)
      (s s' : State F)
      → IsDue c (truncate_day on) ts
      → pos (pos_part req.quantity) ≡ req.quantity
      → OneMore req.agent_id s.order_counts s'.order_counts
        × (s'.db ≡ s.db)
        × (s'.row ≡ s.row)
        × (s'.clock ≡ s.clock)
        × (s'.last_matched ≡ s.last_matched)
      → IsPlaced c req s (persist id created_at req on ts s').1
  unfolding persist insert_pending
  persist-IsPlaced id created_at c req on ts s s' due amount taken = (
    (
      placed_row id created_at req on ts,
      ap (λ db. db.orders ++ (placed_row id created_at req on ts ∷ [])) taken.1,
      (refl, refl, refl, refl, refl, refl, amount, refl, refl),
      due,
    ),
    ap (λ db. db.portfolios) taken.1,
    ap (λ db. db.holdings) taken.1,
    ap (λ db. db.snapshots) taken.1,
    taken.2,
    taken.3,
    taken.0,
  )

  submit-Submitted :
      (tables : Tables F) (id created_at : ℕ) (c : SimClock) (req : OrderRequest F) (s : State F)
      → pos (pos_part req.quantity) ≡ req.quantity
      → Submitted c req s (submit tables id created_at c req s)
  unfolding submit
  submit-Submitted tables id created_at c req s amount =
      let s' = (try_accept_order_submission req.agent_id s).1 in
      elim (Bool-cases (try_accept_order_submission req.agent_id s).0) [
        | inr full ↦ rw (submit, full) (inr (omega arith, full_slot req.agent_id s full))
        | inl slot ↦
            let due = match_target-IsTarget tables c (order_fills_on_current_date s') in
            elim (Sum-cases (match_target tables c (order_fills_on_current_date s'))) [
              | inl (reason, e) ↦
                  rw (submit, slot, e) (inr (omega arith, rolled_back req.agent_id s slot))
              | inr (target, e) ↦
                  rw (submit, slot, e)
                    (inl (
                      refl,
                      persist-IsPlaced id created_at c req target.0 target.1 s s' (rw e at due)
                          amount (taken_slot req.agent_id s slot),
                    ))
            ]
      ]

  unchanged : (s : State F) → Refused s s
  unchanged s = (refl, refl, refl, refl, λ a. refl)

  -- The clock is not completed and the agent not disqualified.
  abbrev pub OnClock : Handler → OrderRequest F → State F → Response F × State F → Type 0
  OnClock h req s r =
      ((r.0.status ≡ 201)
        × (c : SimClock) × (s.clock ≡ some c)
        × (is_completed c.status ≡ false)
        × ((h.portfolio && is_disqualified req.simulation_id req.agent_id s.db) ≡ false)
        × IsPlaced c req s r.1)
      ⊎ ((400 ≤ r.0.status) × Refused s r.1)

  on_clock-OnClock :
      (h : Handler) (tables : Tables F) (id created_at : ℕ) (req : OrderRequest F) (s : State F)
      (o : Option SimClock)
      → s.clock ≡ o
      → pos (pos_part req.quantity) ≡ req.quantity
      → OnClock h req s (on_clock h tables id created_at req s o)
  unfolding on_clock
  on_clock-OnClock h tables id created_at req s none e amount = inr (omega arith, unchanged s)
  on_clock-OnClock h tables id created_at req s (some c) e amount =
      elim (Bool-cases (is_completed c.status)) [
        | inl over ↦ rw (on_clock, over) (inr (omega arith, unchanged s))
        | inr going ↦
            elim (Bool-cases (h.portfolio && is_disqualified req.simulation_id req.agent_id s.db)) [
              | inl dq ↦ rw (on_clock, going, dq) (inr (omega arith, unchanged s))
              | inr fine ↦
                  rw (on_clock, going, fine)
                    (elim (submit-Submitted tables id created_at c req s amount) [
                      | inl (done, placed) ↦ inl (done, c, e, going, refl, placed)
                      | inr refused ↦ inr refused
                    ])
            ]
      ]

amount_pos : (q : ℤ) → IsAmount q → pos (pos_part q) ≡ q
amount_pos (pos n) h = refl
amount_pos (negsuc n) h = absurd h

module _ {F : Type 0} ⦃fl : Float64 F⦄ where
  -- A placed order is of an agent who may act as the caller, passes the checks of an order, and is the request with
  -- its texts trimmed.
  abbrev pub PlaceOutcome :
      Handler → Option ℕ → Option (OrderRequest F) → State F → Response F × State F → Type 0
  PlaceOutcome h caller request s r =
      ((r.0.status ≡ 201)
        × (req : OrderRequest F) × (c : SimClock) × (request ≡ some req)
        × (s.clock ≡ some c)
        × (is_completed c.status ≡ false)
        × (agent_access_denied {F = F} h caller req.agent_id ≡ none)
        × (order (normalized req).symbol (normalized req).order_type (normalized req).side
              req.quantity req.price
            ≡ none)
        × ((h.portfolio && is_disqualified req.simulation_id req.agent_id s.db) ≡ false)
        × IsPlaced c (normalized req) s r.1)
      ⊎ ((400 ≤ r.0.status) × Refused s r.1)

  place_decoded-PlaceOutcome :
      (h : Handler) (tables : Tables F) (id created_at : ℕ) (caller : Option ℕ)
      (req : OrderRequest F) (s : State F)
      → PlaceOutcome h caller
          (some req)
          s
          (place_decoded h tables id created_at caller (normalized req) s)
  unfolding place_decoded normalized
  place_decoded-PlaceOutcome h tables id created_at caller req s =
      let q = normalized req in
      elim (Bool-cases ((req.simulation_id == 0) || (req.agent_id == 0))) [
        | inl nil_id ↦ rw (place_decoded, nil_id) (inr (omega arith, unchanged s))
        | inr ids ↦ elim (Option-cases (agent_access_denied {F = F} h caller req.agent_id)) [
          | inr (d, e) ↦
              rw (place_decoded, ids, e) (inr (denied_status h caller req.agent_id e, unchanged s))
          | inl may ↦
              elim (Option-cases (order q.symbol q.order_type q.side req.quantity req.price)) [
                | inr (x, e) ↦ rw (place_decoded, ids, may, e) (inr (omega arith, unchanged s))
                | inl valid ↦
                    let amount =
                      ((order_iff q.symbol q.order_type q.side req.quantity req.price).0 valid).3 in
                    rw (place_decoded, ids, may, valid)
                      (elim (on_clock-OnClock h tables id created_at q s s.clock refl
                        (amount_pos req.quantity amount)) [
                          | inl (done, c, e, going, fine, placed) ↦
                              inl (done, req, c, refl, e, going, may, valid, fine, placed)
                          | inr refused ↦ inr refused
                        ])
              ]
        ]
      ]

  -- Whatever the request: either the response is 201, the caller may act for the request's agent, the checks accept the
  -- order, the clock is loaded and not completed, the agent is not disqualified and had a slot left, and exactly
  -- that order is added, with its price as the column stores it, pending and for a time that has not passed; or the
  -- status is 400 or more, and the tables, the clock and every agent's count of submissions are as they were.
  pub place_order-PlaceOutcome :
      (h : Handler) (tables : Tables F) (id created_at : ℕ) (caller : Option ℕ)
      (request : Option (OrderRequest F)) (s : State F)
      → PlaceOutcome h caller request s (place_order h tables id created_at caller request s)
  unfolding place_order
  place_order-PlaceOutcome h tables id created_at caller request s = elim (Bool-cases h.db) [
    | inr none_there ↦ rw (place_order, none_there) (inr (omega arith, unchanged s))
    | inl there ↦ elim (Bool-cases (not h.market || not h.clocks)) [
      | inl missing ↦ rw (place_order, there, missing) (inr (omega arith, unchanged s))
      | inr all ↦ elim (Option-cases request) [
        | inl e ↦ rw (place_order, there, all, e) (inr (omega arith, unchanged s))
        | inr (req, e) ↦
            rw (place_order, there, all, e)
              (place_decoded-PlaceOutcome h tables id created_at caller req s)
      ]
    ]
  ]
