-- ===== src/Api/Cancel.antt =====
-- `CancelOrder` and `ListOrders` of market-simulator/internal/api/handlers.go, and `ListByAgent` of
-- market-simulator/internal/orders/store.go.
use agentic_sim_trading.Common.{
  length-update, ℕ, ◌≤◌, ◌≡◌, refl, ◌≢◌, ◌⊎◌, inl, inr, Bool, not, ◌&&◌, ◌||◌, Option, none, some,
  List, arith, ltb, leb, ◌==◌, if◌then◌else◌, Bool-cases, Option-cases, length, take, select, find?,
  order_by,
}
use agentic_sim_trading.Common.Tables.{find?-update_gone, find?-update_ne, any-find?}
use agentic_sim_trading.Orders.{pending_in_simulation, as_canceled}
use agentic_sim_trading.Common.Int.{ℤ, pos, pos_part, ltb_ℤ, leb_ℤ}
use agentic_sim_trading.Common.Text.{codes}
use agentic_sim_trading.Database.{OrderRow}
use agentic_sim_trading.Orders.{Orders, cancel_pending, pending_order_agent_id}
use agentic_sim_trading.Clock.State.{State}
use agentic_sim_trading.Api.{Handler, Body, Response, QueryId, reply, agent_access_denied}

-- `strconv.Atoi` of the parameter `limit`: `none` where it is missing or not a number
abbrev limit_of : Option ℤ → ℕ
limit_of none = 100
limit_of (some v) = if ltb_ℤ (pos 0) v && leb_ℤ v (pos 500) then pos_part v else 100

module _ {F : Type 0} where
  -- ORDER BY created_at DESC LIMIT $3. The rows stand for the maps that Go makes of their columns.
  unfoldable pub list_by_agent : ℕ → ℕ → ℕ → Orders F → List (OrderRow F)
  list_by_agent simulation_id agent_id limit t =
      take (if (limit == 0) || ltb 500 limit then 100 else limit) (
        order_by (λ a b. leb b.created_at a.created_at)
          (select (λ r. r.simulation_id == simulation_id && r.agent_id == agent_id) t))

  unfoldable pub list_orders :
      Handler
      → (caller : Option ℕ) → (agent_id : Option ℕ) → QueryId
      → Option ℤ
      → State F
      → Response F × State F
  unfolding agent_access_denied list_by_agent
  list_orders h caller none simulation limit s =
      if not h.db
      then (reply 503 (codes "DATABASE_URL required"), s)
      else (reply 400 (codes "invalid agent id"), s)
  list_orders h caller (some agent_id) simulation limit s =
      if not h.db
      then (reply 503 (codes "DATABASE_URL required"), s)
      else elim (agent_access_denied h caller agent_id) [
        | some denied ↦ (denied, s)
        | none ↦ elim simulation [
          | QueryId.missing ↦ (reply 400 (codes "query simulation_id required"), s)
          | QueryId.malformed ↦ (reply 400 (codes "invalid simulation_id"), s)
          | QueryId.given simulation_id ↦ (
            record {
              status = 200;
              body = Body.items (list_by_agent simulation_id agent_id (limit_of limit) s.db.orders);
            },
            s,
          )
        ]
      ]

  -- the handler once both ids are parsed
  unfoldable pub cancel_parsed :
      Handler → (caller : Option ℕ) → (order_id simulation_id : ℕ) → State F → Response F × State F
  unfolding pending_order_agent_id agent_access_denied cancel_pending
  cancel_parsed h caller order_id simulation_id s =
      elim (pending_order_agent_id simulation_id order_id s.db.orders) [
        | none ↦ (reply 404 (codes "pending order not found"), s)
        | some owner ↦ elim (agent_access_denied h caller owner) [
          | some denied ↦ (denied, s)
          | none ↦
              let (found, orders) = cancel_pending simulation_id order_id s.db.orders in
              let s' = record s { db = record (s.db) { orders = orders } } in
              if not found
              then (reply 404 (codes "pending order not found"), s')
              else (reply 200 (codes "canceled"), s')
        ]
      ]

  unfoldable pub cancel_order :
      Handler
      → (caller : Option ℕ) → (order_id : Option ℕ) → QueryId
      → State F
      → Response F × State F
  unfolding cancel_parsed
  cancel_order h caller none simulation s =
      if not h.db
      then (reply 503 (codes "DATABASE_URL required"), s)
      else (reply 400 (codes "invalid order id"), s)
  cancel_order h caller (some order_id) simulation s =
      if not h.db then (reply 503 (codes "DATABASE_URL required"), s) else elim simulation [
        | QueryId.missing ↦ (reply 400 (codes "query simulation_id required"), s)
        | QueryId.malformed ↦ (reply 400 (codes "invalid simulation_id"), s)
        | QueryId.given simulation_id ↦ cancel_parsed h caller order_id simulation_id s
      ]

module _ {F : Type 0} where
  abbrev pub with_order_id : ℕ → OrderRow F → Bool
  with_order_id order_id r = r.id == order_id

  -- The order was pending, of an agent who may act as the caller, and is no longer; every order of another id, and
  -- everything else, is as it was.
  abbrev pub IsCanceled :
      Handler → Option ℕ → (order_id simulation_id : ℕ) → State F → State F → Type 0
  IsCanceled h caller order_id simulation_id s s' =
      ((row : OrderRow F) × (find? (pending_in_simulation simulation_id order_id) s.db.orders
          ≡ some row)
        × (agent_access_denied {F = F} h caller row.agent_id ≡ none))
      × (find? (pending_in_simulation simulation_id order_id) s'.db.orders ≡ none)
      × ((other : ℕ)
          → other ≢ order_id
          → find? (with_order_id other) s'.db.orders ≡ find? (with_order_id other) s.db.orders)
      × (length s'.db.orders ≡ length s.db.orders)
      × (record (s'.db) { orders = s.db.orders } ≡ s.db)
      × (record s' { db = s.db } ≡ s)

  abbrev pub CancelOutcome :
      Handler → Option ℕ → Option ℕ → QueryId → State F → Response F × State F → Type 0
  CancelOutcome h caller order simulation s r =
      ((r.0.status ≡ 200)
        × (order_id : ℕ) × (simulation_id : ℕ) × (order ≡ some order_id)
        × (simulation ≡ QueryId.given simulation_id)
        × IsCanceled h caller order_id simulation_id s r.1)
      ⊎ ((400 ≤ r.0.status) × (r.1 ≡ s))

  -- a denial is a refusal
  pub denied_status :
      (h : Handler) (caller : Option ℕ) (claimed : ℕ) {d : Response F}
      → agent_access_denied h caller claimed ≡ some d
      → 400 ≤ d.status
  unfolding agent_access_denied
  denied_status h caller claimed e = ground (arith, Option-cases caller)

  cancel_pending-IsCanceled :
      (h : Handler) (caller : Option ℕ) (order_id simulation_id : ℕ) (s : State F)
      (row : OrderRow F)
      → find? (pending_in_simulation simulation_id order_id) s.db.orders ≡ some row
      → agent_access_denied {F = F} h caller row.agent_id ≡ none
      → IsCanceled h caller order_id simulation_id s (record s {
        db = record (s.db) { orders = (cancel_pending simulation_id order_id s.db.orders).1 };
      })
  unfolding cancel_pending
  cancel_pending-IsCanceled h caller order_id simulation_id s row e may =
      let p : OrderRow F → Bool = pending_in_simulation simulation_id order_id in
      (
        (row, e, may),
        find?-update_gone p as_canceled (λ a. ground arith) s.db.orders,
        λ other ne.
            find?-update_ne p (with_order_id other) as_canceled (λ a q. ground arith) (λ a. refl)
              s.db.orders,
        length-update p as_canceled s.db.orders,
        refl,
        refl,
      )

  cancel_parsed-CancelOutcome :
      (h : Handler) (caller : Option ℕ) (order_id simulation_id : ℕ) (s : State F)
      → CancelOutcome h caller
          (some order_id)
          (QueryId.given simulation_id)
          s
          (cancel_parsed h caller order_id simulation_id s)
  unfolding cancel_parsed pending_order_agent_id cancel_pending
  cancel_parsed-CancelOutcome h caller order_id simulation_id s =
      elim (Option-cases (find? (pending_in_simulation simulation_id order_id) s.db.orders)) [
        | inl e ↦ rw (cancel_parsed, pending_order_agent_id, e) (inr (omega arith, refl))
        | inr (row, e) ↦ elim (Option-cases (agent_access_denied {F = F} h caller row.agent_id)) [
          | inr (d, denied) ↦
              rw (cancel_parsed, pending_order_agent_id, e, denied)
                (inr (denied_status h caller row.agent_id denied, refl))
          | inl may ↦
              let there = any-find? (pending_in_simulation simulation_id order_id) s.db.orders e in
              rw (cancel_parsed, pending_order_agent_id, e, may, there)
                (inl (
                  refl,
                  order_id,
                  simulation_id,
                  refl,
                  refl,
                  cancel_pending-IsCanceled h caller order_id simulation_id s row e may,
                ))
        ]
      ]

  -- Whatever the request: either the response is 200, the named order was pending in the named simulation, its agent
  -- may act as the caller, it is pending no longer, and no order of another id nor anything else has changed; or
  -- the status is 400 or more and nothing has changed.
  pub cancel_order-CancelOutcome :
      (h : Handler) (caller : Option ℕ) (order : Option ℕ) (simulation : QueryId) (s : State F)
      → CancelOutcome h caller order simulation s (cancel_order h caller order simulation s)
  unfolding cancel_order
  cancel_order-CancelOutcome h caller none simulation s = elim (Bool-cases h.db) [
    | inl e ↦ rw (cancel_order, e) (inr (omega arith, refl))
    | inr e ↦ rw (cancel_order, e) (inr (omega arith, refl))
  ]
  cancel_order-CancelOutcome h caller (some order_id) QueryId.missing s = elim (Bool-cases h.db) [
    | inl e ↦ rw (cancel_order, e) (inr (omega arith, refl))
    | inr e ↦ rw (cancel_order, e) (inr (omega arith, refl))
  ]
  cancel_order-CancelOutcome h caller (some order_id) QueryId.malformed s = elim (Bool-cases h.db) [
    | inl e ↦ rw (cancel_order, e) (inr (omega arith, refl))
    | inr e ↦ rw (cancel_order, e) (inr (omega arith, refl))
  ]
  cancel_order-CancelOutcome h caller (some order_id) (QueryId.given simulation_id) s =
      elim (Bool-cases h.db) [
        | inl e ↦
            rw (cancel_order, e) (cancel_parsed-CancelOutcome h caller order_id simulation_id s)
        | inr e ↦ rw (cancel_order, e) (inr (omega arith, refl))
      ]
