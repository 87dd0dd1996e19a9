-- ===== src/Orders/Statements.antt =====
-- market-simulator/internal/orders/store.go: the queries, and the statements that do not record a fill.
use agentic_sim_trading.Common.{
  ℕ, ◌+◌, ◌-◌, Bool, false, ◌&&◌, ◌||◌, Option, none, some, List, [], ◌∷◌, ◌++◌, ltb, leb, ◌==◌,
  if◌then◌else◌, select, find?, update, any, order_by,
}
use agentic_sim_trading.Common.Text.{Text, codes, text_eq, to_lower}
use agentic_sim_trading.Market.Session.{Time, truncate_day}
use agentic_sim_trading.Float.{Float64}
use agentic_sim_trading.Orderbook.Rules.{Reason}
use agentic_sim_trading.Database.{OrderStatus, is_pending, OrderRow}

abbrev pub Orders : Type 0 → Type 0
Orders F = List (OrderRow F)

-- `match_on_ts = $3`, which is not true of NULL
abbrev pub ts_equals : Option Time → Time → Bool
ts_equals none ts = false
ts_equals (some t) ts = t == ts

module _ {F : Type 0} where
  unfoldable pub working_qty : OrderRow F → ℕ
  working_qty r = elim r.remaining_quantity [
    | some n ↦ n
    | none ↦
        if ltb 0 r.filled_quantity && ltb r.filled_quantity r.quantity
        then r.quantity - r.filled_quantity
        else r.quantity
  ]

  -- a price as a column NUMERIC(12, 4) holds it
  abbrev pub stored_price : ⦃fl : Float64 F⦄ → Option F → Option F
  stored_price none = none
  stored_price ⦃fl⦄ (some p) = some (fl.numeric p)

  -- the id is drawn by the database, and so is `created_at`
  unfoldable pub insert_pending :
      ⦃fl : Float64 F⦄
      → (id created_at simulation_id agent_id : ℕ) (symbol order_type side : Text) (quantity : ℕ)
      → Option F
      → Time
      → Option Time
      → Orders F
      → Orders F
  insert_pending id created_at simulation_id agent_id symbol order_type side quantity price
        match_on_date match_on_ts t =
      t
      ++ (record {
        id = id;
        simulation_id = simulation_id;
        agent_id = agent_id;
        symbol = symbol;
        order_type = order_type;
        side = side;
        quantity = quantity;
        price = stored_price price;
        status = OrderStatus.pending;
        match_on_date = truncate_day match_on_date;
        match_on_ts = match_on_ts;
        filled_quantity = 0;
        remaining_quantity = some quantity;
        filled_price = none;
        filled_at = none;
        filled_at_ts = none;
        trade_value = none;
        fees = none;
        rejection_reason = none;
        created_at = created_at;
      }
          ∷ [])

  -- WHERE id = ... AND status = 'pending'
  abbrev pub pending_with_id : ℕ → OrderRow F → Bool
  pending_with_id id r = r.id == id && is_pending r.status

  -- ORDER BY created_at ASC, id ASC
  abbrev pub received_before : OrderRow F → OrderRow F → Bool
  received_before a b =
      ltb a.created_at b.created_at || (a.created_at == b.created_at && leb a.id b.id)

  unfoldable pub list_pending_for_date : ℕ → Time → Orders F → Orders F
  list_pending_for_date simulation_id trade_date t = order_by received_before (
      select
        (λ r.
          r.simulation_id == simulation_id
          && (is_pending r.status && r.match_on_date == truncate_day trade_date))
        t)

  unfoldable pub list_pending_for_ts : ℕ → Time → Orders F → Orders F
  list_pending_for_ts simulation_id bar_ts t = order_by received_before (
      select
        (λ r.
          r.simulation_id == simulation_id
          && (is_pending r.status && ts_equals r.match_on_ts bar_ts))
        t)

  -- The SET clauses of the statements, as functions on the row.
  abbrev pub as_rejected : Reason → OrderRow F → OrderRow F
  as_rejected reason r = record r { status = OrderStatus.rejected; rejection_reason = some reason }

  abbrev pub as_canceled : OrderRow F → OrderRow F
  as_canceled r = record r { status = OrderStatus.canceled }

  abbrev pub on_date : Time → OrderRow F → OrderRow F
  on_date next r = record r { match_on_date = truncate_day next }

  abbrev pub on_ts : Time → Time → OrderRow F → OrderRow F
  on_ts next match_date r = record r {
    match_on_ts = some next;
    match_on_date = truncate_day match_date;
  }

  unfoldable pub mark_rejected : ℕ → Reason → Orders F → Orders F
  mark_rejected id reason = update (pending_with_id id) (as_rejected reason)

  unfoldable pub update_match_on_date : ℕ → Time → Orders F → Orders F
  update_match_on_date id next = update (pending_with_id id) (on_date next)

  unfoldable pub update_match_on_ts : ℕ → Time → Time → Orders F → Orders F
  update_match_on_ts id next match_date = update (pending_with_id id) (on_ts next match_date)

  -- The Boolean is `tag.RowsAffected() > 0`.
  unfoldable pub mark_canceled : ℕ → Orders F → Bool × Orders F
  mark_canceled id t = (any (pending_with_id id) t, update (pending_with_id id) as_canceled t)

  abbrev pub pending_in_simulation : ℕ → ℕ → OrderRow F → Bool
  pending_in_simulation simulation_id id r =
      r.id == id && (r.simulation_id == simulation_id && is_pending r.status)

  unfoldable pub cancel_pending : ℕ → ℕ → Orders F → Bool × Orders F
  cancel_pending simulation_id id t = (
    any (pending_in_simulation simulation_id id) t,
    update (pending_in_simulation simulation_id id) as_canceled t,
  )

  unfoldable pub pending_order_agent_id : ℕ → ℕ → Orders F → Option ℕ
  pending_order_agent_id simulation_id id t =
      elim (find? (pending_in_simulation simulation_id id) t) [
        | none ↦ none
        | some r ↦ some r.agent_id
      ]

  abbrev sum_filled : Orders F → ℕ
  sum_filled [] = 0
  sum_filled (r ∷ rs) = r.filled_quantity + sum_filled rs

  unfoldable pub filled_buy_qty_on_session : ℕ → ℕ → Text → Time → Orders F → ℕ
  unfolding to_lower
  filled_buy_qty_on_session simulation_id agent_id symbol session_date t = sum_filled (
      select
        (λ r.
          r.simulation_id == simulation_id
          && (r.agent_id == agent_id
              && (text_eq r.symbol symbol
                  && (text_eq (to_lower r.side) (codes "buy")
                      && (ltb 0 r.filled_quantity
                          && ts_equals r.filled_at (truncate_day session_date))))))
        t)
