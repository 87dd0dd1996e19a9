-- ===== src/Orderbook/Day.antt =====
-- `ProcessSimulationDay` of market-simulator/internal/orderbook/engine.go.
use agentic_sim_trading.Common.{
  ℕ, Option, none, some, List, [], ◌∷◌, ◌++◌, if◌then◌else◌, Result, ok, err, ◌>>=◌,
}
use agentic_sim_trading.Market.Session.{Time, is_zero, truncate_day}
use agentic_sim_trading.Market.Data.{Tables, bar_on_date, next_trading_day}
use agentic_sim_trading.Float.{Float64}
use agentic_sim_trading.Database.{OrderRow, Db}
use agentic_sim_trading.Orders.{list_pending_for_date, mark_rejected, update_match_on_date}
use agentic_sim_trading.Portfolio.Tx.{list_agent_ids_tx}
use agentic_sim_trading.Orderbook.Rules.{Reason}
use agentic_sim_trading.Orderbook.Events.{
  Event, order_rejected, tick_processed, Work, Screens, emit,
}
use agentic_sim_trading.Orderbook.TryFill.{screen_symbols, distinct_symbols, try_fill_order}
use agentic_sim_trading.Orderbook.Snapshots.{snapshot_agents}

-- `if err != nil || next.IsZero()` after `NextTradingDay`
abbrev pub usable : Result Time → Option Time
usable (err e) = none
usable (ok t) = if is_zero t then none else some t

module _ {F : Type 0} ⦃fl : Float64 F⦄ where
  -- `MarkRejected` and its event
  unfoldable pub reject_order : ℕ → Time → OrderRow F → Reason → Option Time → Work F → Work F
  reject_order simulation_id trade_date o reason bar_ts w =
      emit (order_rejected o.id simulation_id o.agent_id o.symbol reason trade_date bar_ts)
        (record w { db = record (w.db) { orders = mark_rejected o.id reason w.db.orders } })

  -- the body of the loop over `pending`, by the reason that `tryFillOrder` gave
  unfoldable pub after_try_fill : Tables F → ℕ → Time → OrderRow F → Reason → Work F → Work F
  after_try_fill tables simulation_id trade_date o Reason.defer w =
      elim (usable (next_trading_day tables trade_date)) [
        | none ↦ reject_order simulation_id trade_date o Reason.not_filled_before_end none w
        | some next ↦ record w {
          db = record (w.db) { orders = update_match_on_date o.id next w.db.orders };
        }
      ]
  after_try_fill tables simulation_id trade_date o Reason.fine w = w
  after_try_fill tables simulation_id trade_date o reason w =
      reject_order simulation_id trade_date o reason none w

  unfoldable pub match_order : Tables F → Screens → ℕ → Time → OrderRow F → Work F → Work F
  match_order tables screens simulation_id trade_date o w =
      let (reason, w') = try_fill_order tables screens simulation_id trade_date o w in
      after_try_fill tables simulation_id trade_date o reason w'

  unfoldable pub match_orders : Tables F → Screens → ℕ → Time → List (OrderRow F) → Work F → Work F
  match_orders tables screens simulation_id trade_date [] w = w
  match_orders tables screens simulation_id trade_date (o ∷ os) w =
      match_orders tables screens simulation_id trade_date os
        (match_order tables screens simulation_id trade_date o w)

  -- An error rolls the transaction back: nothing is stored or published.
  unfoldable pub process_simulation_day :
      Tables F → ℕ → Time → Db F → Result (Db F × List (Event F))
  process_simulation_day tables simulation_id trade_date db =
      let pending = list_pending_for_date simulation_id trade_date db.orders in
      screen_symbols tables trade_date (distinct_symbols [] pending)
        (record { breaker_on = []; prev_vol = [] }, [])
      >>= λ s.
          let matched =
            match_orders tables s.0 simulation_id trade_date pending
              (record { db = db; cache = s.1; payloads = [] }) in
          snapshot_agents (λ symbol. bar_on_date tables symbol trade_date) simulation_id
            (truncate_day trade_date) (list_agent_ids_tx simulation_id matched.db) matched
          >>= λ w. ok (w.db, w.payloads ++ (tick_processed simulation_id trade_date none ∷ []))
