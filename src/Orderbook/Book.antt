-- ===== src/Orderbook/Book.antt =====
-- `ProcessSimulationDay` of market-simulator/internal/orderbook/engine.go leaves no order of its day open.
use agentic_sim_trading.Common.{
  Error, ℕ, ◌<◌, ◌≡◌, ap, ◌∙◌, inl, inr, false, Option, none, some, List, [], ◌∷◌, arith, ltb,
  if◌then◌else◌, Bool-cases, Option-cases, All, select, order_by, Result, ok, err, Result-cases,
}
use agentic_sim_trading.Orderbook.Marks.{snapshot_agents-Keeps}
use agentic_sim_trading.Orderbook.Events.{Event}
use agentic_sim_trading.Portfolio.Tx.{list_agent_ids_tx}
use agentic_sim_trading.Market.Data.{bar_on_date}
use agentic_sim_trading.Orderbook.TryFill.{screen_symbols, distinct_symbols}
use agentic_sim_trading.Orderbook.Day.{process_simulation_day}
use agentic_sim_trading.Common.Text.{Text}
use agentic_sim_trading.Common.Counting.{All-select}
use agentic_sim_trading.Market.Session.{Time, is_zero, truncate_day}
use agentic_sim_trading.Market.Data.{Tables, Quote, next_trading_day, earliest}
use agentic_sim_trading.Market.Newest.{IsMidnight}
use agentic_sim_trading.Market.Lookup.{next_trading_day_lem}
use agentic_sim_trading.Float.{Float64}
use agentic_sim_trading.Database.{OrderRow, Db}
use agentic_sim_trading.Orders.{
  Orders, as_rejected, on_date, mark_rejected, update_match_on_date, list_pending_for_date,
  received_before,
}
use agentic_sim_trading.Orderbook.Rules.{Reason}
use agentic_sim_trading.Orderbook.Events.{Work, Screens}
use agentic_sim_trading.Orderbook.Snapshots.{snapshot_agents}
use agentic_sim_trading.Orderbook.TryFill.{try_fill_order}
use agentic_sim_trading.Orderbook.Day.{reject_order, after_try_fill, match_order, match_orders}
use agentic_sim_trading.Orderbook.Attempts.{Tried, try_fill_order-Tried}
use agentic_sim_trading.Orderbook.Settled.{
  due, IsSettled, update-IsSettled, IsWaiting, IsWaiting-next, IsWaiting-select, nothing_due,
}

module _ {F : Type 0} where
  earliest-IsMidnight :
      (rows : List (Quote F)) {t : Time}
      → All (λ q. IsMidnight q.date) rows
      → earliest (λ q. q.date) rows ≡ some t
      → IsMidnight t
  unfolding earliest
  earliest-IsMidnight [] h e = cc
  earliest-IsMidnight (q ∷ qs) {t} h e = elim (Option-cases (earliest (λ x. x.date) qs)) [
    | inl n ↦ let same : some q.date ≡ some t = rw (earliest, n) at e in ground arith
    | inr (u, n) ↦
        let later = earliest-IsMidnight qs h.1 n in
        let choice : (if ltb u q.date then some u else some q.date) ≡ some t =
          rw (earliest, n) at e in
        ground (arith, h.0)
  ]

  next_day-IsMidnight :
      (tables : Tables F) (day : Time) {t : Time}
      → All (λ q. IsMidnight q.date) tables.ohlcv
      → next_trading_day tables day ≡ ok t
      → IsMidnight t
  unfolding next_trading_day
  next_day-IsMidnight tables day {t} h e =
      let later = select (λ q. ltb day q.date) tables.ohlcv in
      let dates = All-select (λ q. IsMidnight q.date) (λ q. ltb day q.date) tables.ohlcv h in
      elim (Option-cases (earliest (λ q. q.date) later)) [
        | inl n ↦ let never : err Error.null_scan ≡ ok t = rw (next_trading_day, n) at e in cc
        | inr (u, n) ↦
            let same : ok u ≡ ok t = rw (next_trading_day, n) at e in
            let date : IsMidnight u = earliest-IsMidnight later dates n in ground arith
      ]

module _ {F : Type 0} ⦃fl : Float64 F⦄ (tables : Tables F) (simulation_id : ℕ) (trade_date : Time)
    (dates : All (λ q. IsMidnight q.date) tables.ohlcv) (midnight : IsMidnight trade_date) where
  -- an order that is moved to the next trading day is not due any more
  moved :
      (next : Time)
      → next_trading_day tables trade_date ≡ ok next
      → (r : OrderRow F) → due simulation_id (truncate_day trade_date) (on_date next r) ≡ false
  moved next e r =
      let later : trade_date < next = (rw e at (next_trading_day_lem tables trade_date).0).0 in
      let date = next_day-IsMidnight tables trade_date dates e in ground arith

  reject_order-IsSettled :
      (o : OrderRow F) (reason : Reason) (ts : Option Time) (w : Work F) (t : Orders F)
      → w.db.orders ≡ t
      → IsSettled simulation_id
          (truncate_day trade_date)
          o.id
          t
          (reject_order simulation_id trade_date o reason ts w).db.orders
  unfolding reject_order mark_rejected
  reject_order-IsSettled o reason ts w t same = rw same (
      update-IsSettled simulation_id (truncate_day trade_date) o.id (as_rejected reason)
        (λ r. ground arith) t)

  after_try_fill-IsSettled :
      (o : OrderRow F) (reason : Reason) (w : Work F) (t : Orders F)
      → Tried simulation_id (truncate_day trade_date) o.id t reason w.db.orders
      → IsSettled simulation_id
          (truncate_day trade_date)
          o.id
          t
          (after_try_fill tables simulation_id trade_date o reason w).db.orders
  unfolding after_try_fill update_match_on_date
  after_try_fill-IsSettled o Reason.defer w t same =
      elim (Result-cases (next_trading_day tables trade_date)) [
        | inr (x, e) ↦
            rw (after_try_fill, e)
              (reject_order-IsSettled o Reason.not_filled_before_end none w t same)
        | inl (next, e) ↦ elim (Bool-cases (is_zero next)) [
          | inl z ↦
              rw (after_try_fill, e, z)
                (reject_order-IsSettled o Reason.not_filled_before_end none w t same)
          | inr z ↦
              rw (after_try_fill, e, z)
                (rw same (
                  update-IsSettled simulation_id (truncate_day trade_date) o.id (on_date next)
                    (moved next e) t))
        ]
      ]
  after_try_fill-IsSettled o Reason.fine w t settled = settled
  after_try_fill-IsSettled o reason w t same = reject_order-IsSettled o reason none w t same

  match_orders-IsWaiting :
      (screens : Screens) (os : List (OrderRow F)) (w : Work F)
      → IsWaiting simulation_id (truncate_day trade_date) os w.db.orders
      → IsWaiting simulation_id
          (truncate_day trade_date)
          []
          (match_orders tables screens simulation_id trade_date os w).db.orders
  unfolding match_orders match_order
  match_orders-IsWaiting screens [] w waiting = waiting
  match_orders-IsWaiting screens (o ∷ os) w waiting =
      let r = try_fill_order tables screens simulation_id trade_date o w in
      let tried =
        try_fill_order-Tried simulation_id (truncate_day trade_date) tables screens simulation_id
          trade_date o w in
      match_orders-IsWaiting screens os (match_order tables screens simulation_id trade_date o w) (
        IsWaiting-next simulation_id (truncate_day trade_date) o os w.db.orders _
          (after_try_fill-IsSettled o r.0 r.1 w.db.orders tried) waiting)

  -- The orders of the day, matched with any screens and any cache: none is left.
  match_orders-none :
      (screens : Screens) (w : Work F)
      → list_pending_for_date simulation_id trade_date
          (match_orders tables screens simulation_id trade_date
            (list_pending_for_date simulation_id trade_date w.db.orders)
            w).db.orders
        ≡ []
  unfolding list_pending_for_date
  match_orders-none screens w =
      let pending = list_pending_for_date simulation_id trade_date w.db.orders in
      let waiting =
        IsWaiting-select simulation_id (truncate_day trade_date) received_before w.db.orders in
      ap (order_by received_before) (
        nothing_due simulation_id (truncate_day trade_date)
          (match_orders tables screens simulation_id trade_date pending w).db.orders
          (match_orders-IsWaiting screens pending w waiting))

module _ {F : Type 0} ⦃fl : Float64 F⦄ where
  -- what `ProcessSimulationDay` commits
  abbrev pub LeavesNone : ℕ → Time → Result (Db F × List (Event F)) → Type 0
  LeavesNone simulation_id trade_date (ok r) =
      list_pending_for_date simulation_id trade_date r.0.orders ≡ []
  LeavesNone simulation_id trade_date (err e) = Unit

  process_simulation_day-LeavesNone :
      (tables : Tables F) (simulation_id : ℕ) (trade_date : Time) (db : Db F)
      → All (λ q. IsMidnight q.date) tables.ohlcv
      → IsMidnight trade_date
      → LeavesNone simulation_id trade_date
          (process_simulation_day tables simulation_id trade_date db)
  unfolding process_simulation_day
  process_simulation_day-LeavesNone tables simulation_id trade_date db dates midnight =
      let pending = list_pending_for_date simulation_id trade_date db.orders in
      elim (Result-cases (
        screen_symbols tables trade_date (distinct_symbols [] pending)
          (record { breaker_on = []; prev_vol = [] }, []))) [
            | inr (x, e) ↦ rw (process_simulation_day, e) tt
            | inl (s, e) ↦
                let w : Work F = record { db = db; cache = s.1; payloads = [] } in
                let matched = match_orders tables s.0 simulation_id trade_date pending w in
                let empty =
                  match_orders-none tables simulation_id trade_date dates midnight s.0 w in
                let bar_of = λ (symbol : Text). bar_on_date tables symbol trade_date in
                let aids = list_agent_ids_tx simulation_id matched.db in
                let kept =
                  snapshot_agents-Keeps bar_of simulation_id (truncate_day trade_date) aids
                    matched in
                elim (Result-cases
                  (snapshot_agents bar_of simulation_id (truncate_day trade_date) aids matched)) [
                    | inr (x, f) ↦ rw (process_simulation_day, e, f) tt
                    | inl (w', f) ↦
                        let same : w'.db.orders ≡ matched.db.orders = rw f at kept in
                        rw (process_simulation_day, e, f)
                          (ap (list_pending_for_date simulation_id trade_date) same ∙ empty)
                  ]
          ]

  -- Where the day and those of the bars are dates: once the orders that are pending for the day are matched, with any
  -- screens and cache, no order is pending for it; and none is in what ProcessSimulationDay commits.
  pub no_order_left :
      (tables : Tables F) (simulation_id : ℕ) (trade_date : Time)
      → All (λ q. IsMidnight q.date) tables.ohlcv
      → IsMidnight trade_date
      → ((screens : Screens) (w : Work F)
          → list_pending_for_date simulation_id trade_date
              (match_orders tables screens simulation_id trade_date
                (list_pending_for_date simulation_id trade_date w.db.orders)
                w).db.orders
            ≡ [])
        × ((db : Db F)
            → LeavesNone simulation_id trade_date
                (process_simulation_day tables simulation_id trade_date db))
  no_order_left tables simulation_id trade_date dates midnight = (
    match_orders-none tables simulation_id trade_date dates midnight,
    λ db. process_simulation_day-LeavesNone tables simulation_id trade_date db dates midnight,
  )
