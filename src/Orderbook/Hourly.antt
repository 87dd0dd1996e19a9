-- ===== src/Orderbook/Hourly.antt =====
-- market-simulator/internal/orderbook/engine_hourly.go: matching against one 60-minute bar.
use agentic_sim_trading.Common.{
  ℕ, ◌-◌, sym, false, not, ◌||◌, Option, none, some, List, [], ◌∷◌, ◌++◌, ltb, if◌then◌else◌,
  is_some, any, Result, ok, err, ◌>>=◌,
}
use agentic_sim_trading.Common
use agentic_sim_trading.Common.Text.{Text}
use agentic_sim_trading.Common.Assoc.{lookup_or, assign}
use agentic_sim_trading.Market.Session.{Time, is_zero, session_calendar_utc, same_session}
use agentic_sim_trading.Market.Data.{
  Quote, Tables, prev_trading_day_bar, next_bar, session_bars_up_to, intraday_bar_on_ts,
  intraday_bar_at_or_before,
}
use agentic_sim_trading.Universe.{is_nifty50}
use agentic_sim_trading.Float.{Float64, ◌⊗◌, nought}
use agentic_sim_trading.Fees.{Breakdown, sell_fees, sell_fees_mixed}
use agentic_sim_trading.Database.{OrderRow, Db}
use agentic_sim_trading.Orders.{
  no_fees, working_qty, list_pending_for_ts, apply_slice_fill, update_match_on_ts,
  filled_buy_qty_on_session,
}
use agentic_sim_trading.Portfolio.Tx.{portfolio_id_tx, holding_qty_tx, list_agent_ids_tx}
use agentic_sim_trading.Portfolio.Dq.{agent_status_tx}
use agentic_sim_trading.Orderbook.Rules.{
  Reason, Side, side_of, FillDecision, liquidity_exceeded, below_min_price, apply_market_impact,
}
use agentic_sim_trading.Orderbook.Path.{
  PathResult, resolve_path_fill, half_spread, apply_aggressive_spread, circuit_band_breached,
}
use agentic_sim_trading.Orderbook.Events.{Event, tick_processed, Work, Screens}
use agentic_sim_trading.Orderbook.Fill.{Cache, Slice, fill_buy, fill_sell}
use agentic_sim_trading.Orderbook.TryFill.{distinct_symbols, limit_px, is_frozen}
use agentic_sim_trading.Orderbook.Snapshots.{snapshot_agents}
use agentic_sim_trading.Simulation.{Row, participation_rate}
use agentic_sim_trading.Orderbook.Day.{reject_order}

-- `lastOfSession` and `nextMatch`
unfoldable pub next_match_of : {F : Type 0} → Tables F → Time → Option Time
next_match_of tables bar_ts = elim (next_bar tables bar_ts) [
  | err e ↦ none
  | ok next ↦ if is_zero next || not (same_session bar_ts next) then none else some next
]

module _ {F : Type 0} ⦃fl : Float64 F⦄ where
  -- the body of the loop over `pendingSymbols`
  unfoldable pub screen_session :
      Tables F → Time → Time → Text → Screens × Cache F → Result (Screens × Cache F)
  screen_session tables session_day bar_ts symbol (s, cache) =
      let found : Result (List (Text × ℕ) × Cache F) =
        elim (prev_trading_day_bar tables symbol session_day) [
          | err Common.Error.no_rows ↦ ok (s.prev_vol, cache)
          | err e ↦ err e
          | ok prev ↦ ok (assign symbol prev.volume s.prev_vol, assign symbol prev.close cache)
        ] in
      found >>= λ p.
      let halt =
        any (λ b. circuit_band_breached b.high b.low (lookup_or nought symbol p.1))
          (session_bars_up_to tables symbol bar_ts bar_ts) in
      ok (record { breaker_on = assign symbol halt s.breaker_on; prev_vol = p.0 }, p.1)

  unfoldable pub screen_sessions :
      Tables F → Time → Time → List Text → Screens × Cache F → Result (Screens × Cache F)
  screen_sessions tables session_day bar_ts [] s = ok s
  screen_sessions tables session_day bar_ts (sym ∷ syms) s =
      screen_session tables session_day bar_ts sym s
      >>= screen_sessions tables session_day bar_ts syms

  unfoldable pub hourly_sell_fees : ℕ → Time → OrderRow F → ℕ → F → Db F → Breakdown F
  hourly_sell_fees simulation_id session_day o fill_qty fill_px db =
      elim (portfolio_id_tx simulation_id o.agent_id db) [
        | err e ↦ sell_fees (fl.of_nat fill_qty ⊗ fill_px)
        | ok pid ↦
            let held = holding_qty_tx pid o.symbol db in
            let bought =
              filled_buy_qty_on_session simulation_id o.agent_id o.symbol session_day db.orders in
            -- `held - bought`, not below 0
            let overnight = held - bought in
            let delivery_qty = if ltb overnight fill_qty then overnight else fill_qty in
            let intraday_qty = fill_qty - delivery_qty in
            sell_fees_mixed (fl.of_nat delivery_qty ⊗ fill_px) (fl.of_nat intraday_qty ⊗ fill_px)
      ]

  -- the price of a slice: the spread where liquidity is taken, then the market impact
  unfoldable pub slice_px : OrderRow F → PathResult F → Quote F → ℕ → F
  slice_px o path bar prev_volume =
      let px =
        if path.aggressive
        then apply_aggressive_spread o.side path.fill_price (half_spread bar)
        else path.fill_price in
      apply_market_impact o.side path.fill_qty prev_volume px

  -- The slice that a path fills. What is left after the last bar of a session is dropped.
  abbrev pub slice_of :
      (bar_ts : Time) → OrderRow F → Option Time → PathResult F → Quote F → ℕ → Slice F
  slice_of bar_ts o next_match path bar prev_volume =
      let left = working_qty o - path.fill_qty in
      record {
        fill_px = slice_px o path bar prev_volume;
        fill_qty = path.fill_qty;
        remaining_after = if is_some next_match then left else 0;
        fill_ts = bar_ts;
        next_match = if ltb 0 left then next_match else none;
      }

  -- the end of `tryFillHourly`, for a path that fills
  unfoldable pub fill_slice :
      Tables F
      → Screens
      → ℕ
      → (bar_ts session_day : Time) → OrderRow F
      → Option Time
      → PathResult F
      → Quote F
      → Work F
      → Reason × Work F
  fill_slice tables screens simulation_id bar_ts session_day o next_match path bar w =
      let s = slice_of bar_ts o next_match path bar (lookup_or 0 o.symbol screens.prev_vol) in
      elim (side_of o.side) [
        | Side.buy ↦ fill_buy tables simulation_id session_day o s w
        | Side.sell ↦
            fill_sell simulation_id session_day o s
              (hourly_sell_fees simulation_id session_day o path.fill_qty s.fill_px w.db) w
        | Side.other_side ↦ (Reason.invalid_side, w)
      ]

  unfoldable pub try_fill_hourly :
      Tables F
      → Screens
      → F
      → ℕ
      → (bar_ts session_day : Time) → OrderRow F
      → Option Time
      → Work F
      → Reason × Work F
  try_fill_hourly tables screens particip simulation_id bar_ts session_day o next_match w =
      if is_frozen (agent_status_tx simulation_id o.agent_id w.db)
      then (Reason.agent_disqualified, w)
      else if lookup_or false o.symbol screens.breaker_on
      then (Reason.circuit_breaker_triggered, w)
      else if not (is_nifty50 o.symbol)
      then (Reason.invalid_symbol, w)
      else elim (intraday_bar_on_ts tables o.symbol bar_ts) [
        | err Common.Error.no_rows ↦ (Reason.defer, w)
        | err e ↦ (Reason.market_data_error, w)
        | ok bar ↦
            if below_min_price bar.open_price
            then (Reason.below_minimum_price, w)
            else if liquidity_exceeded F o.quantity (lookup_or 0 o.symbol screens.prev_vol)
            then (Reason.liquidity_limit_exceeded, w)
            else let path =
                resolve_path_fill o.order_type o.side (limit_px o) (working_qty o) bar particip in
              elim path.decision [
                | FillDecision.defer_fill ↦ (Reason.defer, w)
                | FillDecision.reject_fill ↦ (path.reason, w)
                | FillDecision.fill_now ↦
                    fill_slice tables screens simulation_id bar_ts session_day o next_match path bar
                      w
              ]
      ]

  -- An order that is deferred past the last bar of the session: closed as it stands if something was
  -- filled, else rejected.
  unfoldable pub expire_order : ℕ → Time → Time → OrderRow F → Work F → Work F
  expire_order simulation_id bar_ts session_day o w =
      if ltb 0 o.filled_quantity
      then record w {
        db = record (w.db) {
          orders =
              apply_slice_fill o.id 0 0 nought session_day bar_ts none no_fees nought w.db.orders;
        };
      }
      else reject_order simulation_id session_day o Reason.day_order_expired (some bar_ts) w

  -- the body of the loop over `pending`, by the reason that `tryFillHourly` gave
  unfoldable pub after_try_hourly :
      ℕ → Time → Time → OrderRow F → Option Time → Reason → Work F → Work F
  after_try_hourly simulation_id bar_ts session_day o none Reason.defer w =
      expire_order simulation_id bar_ts session_day o w
  after_try_hourly simulation_id bar_ts session_day o (some next) Reason.defer w = record w {
    db = record (w.db) { orders = update_match_on_ts o.id next session_day w.db.orders };
  }
  after_try_hourly simulation_id bar_ts session_day o next_match Reason.fine w = w
  after_try_hourly simulation_id bar_ts session_day o next_match reason w =
      reject_order simulation_id session_day o reason (some bar_ts) w

  unfoldable pub match_hourly :
      Tables F → Screens → F → ℕ → Time → Time → Option Time → List (OrderRow F) → Work F → Work F
  match_hourly tables screens particip simulation_id bar_ts session_day next_match [] w = w
  match_hourly tables screens particip simulation_id bar_ts session_day next_match (o ∷ os) w =
      let (reason, w') =
        try_fill_hourly tables screens particip simulation_id bar_ts session_day o next_match w in
      match_hourly tables screens particip simulation_id bar_ts session_day next_match os
        (after_try_hourly simulation_id bar_ts session_day o next_match reason w')

  -- `simulation.Get` of the row of the simulation
  abbrev get_row : Option (Row F) → Result (Row F)
  get_row none = err Common.Error.not_found
  get_row (some r) = ok r

  unfoldable pub process_simulation_bar :
      Tables F → ℕ → Time → Option (Row F) → Db F → Result (Db F × List (Event F))
  process_simulation_bar tables simulation_id bar_ts row db = get_row row >>= λ r.
      let particip = participation_rate r.config in
      let session_day = session_calendar_utc bar_ts in
      let next_match = next_match_of tables bar_ts in
      let pending = list_pending_for_ts simulation_id bar_ts db.orders in
      screen_sessions tables session_day bar_ts (distinct_symbols [] pending)
        (record { breaker_on = []; prev_vol = [] }, [])
      >>= λ s.
          let matched =
            match_hourly tables s.0 particip simulation_id bar_ts session_day next_match pending
              (record { db = db; cache = s.1; payloads = [] }) in
          (if is_some next_match
            then ok matched
            else snapshot_agents (λ symbol. intraday_bar_at_or_before tables symbol bar_ts)
                simulation_id session_day (list_agent_ids_tx simulation_id matched.db) matched)
          >>= λ w.
              ok (w.db, w.payloads ++ (tick_processed simulation_id session_day (some bar_ts) ∷ []))
