-- ===== src/Orderbook/Ways.antt =====
-- The ways out of `tryFillOrder` of market-simulator/internal/orderbook/engine.go.
use agentic_sim_trading.Common.{
  Error, ℕ, ◌≡◌, refl, ◌≢◌, inl, inr, false, arith, Bool-cases, Result-cases,
}
use agentic_sim_trading.Common
use agentic_sim_trading.Common.Assoc.{lookup_or}
use agentic_sim_trading.Market.Data.{bar_on_date, Tables, Quote}
use agentic_sim_trading.Universe.{is_nifty50}
use agentic_sim_trading.Portfolio.Dq.{agent_status_tx}
use agentic_sim_trading.Orderbook.Rules.{
  Side, side_of, order_type_of, OrderType, FillDecision, resolve_fill, resolve_by_type,
  below_min_price, liquidity_exceeded,
}
use agentic_sim_trading.Orderbook.Events.{Screens}
use agentic_sim_trading.Orderbook.TryFill.{is_frozen, limit_px, fill_at, try_fill_order}
use agentic_sim_trading.Market.Session.{Time}
use agentic_sim_trading.Market.Data.{Tables}
use agentic_sim_trading.Float.{Float64}
use agentic_sim_trading.Database.{OrderRow}
use agentic_sim_trading.Orderbook.Rules.{Reason}
use agentic_sim_trading.Orderbook.Events.{Work}

module _ {F : Type 0} ⦃fl : Float64 F⦄ where
  -- a rejection gives a reason
  rejects :
      (ot : OrderType) (sd : Side) (limit_price : F) (bar : Quote F)
      → (resolve_by_type ot sd limit_price bar).1 ≡ FillDecision.reject_fill
      → (resolve_by_type ot sd limit_price bar).2 ≢ Reason.fine
  rejects ot sd limit_price bar e = ground arith

  -- an attempt either gives a reason and does nothing, or comes to the fill
  module _ (tables : Tables F) (screens : Screens) (sim : ℕ) (trade_date : Time) (o : OrderRow F)
      (w : Work F) (P : Reason × Work F → Type 0) (idle : (r : Reason) → r ≢ Reason.fine → P (r, w))
      (fills : (resolved : F) → P (fill_at tables screens sim trade_date o resolved w)) where
    decided :
        (bar : Quote F) (d : FillDecision)
        → (resolve_fill o.order_type o.side (limit_px o) bar).1 ≡ d
        → let x = resolve_fill o.order_type o.side (limit_px o) bar in
          let r : Reason × Work F = elim d [
            | FillDecision.defer_fill ↦ (Reason.defer, w)
            | FillDecision.reject_fill ↦ (x.2, w)
            | FillDecision.fill_now ↦ fill_at tables screens sim trade_date o x.0 w
          ] in
          P r
    unfolding resolve_fill
    decided bar FillDecision.defer_fill e = idle Reason.defer (ground arith)
    decided bar FillDecision.reject_fill e =
        idle _ (rejects (order_type_of o.order_type) (side_of o.side) (limit_px o) bar e)
    decided bar FillDecision.fill_now e = fills _

    -- a bar that cannot be read
    unreadable :
        (x : Error)
        → let r : Reason × Work F = elim x [
          | Common.Error.no_rows ↦ (Reason.invalid_symbol, w)
          | _ ↦ (Reason.market_data_error, w)
        ] in
          P r
    unreadable Common.Error.no_rows = idle Reason.invalid_symbol (ground arith)
    unreadable _ = idle Reason.market_data_error (ground arith)

    pub try_fill_order-cases : P (try_fill_order tables screens sim trade_date o w)
    unfolding try_fill_order
    try_fill_order-cases = elim (Bool-cases (is_frozen (agent_status_tx sim o.agent_id w.db))) [
      | inl a ↦ rw (try_fill_order, a) (idle Reason.agent_disqualified (ground arith))
      | inr a ↦ elim (Bool-cases (lookup_or false o.symbol screens.breaker_on)) [
        | inl b ↦ rw (try_fill_order, a, b) (idle Reason.circuit_breaker_triggered (ground arith))
        | inr b ↦ elim (Bool-cases (is_nifty50 o.symbol)) [
          | inr c ↦ rw (try_fill_order, a, b, c) (idle Reason.invalid_symbol (ground arith))
          | inl c ↦ elim (Result-cases (bar_on_date tables o.symbol trade_date)) [
            | inr (x, e) ↦ rw (try_fill_order, a, b, c, e) (unreadable x)
            | inl (bar, e) ↦ elim (Bool-cases (below_min_price bar.open_price)) [
              | inl f ↦
                  rw (try_fill_order, a, b, c, e, f)
                    (idle Reason.below_minimum_price (ground arith))
              | inr f ↦
                  elim (Bool-cases
                    (liquidity_exceeded F o.quantity (lookup_or 0 o.symbol screens.prev_vol))) [
                      | inl g ↦
                          rw (try_fill_order, a, b, c, e, f, g)
                            (idle Reason.liquidity_limit_exceeded (ground arith))
                      | inr g ↦ rw (try_fill_order, a, b, c, e, f, g) (decided bar _ refl)
                    ]
            ]
          ]
        ]
      ]
    ]
