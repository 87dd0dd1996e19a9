-- ===== src/Orderbook/TryFill.antt =====
-- `tryFillOrder` of market-simulator/internal/orderbook/engine.go, and the loop that screens the
-- symbols before it.
use agentic_sim_trading.Common.{
  ℕ, sym, Bool, true, false, not, none, some, List, [], ◌∷◌, if◌then◌else◌, any, Result, ok, err,
  ◌>>=◌,
}
use agentic_sim_trading.Common
use agentic_sim_trading.Common.Text.{Text, text_eq}
use agentic_sim_trading.Common.Assoc.{lookup_or, assign}
use agentic_sim_trading.Market.Session.{Time}
use agentic_sim_trading.Market.Data.{Tables, bar_on_date, prev_trading_day_bar}
use agentic_sim_trading.Universe.{is_nifty50}
use agentic_sim_trading.Float.{Float64, ◌⊗◌, nought}
use agentic_sim_trading.Fees.{sell_fees}
use agentic_sim_trading.Database.{AgentStatus, is_disqualified_status, OrderRow}
use agentic_sim_trading.Portfolio.Dq.{agent_status_tx}
use agentic_sim_trading.Orderbook.Rules.{
  Reason, Side, side_of, FillDecision, circuit_triggered, liquidity_exceeded, below_min_price,
  resolve_fill, apply_market_impact,
}
use agentic_sim_trading.Orderbook.Events.{Work, Screens}
use agentic_sim_trading.Orderbook.Fill.{Cache, Slice, fill_buy, fill_sell}

abbrev has_text : Text → List Text → Bool
has_text s ts = any (text_eq s) ts

-- the loop over `seen`: each symbol once, in the order of its first order
pub distinct_symbols : {F : Type 0} → List Text → List (OrderRow F) → List Text
distinct_symbols seen [] = []
distinct_symbols seen (o ∷ os) = elim (has_text o.symbol seen) [
  | true ↦ distinct_symbols seen os
  | false ↦ o.symbol ∷ distinct_symbols (o.symbol ∷ seen) os
]

-- `err == nil && status == StatusDisqualified`
abbrev pub is_frozen : Result AgentStatus → Bool
is_frozen (ok s) = is_disqualified_status s
is_frozen (err e) = false

module _ {F : Type 0} ⦃fl : Float64 F⦄ where
  -- the body of the loop over `pendingSymbols`
  unfoldable pub screen_symbol :
      Tables F → Time → Text → Screens × Cache F → Result (Screens × Cache F)
  screen_symbol tables trade_date symbol (s, cache) = elim (bar_on_date tables symbol trade_date) [
    | err Common.Error.no_rows ↦
        ok (record s { breaker_on = assign symbol true s.breaker_on }, cache)
    | err e ↦ err e
    | ok bar ↦ elim (prev_trading_day_bar tables symbol trade_date) [
      | err Common.Error.no_rows ↦ ok (
        record {
          breaker_on = assign symbol false s.breaker_on;
          prev_vol = assign symbol 0 s.prev_vol;
        },
        assign symbol nought cache,
      )
      | err e ↦ err e
      | ok prev ↦ ok (
        record {
          breaker_on = assign symbol (circuit_triggered bar.open_price prev.close) s.breaker_on;
          prev_vol = assign symbol prev.volume s.prev_vol;
        },
        assign symbol prev.close cache,
      )
    ]
  ]

  unfoldable pub screen_symbols :
      Tables F → Time → List Text → Screens × Cache F → Result (Screens × Cache F)
  screen_symbols tables trade_date [] s = ok s
  screen_symbols tables trade_date (sym ∷ syms) s =
      screen_symbol tables trade_date sym s >>= screen_symbols tables trade_date syms

  -- `*o.Price`, 0 for nil
  abbrev pub limit_px : OrderRow F → F
  limit_px o = elim o.price [ none ↦ nought | some p ↦ p ]

  -- the end of `tryFillOrder`, at the price that `ResolveFill` chose
  unfoldable pub fill_at : Tables F → Screens → ℕ → Time → OrderRow F → F → Work F → Reason × Work F
  fill_at tables screens simulation_id trade_date o resolved w =
      let fill_px =
        apply_market_impact o.side o.quantity (lookup_or 0 o.symbol screens.prev_vol) resolved in
      let s : Slice F = record {
        fill_px = fill_px;
        fill_qty = o.quantity;
        remaining_after = 0;
        fill_ts = trade_date;
        next_match = none;
      } in
      elim (side_of o.side) [
        | Side.buy ↦ fill_buy tables simulation_id trade_date o s w
        | Side.sell ↦
            fill_sell simulation_id trade_date o s (sell_fees (fl.of_nat o.quantity ⊗ fill_px)) w
        | Side.other_side ↦ (Reason.invalid_side, w)
      ]

  unfoldable pub try_fill_order :
      Tables F → Screens → ℕ → Time → OrderRow F → Work F → Reason × Work F
  try_fill_order tables screens simulation_id trade_date o w =
      if is_frozen (agent_status_tx simulation_id o.agent_id w.db)
      then (Reason.agent_disqualified, w)
      else if lookup_or false o.symbol screens.breaker_on
      then (Reason.circuit_breaker_triggered, w)
      else if not (is_nifty50 o.symbol)
      then (Reason.invalid_symbol, w)
      else elim (bar_on_date tables o.symbol trade_date) [
        | err Common.Error.no_rows ↦ (Reason.invalid_symbol, w)
        | err e ↦ (Reason.market_data_error, w)
        | ok bar ↦
            if below_min_price bar.open_price
            then (Reason.below_minimum_price, w)
            else if liquidity_exceeded F o.quantity (lookup_or 0 o.symbol screens.prev_vol)
            then (Reason.liquidity_limit_exceeded, w)
            else let (resolved, decision, reason) =
                resolve_fill o.order_type o.side (limit_px o) bar in
              elim decision [
                | FillDecision.defer_fill ↦ (Reason.defer, w)
                | FillDecision.reject_fill ↦ (reason, w)
                | FillDecision.fill_now ↦
                    fill_at tables screens simulation_id trade_date o resolved w
              ]
      ]
