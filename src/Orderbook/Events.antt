-- ===== src/Orderbook/Events.antt =====
-- The payloads that the engine publishes on the channel `sim.events`, and the state that the loops over
-- the orders and the agents pass on.
use agentic_sim_trading.Common.{ℕ, Bool, Option, List, [], ◌∷◌, ◌++◌}
use agentic_sim_trading.Common.Text.{Text}
use agentic_sim_trading.Market.Session.{Time}
use agentic_sim_trading.Fees.{Breakdown}
use agentic_sim_trading.Database.{Db}
use agentic_sim_trading.Orderbook.Rules.{Reason, Side}

-- The fields that are told are those that differ between payloads of one event.
pub record Filled (F : Type 0) : Type 0 where
  pub order_id : ℕ
  pub simulation_id : ℕ
  pub agent_id : ℕ
  pub symbol : Text
  pub side : Side
  pub quantity : ℕ
  pub filled_price : F
  pub fees : Breakdown F
  pub trade_value : F
  -- `net_credit`, of a sell
  pub net_credit : Option F
  pub match_on_date : Time
  pub remaining : ℕ

pub data Event (F : Type 0) : Type 0 where
  order_filled : Filled F → Event F
  -- order_id, simulation_id, agent_id, symbol, reason, match_on_date, and bar_ts of an hourly bar
  order_rejected : ℕ → ℕ → ℕ → Text → Reason → Time → Option Time → Event F
  -- simulation_id, agent_id, date
  agent_disqualified : ℕ → ℕ → Time → Event F
  -- simulation_id, date, and bar_ts of an hourly bar
  tick_processed : ℕ → Time → Option Time → Event F

-- The open transaction, `prevCloseCache` and `redisPayloads`.
pub record Work (F : Type 0) : Type 0 where
  pub db : Db F
  pub cache : List (Text × F)
  pub payloads : List (Event F)

-- `breakerOn` and `prevVol`, which are filled before the orders are matched
pub record Screens : Type 0 where
  pub breaker_on : List (Text × Bool)
  pub prev_vol : List (Text × ℕ)

module _ {F : Type 0} where
  abbrev pub emit : Event F → Work F → Work F
  emit e w = record w { payloads = w.payloads ++ (e ∷ []) }
