-- ===== src/Database.antt =====
-- The tables of infra/init.sql that the simulator writes while it trades, as lists of rows. Ids are
-- numbers, since the program only compares them. A statement that fails for another reason than a
-- missing row or a NULL (a lost connection, an aborted transaction) is not modelled.
use agentic_sim_trading.Common.{ℕ, Bool, true, false, Option, List}
use agentic_sim_trading.Common.Text.{Text}
use agentic_sim_trading.Market.Session.{Time}
use agentic_sim_trading.Fees.{Breakdown}
use agentic_sim_trading.Orderbook.Rules.{Reason}

-- `StatusPending` and the other order states
pub data OrderStatus : Type 0 where
  pending filled rejected canceled : OrderStatus

abbrev pub is_pending : OrderStatus → Bool
is_pending OrderStatus.pending = true
is_pending OrderStatus.filled = false
is_pending OrderStatus.rejected = false
is_pending OrderStatus.canceled = false

-- A row of `orders`: the fields of `orders.Row`, and the columns that a fill writes. The fee columns
-- are written together, so they are one field.
pub record OrderRow (F : Type 0) : Type 0 where
  pub id : ℕ
  pub simulation_id : ℕ
  pub agent_id : ℕ
  pub symbol : Text
  pub order_type : Text
  pub side : Text
  pub quantity : ℕ
  pub price : Option F
  pub status : OrderStatus
  pub match_on_date : Time
  pub match_on_ts : Option Time
  pub filled_quantity : ℕ
  pub remaining_quantity : Option ℕ
  pub filled_price : Option F
  pub filled_at : Option Time
  pub filled_at_ts : Option Time
  pub trade_value : Option F
  pub fees : Option (Breakdown F)
  pub rejection_reason : Option Reason
  pub created_at : Time

-- `StatusActive` and `StatusDisqualified`
pub data AgentStatus : Type 0 where
  active disqualified : AgentStatus

abbrev pub is_disqualified_status : AgentStatus → Bool
is_disqualified_status AgentStatus.active = false
is_disqualified_status AgentStatus.disqualified = true

pub record PortfolioRow (F : Type 0) : Type 0 where
  pub id : ℕ
  pub simulation_id : ℕ
  pub agent_id : ℕ
  pub cash : F
  pub status : AgentStatus
  pub consecutive_missed_ticks : ℕ
  pub consecutive_4xx : ℕ

pub record HoldingRow (F : Type 0) : Type 0 where
  pub portfolio_id : ℕ
  pub symbol : Text
  pub quantity : ℕ
  pub avg_buy_price : F

pub record SnapshotRow (F : Type 0) : Type 0 where
  pub simulation_id : ℕ
  pub agent_id : ℕ
  pub date : Time
  pub total_value : F
  pub cash : F
  pub invested_value : F

pub record Db (F : Type 0) : Type 0 where
  pub portfolios : List (PortfolioRow F)
  pub holdings : List (HoldingRow F)
  pub orders : List (OrderRow F)
  pub snapshots : List (SnapshotRow F)
