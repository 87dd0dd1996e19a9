-- ===== src/Api.antt =====
-- market-simulator/internal/api: what the HTTP handlers share. A handler is a function from the request, as
-- it is decoded, and from the state to the response and the state it leaves. The state is that of the
-- simulation which the request names.
pub mod PlaceOrder
pub mod Cancel
pub mod Control
pub mod Register
pub mod Auth
pub mod RateLimit
pub mod Quotes
pub mod Holdings
use agentic_sim_trading.Common.{Error, ℕ, Bool, not, Option, none, some, List, ◌==◌, if◌then◌else◌}
use agentic_sim_trading.Common.Text.{Text, codes, equal_fold, trim_space}
use agentic_sim_trading.Market.Session.{Time}
use agentic_sim_trading.Market.Data.{Quote}
use agentic_sim_trading.Database.{OrderRow}
use agentic_sim_trading.Portfolio.Detail.{PortfolioDetail}
use agentic_sim_trading.Leaderboard.{Entry}

-- `Handler`: which of its fields are not nil; and the environment variable SIMULATOR_SKIP_AGENT_AUTH
pub record Handler : Type 0 where
  pub db : Bool
  pub market : Bool
  pub portfolio : Bool
  pub clocks : Bool
  pub skip_auth_env : Text

-- What a handler writes, before it is encoded as JSON.
pub data Body (F : Type 0) : Type 0 where
  detail : Text → Body F
  -- id, match_on_date and match_on_ts of an order that is pending
  order_placed : ℕ → Time → Option Time → Body F
  items : List (OrderRow F) → Body F
  quote : Quote F → Body F
  bars : List (Quote F) → Body F
  portfolio : PortfolioDetail F → Body F
  entries : ℕ → List (Entry F) → Body F
  -- agent_id, simulation_id and api_key
  registered : ℕ → ℕ → Text → Body F
  -- the id of a new simulation, which is paused
  created : ℕ → Body F
  speed : ℕ → F → Body F

pub record Response (F : Type 0) : Type 0 where
  pub status : ℕ
  pub body : Body F

-- `SkipAgentAuth`
unfoldable pub skip_agent_auth : Handler → Bool
unfolding equal_fold trim_space
skip_agent_auth h = equal_fold (trim_space h.skip_auth_env) (codes "true")

-- a parameter of the URL that should be an id
pub data QueryId : Type 0 where
  missing malformed : QueryId
  given : ℕ → QueryId

module _ {F : Type 0} where
  -- `writeJSON` of a detail
  abbrev pub reply : ℕ → Text → Response F
  reply status text = record { status = status; body = Body.detail text }

  -- `notImplemented`
  unfoldable pub not_implemented : Text → Response F
  not_implemented = reply 501

  -- `writeSimErr`
  unfoldable pub write_sim_err : Error → Response F
  write_sim_err e = elim e [
    | Error.not_found ↦ reply 404 (codes "simulation not found")
    | Error.clock_completed ↦ reply 409 (codes "simulation is completed")
    | Error.no_trading_days ↦ reply 400 (codes "no OHLCV trading days in requested date range")
    | Error.no_active_clock ↦
        reply 409 (codes "no active simulation clock in memory; call POST .../start")
    | Error.clock_not_running ↦ reply 409 (codes "simulation clock is not running")
    | Error.not_awaiting_proceed ↦ reply 409 (codes "simulation is not waiting at a checkpoint")
    | Error.no_rows ↦ reply 500 (codes "internal error")
    | Error.null_scan ↦ reply 500 (codes "internal error")
    | Error.negative_holdings ↦ reply 500 (codes "internal error")
    | Error.publish_failed ↦ reply 500 (codes "internal error")
  ]

  -- `agentAccessDeniedFromRequest`: the response that it has written, if it denies. `caller` is the agent that
  -- authentication put into the request's context.
  unfoldable pub agent_access_denied :
      Handler → (caller : Option ℕ) → (claimed : ℕ) → Option (Response F)
  unfolding skip_agent_auth
  agent_access_denied h caller claimed = if skip_agent_auth h then none else elim caller [
    | none ↦ some (reply 401 (codes "missing agent context"))
    | some a ↦
        if a == claimed
        then none
        else some (reply 403 (codes "agent id does not match authenticated agent"))
  ]
