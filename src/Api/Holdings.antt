-- ===== src/Api/Holdings.antt =====
-- `GetPortfolio` of market-simulator/internal/api/handlers.go, and `resolvePortfolioMarkDate`.
use agentic_sim_trading.Common.{
  ℕ, ◌⊎◌, inl, inr, Bool, false, not, ◌&&◌, Option, none, some, if◌then◌else◌, ok, err,
}
use agentic_sim_trading.Common.Text.{Text, codes}
use agentic_sim_trading.Market.Session.{Time, truncate_day}
use agentic_sim_trading.Market.Data.{Tables}
use agentic_sim_trading.Float.{Float64}
use agentic_sim_trading.Portfolio.Detail.{get_portfolio_detail}
use agentic_sim_trading.Clock.SimClock.{SimClock, hourly}
use agentic_sim_trading.Clock.State.{State}
use agentic_sim_trading.Api.{Handler, Body, Response, QueryId, reply, agent_access_denied}
use agentic_sim_trading.Api.Quotes.{resolve_simulation_as_of}

-- a clock that is loaded and hourly
abbrev hourly_loaded : Handler → Option SimClock → Bool
hourly_loaded h none = false
hourly_loaded h (some c) = h.clocks && hourly c

module _ {F : Type 0} where
  -- With a row at hand, what is missing is its as_of_date.
  unfoldable pub resolve_portfolio_mark_date : Handler → State F → Response F ⊎ Time
  unfolding resolve_simulation_as_of
  resolve_portfolio_mark_date h s = elim (resolve_simulation_as_of h s) [
    | inr t ↦ inr (if hourly_loaded h s.clock then t else truncate_day t)
    | inl refused ↦
        if not h.db
        then inl refused
        else elim s.row [ none ↦ inl refused | some row ↦ inr (truncate_day row.start_date) ]
  ]

module _ {F : Type 0} ⦃fl : Float64 F⦄ where
  -- the handler from `resolvePortfolioMarkDate` on
  unfoldable pub read_portfolio :
      Handler
      → (before : Text → Text → Bool) → Tables F
      → (agent_id simulation_id : ℕ) → State F
      → Response F
  unfolding resolve_portfolio_mark_date get_portfolio_detail
  read_portfolio h before tables agent_id simulation_id s = elim (resolve_portfolio_mark_date h s) [
    | inl refused ↦ refused
    | inr as_of ↦ elim (get_portfolio_detail before tables simulation_id agent_id as_of s.db) [
      | err e ↦ reply 404 (codes "portfolio not found")
      | ok d ↦ record { status = 200; body = Body.portfolio d }
    ]
  ]

  unfoldable pub get_portfolio :
      Handler
      → (before : Text → Text → Bool) → Tables F
      → (caller : Option ℕ) → (agent_id : Option ℕ) → QueryId
      → State F
      → Response F
  unfolding agent_access_denied read_portfolio
  get_portfolio h before tables caller agent simulation s =
      if not h.db
      then reply 503 (codes "DATABASE_URL required")
      else if not h.market
      then reply 503 (codes "market data not configured")
      else elim agent [
        | none ↦ reply 400 (codes "invalid agent id")
        | some agent_id ↦ elim (agent_access_denied h caller agent_id) [
          | some denied ↦ denied
          | none ↦ elim simulation [
            | QueryId.missing ↦ reply 400 (codes "query simulation_id required")
            | QueryId.malformed ↦ reply 400 (codes "invalid simulation_id")
            | QueryId.given simulation_id ↦ read_portfolio h before tables agent_id simulation_id s
          ]
        ]
      ]
