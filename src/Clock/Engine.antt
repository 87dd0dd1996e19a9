-- ===== src/Clock/Engine.antt =====
-- The matching engine as the registry's matcher, as market-simulator/cmd/server/main.go wires it.
use agentic_sim_trading.Common.{ok, ◌>>=◌}
use agentic_sim_trading.Float.{Float64}
use agentic_sim_trading.Market.Data.{Tables}
use agentic_sim_trading.Orderbook.Day.{process_simulation_day}
use agentic_sim_trading.Orderbook.Hourly.{process_simulation_bar}
use agentic_sim_trading.Clock.Match.{Matcher}

module _ {F : Type 0} ⦃fl : Float64 F⦄ where
  -- The engine publishes its events itself; the registry sees the tables.
  abbrev pub engine : Tables F → Matcher F
  engine tables = record {
    process_simulation_day = λ sim day db. process_simulation_day tables sim day db >>= λ r. ok r.0;
    process_simulation_bar =
        λ sim ts row db. process_simulation_bar tables sim ts row db >>= λ r. ok r.0;
  }
