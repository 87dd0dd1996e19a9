-- ===== src/Examples/Book.antt =====
-- A day of the matching engine, run at numbers with nine decimals.
use agentic_sim_trading.Common.{◌≡◌, refl, [], ◌∷◌, arith, All}
use agentic_sim_trading.Common.Int.{ℤ}
use agentic_sim_trading.Database.{Db}
use agentic_sim_trading.Market.Data.{Quote}
use agentic_sim_trading.Float.Fixed.{fixed}
use agentic_sim_trading.Orders.{list_pending_for_date}
use agentic_sim_trading.Orderbook.Events.{Work, Screens}
use agentic_sim_trading.Orderbook.Day.{match_orders, process_simulation_day}
use agentic_sim_trading.Market.Newest.{IsMidnight}
use agentic_sim_trading.Orderbook.Book.{LeavesNone, no_order_left}
use agentic_sim_trading.Orderbook.Ledger.{ledger_of, Trades}
use agentic_sim_trading.Orderbook.Refines.{match_orders-Trades}
use agentic_sim_trading.Examples.Trading.{day, tables, an_order, work}

abbrev dates : All (λ (q : Quote ℤ). IsMidnight q.date) tables.ohlcv
dates = (refl, (refl, (refl, tt)))

abbrev screens : Screens
screens = record { breaker_on = []; prev_vol = [] }

no_order_left_example :
    ((s : Screens) (w : Work ℤ)
      → list_pending_for_date 1
          (day 11)
          (match_orders tables s 1
            (day 11)
            (list_pending_for_date 1 (day 11) w.db.orders)
            w).db.orders
        ≡ [])
    × ((db : Db ℤ) → LeavesNone 1 (day 11) (process_simulation_day tables 1 (day 11) db))
no_order_left_example = no_order_left tables 1 (day 11) dates refl

match_orders-Trades_example :
    Trades
      (ledger_of work.db)
      (ledger_of (match_orders tables screens 1 (day 11) (an_order ∷ []) work).db)
match_orders-Trades_example =
    match_orders-Trades tables screens 1 (day 11) (an_order ∷ []) work (omega arith, tt)
