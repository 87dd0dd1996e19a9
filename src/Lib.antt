-- ===== src/Lib.antt =====
-- The market simulator (market-simulator), in which agents trade Nifty 50 stocks on recorded prices.
--
-- The parts and how they interact. An agent submits orders through the HTTP API, which checks them
-- (internal/validation) and stores them as pending rows (internal/orders) for the day or the bar at which the
-- simulation's clock stands. The registry of clocks (internal/clock) opens a window for submissions at each
-- tick, closes it, and has the engine (internal/orderbook) match the pending orders of that day or hourly bar
-- against the recorded prices (internal/market). A fill pays fees (internal/fees) and moves cash and
-- holdings (internal/portfolio) in one transaction; what cannot fill is rejected or moved on. After
-- matching, the registry counts the tick, pauses at checkpoints, and disqualifies agents that stay silent.
--
-- Files. Paths of the code are below market-simulator.
--   Common      lists, options, results, integers, text as codes, tables with WHERE clauses
--   Float       float64 and NUMERIC as an interface with its laws; Float.Fixed is an instance
--   Fees        internal/fees/fees.go, function by function (BuyFees is buy_fees, and so on)
--   Market      internal/market: Session is session.go, with the Gregorian calendar in Civil; Data,
--               Days and Bars are data.go and quote.go
--   Universe    internal/universe
--   Database    the rows of the tables, as records; Orders and Portfolio are the statements on them, of
--               internal/orders/store.go and of internal/portfolio/tx.go and dq.go; Portfolio.Metrics is
--               metrics.go and Portfolio.Detail detail.go
--   Orderbook   internal/orderbook: Rules is rules.go, Path is path.go; Fill, TryFill, Snapshots and Day are
--               engine.go; Hourly is engine_hourly.go; Ledger is what the engine promises about money and
--               shares
--   Simulation  internal/simulation/checkpoint.go and repo.go
--   Clock       internal/clock: SimClock is clock.go; Index, State, Match and Lifecycle are registry.go and
--               autotick.go; Engine gives the engine to the registry as its matcher
--   Validation  internal/validation/order.go
--   Agents      internal/agents/apikey.go
--   Leaderboard internal/leaderboard/leaderboard.go
--   Api         internal/api: the handlers of handlers.go that change state (PlaceOrder, Cancel, Control and
--               Register) and that show prices and holdings (Quotes, Holdings), Auth and RateLimit of
--               middleware.go, context.go, agent_access.go and auth_env.go
--   Examples    runs on concrete data
-- The other modules of these directories hold lemmas and theorems.
--
-- How state is modelled. A table is the list of its rows; a statement is a function on it, with the WHERE
-- clause as a test. A transaction is a function that returns the tables it leaves, or an error that leaves them
-- as they were. The engine passes on a `Work`: the tables, the cache of previous closes and the events to
-- publish. The registry is seen from one simulation: `State` holds the entries of its maps at that
-- simulation, and each operation returns Go's error, or none, with the state it leaves, also when it
-- fails. Loops over rows are recursion on lists. Only the matching of a sale against the lots that were bought
-- runs on fuel, one more than there are lots: each pass uses up the sale or a lot. A handler of the API takes
-- the decoded request and the state of the request's simulation, and returns the response with the state it
-- leaves.
--
-- What is abstracted. float64 is any type with the operations of `Float64`; a theorem that needs facts of
-- rounding takes `IsFloat64`, whose laws hold of IEEE doubles with NaN and infinities. Times are seconds since
-- Go's zero time. Ids are numbers, quantities are natural numbers (the code refuses others on entry), text is
-- ASCII. Postgres and Redis are not modelled: a query fails only for a missing row or a NULL, and whether
-- Redis takes an event is a parameter. Go maps are visited in the order of their table. The configuration's
-- JSON is a record of optional values, and a text that should be a time is absent, garbled or that time.
-- What packages and the database draw or compute (new ids, hashes of keys, the parsing of dates, the order of
-- texts) are parameters. A sort keeps the order of rows that compare equal. Calls of the registry run one after
-- another; their interleaving inside a call is not modelled.
--
-- Not modelled: the other reads for display (GetSimulation, the lists, the dashboards), the routes, CORS, the log
-- of requests, the web socket and the connections, which are glue or pure I/O; and the Python orchestrator and
-- the dashboard of React, which are programs in other languages.
pub mod Common
pub mod Float
pub mod Fees
pub mod Market
pub mod Leaderboard
pub mod Orderbook
pub mod Database
pub mod Orders
pub mod Portfolio
pub mod Universe
pub mod Simulation
pub mod Clock
pub mod Validation
pub mod Api
pub mod Agents
mod Examples
