-- ===== src/Orderbook.antt =====
-- market-simulator/internal/orderbook: the matching engine.
pub mod Events
pub mod Fill
pub mod TryFill
pub mod Snapshots
pub mod Day
pub mod Hourly
pub mod Buys
pub mod Sells
pub mod Solvency
pub mod LastSlice
pub mod Rules
pub mod Path
pub mod PathBounds
pub mod Settled
pub mod Ways
pub mod Recorded
pub mod Attempts
pub mod Marks
pub mod Book
pub mod Ledger
pub mod Refines
pub mod SliceBounds
