-- ===== src/Market.antt =====
-- market-simulator/internal/market and the `Quote` of market-simulator/pkg/models/models.go.
-- A `time.Time` is the number of seconds since Go's zero time; 0 is the zero time. The times of the
-- program are whole seconds in UTC, since bars, dates and session bounds are.
pub mod Session
pub mod Sessions
pub mod Data
pub mod Lookup
pub mod Days
pub mod Calendar
pub mod Bars
pub mod Newest
pub mod Civil
pub mod Latest
