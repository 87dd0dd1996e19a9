-- ===== src/Clock.antt =====
-- market-simulator/internal/clock
pub mod SimClock
pub mod Index
pub mod State
pub mod Match
pub mod Lifecycle
pub mod Places
pub mod Moves
pub mod Ticks
pub mod Starts
pub mod Sound
pub mod Limits
pub mod Checkpoints
pub mod Missed
pub mod Engine
