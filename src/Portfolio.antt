-- ===== src/Portfolio.antt =====
-- market-simulator/internal/portfolio: the statements on portfolios, holdings and snapshots.
pub mod Tx
pub mod Dq
pub mod Metrics
pub mod Holdings
pub mod Detail
pub mod Marked
