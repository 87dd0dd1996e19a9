-- ===== src/Orders.antt =====
-- market-simulator/internal/orders/store.go: the statements on the table `orders`.
mod Statements
mod Fills
pub mod Lifecycle
unfoldable pub use Statements.*
unfoldable pub use Fills.*
