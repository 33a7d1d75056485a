-- ===== src/Exchange.antt =====
-- Orders that wait for a price, and alerts (bank/exchange.js).
mod Orders
mod Filling
mod Sweeping
mod Listing
pub mod Keeping
unfoldable pub use Orders.*
unfoldable pub use Filling.*
unfoldable pub use Sweeping.*
unfoldable pub use Listing.*
