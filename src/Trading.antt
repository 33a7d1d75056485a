-- ===== src/Trading.antt =====
-- Buying and selling coin with bank money (bank/trading.js).
mod Rates
mod Holdings
mod Amounts
mod Quoting
mod Filling
mod Fills
pub mod Coin
pub mod Holders
pub mod Effects
pub mod Books
pub mod Once
pub mod Exchanged
pub mod Digits
unfoldable pub use Rates.*
unfoldable pub use Holdings.*
unfoldable pub use Amounts.*
unfoldable pub use Quoting.*
unfoldable pub use Filling.*
unfoldable pub use Fills.*
