-- ===== src/Money.antt =====
-- Money (bank/money.js): accounts, transfers and their history.
mod Balances
mod Accounts
mod Transfers
mod Transfer
mod Effects
pub mod Keeping
unfoldable pub use Balances.*
unfoldable pub use Accounts.*
unfoldable pub use Transfers.*
unfoldable pub use Transfer.*
pub use Effects.*
