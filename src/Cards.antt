-- ===== src/Cards.antt =====
-- Cards (bank/cards.js): a virtual debit card per account, with freeze, a daily limit and
-- simulated purchases.
pub mod Luhn
pub mod Effects
pub mod Ending
pub mod Spending
mod Numbers
mod Reading
mod Changing
mod Charging
unfoldable pub use Numbers.*
unfoldable pub use Reading.*
unfoldable pub use Changing.*
unfoldable pub use Charging.*
