-- ===== src/Wallet.antt =====
-- Wallets: sending coin to another customer, and swapping one coin for another (bank/wallet.js).
mod Quantities
mod Addresses
mod Owners
mod Sending
mod Swapping
mod Listing
pub mod Typed
pub mod Checked
pub mod Sent
pub mod Conserved
pub mod Sends
pub mod Swapped
pub mod Aside
unfoldable pub use Quantities.*
unfoldable pub use Addresses.*
unfoldable pub use Owners.*
unfoldable pub use Sending.*
unfoldable pub use Swapping.*
unfoldable pub use Listing.*
