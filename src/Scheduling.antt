-- ===== src/Scheduling.antt =====
-- Scheduled payments, and the clock they run on (bank/schedule.js).
pub mod Counting
pub mod Days
pub mod Offsets
pub mod Due
mod Calendar
mod Clocks
mod Saving
mod Running
unfoldable pub use Calendar.*
unfoldable pub use Clocks.*
unfoldable pub use Saving.*
unfoldable pub use Running.*
