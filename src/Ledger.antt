-- ===== src/Ledger.antt =====
-- What holds of the accounts and their history, whatever the operations.
pub mod Booked
pub mod Deposit
pub mod Move
pub mod Covered
pub mod Conserved
pub mod Replay
pub mod Rows
pub mod Transfers
pub mod Race
