-- ===== src/Tests.antt =====
-- The theorems applied to a small bank: three customers, some of their money, and what they ask for.
mod Bank
mod Ledger
mod Requests
mod Products
mod Limits
mod Coins
mod Calls
mod History
mod Keys
mod Login
