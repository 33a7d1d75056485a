-- ===== src/Lib.antt =====
-- The bank of the practice site, and the limiter of its test runner.
--
-- The bank (bank/*.js) is a set of modules over one SQL database. Each module exports functions
-- that take the database, read rows, and change them inside `db.transaction`. Besides opening
-- accounts and adding funds (bank/money.js), money moves in four ways, all through the same
-- statements on `bank_money_accounts` and with one row of history for each account touched:
-- transfers (bank/money.js), bill payments (bank/bills.js, also for the schedules of
-- bank/schedule.js), loans that are paid out (bank/loans.js), and card purchases (bank/cards.js).
-- Money requests (bank/requests.js) pay by a transfer. Notifications (bank/notify.js) are written
-- in the same transaction. Coin is bought and sold with bank money by quotes (bank/trading.js); sends
-- and swaps of coin (bank/wallet.js) touch no account. The limiter (test-runner/src/limiter.js) stands
-- alone.
--
-- Files:
--   Prelude: names, lists, signed integers, texts.
--   Db: rows (bank/schema.sql), the state, exceptions as values, and the transaction of bank/db.js.
--   Notify: bank/notify.js.
--   Money: bank/money.js. Balances has insertTransaction and the UPDATEs, Accounts opening and adding
--     money, Transfers moveMoney, Transfer transfer. Effects describes what moveMoney has done.
--   Ledger: what holds of the history and the balances.
--   Bills, Requests, Loans: bank/bills.js, bank/requests.js, bank/loans.js, with their proofs below.
--   Cards: bank/cards.js. Numbers, Reading, Changing and Charging follow the source's sections;
--     Effects and Ending describe what a purchase has done, Luhn and Spending have the proofs.
--   Scheduling: bank/schedule.js. Calendar, Clocks, Saving and Running follow the source's sections;
--     Counting, Days, Offsets and Due have the proofs.
--   Coins, Trading: bank/coins.js and bank/trading.js. Rates, Holdings, Amounts, Quoting, Filling and
--     Fills follow the source's sections; Effects describes what a fill has done; Coin and Holders are
--     the sums of coin and the abstract view of who holds what; Books, Once, Exchanged and Digits have
--     the proofs.
--   Wallet: bank/wallet.js. Quantities, Addresses, Owners, Sending, Swapping and Listing follow the
--     source; Typed and Checked have the round trips; Sent, Conserved, Sends, Swapped and Aside the
--     proofs about coin and money.
--   Exchange: bank/exchange.js. Orders, Filling, Sweeping and Listing follow the source; Keeping carries
--     what fills keep of the balances and their history over to a sweep.
--   History: the filter, the pages and the statement of bank/money.js; Sorted, Cursors and Pages have
--     the proofs.
--   Keys: bank/keys.js. Login: the hold on failed log-ins of bank/accounts.js.
--   Bank: every call that moves money or coin, in any order.
--   Limiter, Gate: test-runner/src/limiter.js, createLimiter and createGate.
--   Tests: the theorems at concrete inputs.
--
-- The model. A function of the source that takes the database is an action: from a state to a value
-- or an error, and a state. A statement's writes stay when a later one throws, unless both stand in a
-- `transaction`. Tables are lists with the newest row first, which is the order that the queries by
-- `created_at DESC` give. Ids are numbers; new ids and random integers are streams in the state.
-- The unique keys that the code relies on (user and idempotency key, account number, a card's account
-- and number) are checked on insertion; the other constraints of the schema are not. Amounts are
-- natural numbers, because the routes only pass positive whole cents; balances are signed.
--
-- Interleavings. A call runs to its end before the next one starts, also one of several statements,
-- and so does a transaction, although the database's READ COMMITTED would let others run between a
-- transaction's statements: a count or a balance that a transaction reads and then acts on is only
-- shown for calls that do not overlap. Three places where the source checks and writes outside a
-- transaction are written out in their parts, and run interleaved: the planted race of a transfer
-- (Ledger.Race), the clock (Scheduling.Offsets) and the making of keys (Keys.Limited).
--
-- Fuel. `try_number` makes the ten attempts of the source, `run_one` the sixty turns of its loop,
-- `scan` the eight entries: the bounds are the code's own, and running out does what the code does
-- there. `read_on`, a client that asks for page after page, has fuel for each row that the filter
-- selects. Every other loop goes over a list or counts down.
--
-- Given, not modelled: the floating-point part of a loan's price (the rounded discount and exposure,
-- the payment formula, a month's interest), how ids, dates and amounts are written in a schedule's
-- texts, the limiter's two sums that round (Limiter.Settings), the price model of bank/market.js with
-- the conversions between coin and money, the share of a cost and the fee tier (the record Market of
-- Trading.Rates), and SHA-256. Dates are the proleptic Gregorian calendar of JavaScript's `Date`,
-- with its reading of the years 0 to 99 in `Date.UTC`; past the year 9999, where the source's texts
-- are cut short, the model counts on and the theorems stop.
-- Symbols, addresses and amounts that are taken apart are lists of character codes; letters are ASCII.
-- How the exchange writes a price is given too, and so is an API key's token with its hash.
-- Not modelled: the routes and GraphQL, users and sessions, the portfolio, the pages of orders, an
-- activity list over all accounts, demo data, the rest of the test runner, and everything outside
-- bank/ and test-runner/src/limiter.js.
pub mod Prelude
pub mod Db
pub mod Notify
pub mod Money
pub mod Ledger
pub mod Bills
pub mod Requests
pub mod Loans
pub mod Limiter
pub mod Gate
pub mod Cards
pub mod Coins
pub mod Trading
pub mod Wallet
pub mod Bank
pub mod History
pub mod Exchange
pub mod Keys
pub mod Login
pub mod Scheduling
pub mod Tests
