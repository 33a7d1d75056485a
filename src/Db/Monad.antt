-- ===== src/Db/Monad.antt =====
-- A request's work on the database: state, and exceptions as values. What a statement wrote stays
-- written when a later one throws, unless both stand in a `transaction`, which rolls back.
use agents_playground.Prelude.{ℕ, ◌+◌, Bool, true, false, Option, none, some, List}
use agents_playground.Db.Rows.{
  Account, Entry, Transfer, Notification, Payee, BillPayment, MoneyRequest, Loan, Card, CardCharge,
  Schedule, Clock, Date,
}
use agents_playground.Db.CoinRows.{
  Coin, Holding, Quote, Trade, Wallet, WalletSend, Swap, Order, Alert,
}

-- The tables, newest row first, and what the environment supplies: the values that
-- `crypto.randomUUID` and `crypto.randomInt` will return (with how many were drawn so far), the
-- time, and the date.
pub record Db : Type 0 where
  pub accounts : List Account
  pub transactions : List Entry
  pub transfers : List Transfer
  pub notifications : List Notification
  pub payees : List Payee
  pub bill_payments : List BillPayment
  pub requests : List MoneyRequest
  pub loans : List Loan
  pub cards : List Card
  pub card_charges : List CardCharge
  pub schedules : List Schedule
  pub clocks : List Clock
  pub coins : List Coin
  pub holdings : List Holding
  pub quotes : List Quote
  pub trades : List Trade
  pub wallets : List Wallet
  pub sends : List WalletSend
  pub swaps : List Swap
  pub orders : List Order
  pub alerts : List Alert
  pub uuids : ℕ → ℕ
  pub drawn : ℕ
  pub ints : ℕ → ℕ
  pub rolled : ℕ
  pub now : ℕ
  pub real_today : Date

-- The error classes of bank/*.js, Postgres's errors 23505 and 23514, and the two errors of JavaScript that
-- the code can meet: a field of `undefined`, and the plain `Error` of `freeAccountNumber`.
pub data Error : Type 0 where
  insufficient_funds too_many_accounts unique_violation type_error no_free_number : Error
  too_many_payees too_many_requests request_not_pending : Error
  too_many_pending already_decided card_exists check_violation clock_too_far : Error
  unknown_coin quote_not_found quote_expired quote_used not_enough_coin : Error
  bad_amount bad_address unknown_address own_address same_coin : Error

pub data Result (A : Type 0) : Type 0 where
  ok : A → Result A
  err : Error → Result A

abbrev pub Action : Type 0 → Type 0
Action A = Db → Result A × Db

module _ {A : Type 0} where
  abbrev pub pure : A → Action A
  pure a db = (ok a, db)

  abbrev pub throw : Error → Action A
  throw e db = (err e, db)

  -- A query that only reads.
  abbrev pub select : (Db → A) → Action A
  select f db = (ok (f db), db)

  -- `rows[0].column`, which throws where there is no row.
  abbrev pub row_or_throw : Option A → Action A
  row_or_throw none = throw type_error
  row_or_throw (some a) = pure a

  -- A row that must be there, with the error that its absence is.
  abbrev pub row_or : Error → Option A → Action A
  row_or e none = throw e
  row_or e (some a) = pure a

infixl 5 ◌>>=◌ ◌>>◌
abbrev pub ◌>>=◌ : {A B : Type 0} → Action A → (A → Action B) → Action B
◌>>=◌ m f db = let (r, db') = m db in elim r [ ok a ↦ f a db' | err e ↦ (err e, db') ]

abbrev pub ◌>>◌ : {A B : Type 0} → Action A → Action B → Action B
m >> k = m >>= λ _. k

abbrev pub execute : (Db → Db) → Action (Unit {0})
execute f db = (ok tt, f db)

abbrev pub throw_if : Bool → Error → Action (Unit {0})
throw_if true e = throw e
throw_if false e = pure tt

-- The rows as they were; what was drawn stays drawn.
abbrev pub rollback : Db → Db → Db
rollback db db' = record db { drawn = db'.drawn; rolled = db'.rolled }

abbrev pub commit : {A : Type 0} → Db → Result A → Db → Db
commit db (ok a) db' = db'
commit db (err e) db' = rollback db db'

-- `db.transaction(work)`: all of the work's writes, or none. The database's READ COMMITTED lets
-- other calls run between its statements; here none does.
abbrev pub transaction : {A : Type 0} → Action A → Action A
transaction m db = let (r, db') = m db in (r, commit db r db')

-- `crypto.randomUUID()`
abbrev pub random_uuid : Action ℕ
random_uuid db = (ok (db.uuids db.drawn), record db { drawn = db.drawn + 1 })
