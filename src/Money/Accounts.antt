-- ===== src/Money/Accounts.antt =====
-- Opening accounts and adding money (bank/money.js): `freeAccountNumber`, `insertAccount`,
-- `openAccount`, `openStarterAccounts`, `deposit`, and finding accounts.
use agents_playground.Prelude.{
  ℕ, zero, suc, ◌+◌, ◌/◌, ◌%◌, pos, String, text_eq, join, Bool, true, false, List, [], ◌∷◌, Option,
  none, some, ◌==◌, leb, first, count, if◌then◌else◌,
}
use agents_playground.Db.{
  Account, AccountKind, EntryKind, Error, Action, Db, ok, pure, throw, throw_if, select,
  row_or_throw, execute, transaction, random_uuid, ◌>>=◌, ◌>>◌,
}
use agents_playground.Money.Balances.{EntryData, insert_transaction, has_id, credit}

-- `MAX_ACCOUNTS`
abbrev pub max_accounts : ℕ
max_accounts = 10

abbrev pub digit : ℕ → String
digit zero = "0"
digit (suc zero) = "1"
digit (suc (suc zero)) = "2"
digit (suc (suc (suc zero))) = "3"
digit (suc (suc (suc (suc zero)))) = "4"
digit (suc (suc (suc (suc (suc zero))))) = "5"
digit (suc (suc (suc (suc (suc (suc zero)))))) = "6"
digit (suc (suc (suc (suc (suc (suc (suc zero))))))) = "7"
digit (suc (suc (suc (suc (suc (suc (suc (suc zero)))))))) = "8"
digit (suc (suc (suc (suc (suc (suc (suc (suc (suc n))))))))) = "9"

-- A number below 10,000 with four digits.
pub four_digits : ℕ → String
four_digits n =
    join (digit (n / 1000 % 10))
      (join (digit (n / 100 % 10)) (join (digit (n / 10 % 10)) (digit (n % 10))))

-- `crypto.randomInt(bound)`
abbrev pub random_int : ℕ → Action ℕ
random_int bound db = (ok (db.ints db.rolled % bound), record db { rolled = db.rolled + 1 })

-- PB-4821-0937
unfoldable pub account_number : ℕ → ℕ → String
unfolding four_digits
account_number a b = join "PB-" (join (four_digits (2000 + a)) (join "-" (four_digits b)))

abbrev pub number_taken : String → Db → Bool
number_taken number db = elim (first (λ r. text_eq r.number number) db.accounts) [
  | none ↦ false
  | some _ ↦ true
]

-- The loop of `freeAccountNumber`, with the attempts that are left.
unfoldable pub try_number : ℕ → Action String
unfolding account_number
try_number zero = throw Error.no_free_number
try_number (suc attempts) = do
  a ← random_int 8000
  b ← random_int 10000
  taken ← select (number_taken (account_number a b))
  if taken then try_number attempts else pure (account_number a b)

unfoldable pub free_account_number : Action String
unfolding try_number
free_account_number = try_number 10

-- The argument of `insertAccount`.
pub record Opening : Type 0 where
  pub user_id : ℕ
  pub number : Option String
  pub kind : AccountKind
  pub name : String
  pub opening_cents : ℕ
  pub created_at : Option ℕ

abbrev pub account_row : Opening → ℕ → String → ℕ → Account
account_row o id number now = record {
  id = id;
  user_id = o.user_id;
  number = number;
  kind = o.kind;
  name = o.name;
  balance_cents = pos o.opening_cents;
  created_at = elim o.created_at [ none ↦ now | some t ↦ t ];
}

abbrev pub opening_entry : Opening → ℕ → EntryData
opening_entry o id = record {
  account_id = id;
  kind = EntryKind.opening;
  amount_cents = pos o.opening_cents;
  balance_after_cents = pos o.opening_cents;
  description = "Opening deposit";
  memo = "";
  counterparty = "";
  transfer_id = none;
  created_at = o.created_at;
}

abbrev pub choose_number : Option String → Action String
choose_number none = free_account_number
choose_number (some number) = pure number

-- An account that starts with money gets a history row.
abbrev record_opening : Opening → ℕ → Action ℕ
record_opening o id =
    if o.opening_cents == 0
    then pure id
    else (insert_transaction (opening_entry o id) >>= λ _. pure id)

-- The rest of `insertAccount`, with the new id and number.
unfoldable pub insert_account_row : Opening → ℕ → String → Action ℕ
unfolding insert_transaction
insert_account_row o id number = do
  throw_if (← select (number_taken number)) Error.unique_violation
  execute (λ db. record db { accounts = account_row o id number db.now ∷ db.accounts })
  record_opening o id

unfoldable pub insert_account : Opening → Action ℕ
unfolding free_account_number insert_account_row
insert_account o = do
  id ← random_uuid
  number ← choose_number o.number
  insert_account_row o id number

-- Someone else's account answers the same as one that doesn't exist.
unfoldable pub find_own_account : ℕ → ℕ → Db → Option Account
find_own_account user_id account_id db = elim (first (has_id account_id) db.accounts) [
  | none ↦ none
  | some row ↦ if row.user_id == user_id then some row else none
]

unfoldable pub find_account_by_number : String → Db → Option Account
find_account_by_number number db = first (λ r. text_eq r.number number) db.accounts

abbrev pub accounts_of : ℕ → Db → ℕ
accounts_of user_id db = count (λ r. r.user_id == user_id) db.accounts

abbrev pub limited_insert : ℕ → Opening → Action ℕ
limited_insert user_id o = do
  throw_if (leb max_accounts (← select (accounts_of user_id))) Error.too_many_accounts
  insert_account o

-- Opens a new account, refusing an eleventh, in one transaction.
unfoldable pub open_account : ℕ → AccountKind → String → ℕ → Action Account
unfolding insert_account
open_account user_id kind name opening_cents = do
  id ← transaction (
      limited_insert user_id (record {
        user_id = user_id;
        number = none;
        kind = kind;
        name = name;
        opening_cents = opening_cents;
        created_at = none;
      }))
  row_or_throw (← select (λ db. first (has_id id) db.accounts))

-- The loop over a new customer's opening accounts.
unfoldable pub insert_all : List Opening → Action (Unit {0})
unfolding insert_account
insert_all [] = pure tt
insert_all (o ∷ os) = insert_account o >>= λ _. insert_all os

-- `openStarterAccounts`: the amounts of `starterAccountsFor` are given.
unfoldable pub open_starter_accounts : List Opening → Action (Unit {0})
unfolding insert_all
open_starter_accounts os = transaction (insert_all os)

abbrev pub deposit_entry : ℕ → ℕ → Account → EntryData
deposit_entry id amount row = record {
  account_id = id;
  kind = EntryKind.deposit;
  amount_cents = pos amount;
  balance_after_cents = row.balance_cents;
  description = "Added funds";
  memo = "";
  counterparty = "";
  transfer_id = none;
  created_at = none;
}

abbrev pub deposit_work : ℕ → ℕ → Action Account
deposit_work id amount = do
  row ← row_or_throw (← credit id amount)
  insert_transaction (deposit_entry id amount row)
  pure row

-- Adds money to an account, with its history row, in one transaction.
unfoldable pub deposit : ℕ → ℕ → Action Account
unfolding credit insert_transaction
deposit id amount = transaction (deposit_work id amount)
