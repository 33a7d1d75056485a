-- ===== src/Money/Balances.antt =====
-- The statements that touch `bank_money_accounts.balance_cents`, and the history rows
-- (bank/money.js, `insertTransaction` and the UPDATEs of `deposit` and `moveMoney`).
use mathlib.Core.Option
use agents_playground.Prelude.{
  ℕ, ℤ, pos, ◌+ℤ◌, ◌-ℤ◌, leb_ℤ, String, Bool, Option, none, some, ◌∷◌, ◌==◌, ◌&&◌, first,
  update_where,
}
use agents_playground.Db.{
  Account, Entry, EntryKind, Action, ok, random_uuid, ◌>>=◌, ◌>>◌, pure, execute,
}

-- The argument of `insertTransaction`. An absent `createdAt` is the present time.
pub record EntryData : Type 0 where
  pub account_id : ℕ
  pub kind : EntryKind
  pub amount_cents : ℤ
  pub balance_after_cents : ℤ
  pub description : String
  pub memo : String
  pub counterparty : String
  pub transfer_id : Option ℕ
  pub created_at : Option ℕ

abbrev pub to_entry : EntryData → ℕ → ℕ → Entry
to_entry e id now = record {
  id = id;
  account_id = e.account_id;
  kind = e.kind;
  amount_cents = e.amount_cents;
  balance_after_cents = e.balance_after_cents;
  description = e.description;
  memo = e.memo;
  counterparty = e.counterparty;
  transfer_id = e.transfer_id;
  created_at = elim e.created_at [ none ↦ now | some t ↦ t ];
}

-- Returns the new row's id.
unfoldable pub insert_transaction : EntryData → Action ℕ
insert_transaction e = do
  id ← random_uuid
  execute (λ db. record db { transactions = to_entry e id db.now ∷ db.transactions })
  pure id

abbrev pub has_id : ℕ → Account → Bool
has_id id r = r.id == id

-- `balance_cents >= amount`
abbrev pub covers : ℕ → Account → Bool
covers amount r = leb_ℤ (pos amount) r.balance_cents

abbrev pub add_cents : ℕ → Account → Account
add_cents amount r = record r { balance_cents = r.balance_cents +ℤ pos amount }

abbrev pub take_cents : ℕ → Account → Account
take_cents amount r = record r { balance_cents = r.balance_cents -ℤ pos amount }

-- `UPDATE bank_money_accounts … RETURNING *`, of which the callers read `rows[0]`.
abbrev pub update_accounts : (Account → Bool) → (Account → Account) → Action (Option Account)
update_accounts p f db =
    (ok (Option.map f (first p db.accounts)), record db { accounts = update_where p f db.accounts })

-- `SET balance_cents = balance_cents + $2 WHERE id = $1`
unfoldable pub credit : ℕ → ℕ → Action (Option Account)
credit id amount = update_accounts (has_id id) (add_cents amount)

-- `SET balance_cents = balance_cents - $2 WHERE id = $1 AND balance_cents >= $2`
unfoldable pub debit : ℕ → ℕ → Action (Option Account)
debit id amount = update_accounts (λ r. has_id id r && covers amount r) (take_cents amount)

-- `SET balance_cents = balance_cents - $2 WHERE id = $1`
unfoldable pub debit_unchecked : ℕ → ℕ → Action (Option Account)
debit_unchecked id amount = update_accounts (has_id id) (take_cents amount)
