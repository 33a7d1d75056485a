-- ===== src/Bills.antt =====
-- Bill pay (bank/bills.js): the payees a customer saves, and payments to them.
pub mod Payees
pub mod Paying
pub mod Replay
use agents_playground.Prelude.{
  ℕ, ℤ, pos, ◌-ℤ◌, String, text_eq, join, truthy, Bool, true, false, Option, none, some, List, ◌∷◌,
  ◌==◌, ◌&&◌, leb, first, count, update_where, keep, if◌then◌else◌,
}
use agents_playground.Db.{
  Account, BillPayment, Payee, EntryKind, Error, Action, Db, ok, err, pure, throw, throw_if, select,
  execute, transaction, random_uuid, ◌>>=◌, ◌>>◌,
}
use agents_playground.Money.{EntryData, insert_transaction, has_id, debit, row_or_broke, catch}

-- `MAX_PAYEES`
abbrev pub max_payees : ℕ
max_payees = 20

abbrev pub is_kept : Payee → Bool
is_kept p = elim p.deleted_at [ none ↦ true | some _ ↦ false ]

-- `WHERE user_id = $1 AND deleted_at IS NULL`
abbrev pub kept_by : ℕ → Payee → Bool
kept_by user_id p = p.user_id == user_id && is_kept p

abbrev new_payee : ℕ → ℕ → String → String → Payee
new_payee id user_id name reference = record {
  id = id;
  user_id = user_id;
  name = name;
  reference = reference;
  deleted_at = none;
}

abbrev insert_payee : ℕ → ℕ → String → String → Action (Unit {0})
insert_payee id user_id name reference = do
  throw_if (leb max_payees (← select (λ db. count (kept_by user_id) db.payees)))
      Error.too_many_payees
  execute (λ db. record db { payees = new_payee id user_id name reference ∷ db.payees })

-- Saves a payee, refusing a twenty-first, in one transaction; the answer is read back.
unfoldable pub add_payee : ℕ → String → String → Action (Option Payee)
add_payee user_id name reference = do
  id ← random_uuid
  transaction (insert_payee id user_id name reference)
  select (λ db. first (λ p. p.id == id) db.payees)

-- Someone else's payee answers the same as one that doesn't exist.
unfoldable pub find_own_payee : ℕ → ℕ → Db → Option Payee
find_own_payee user_id payee_id db = first (λ p. p.id == payee_id && kept_by user_id p) db.payees

abbrev mark_deleted : ℕ → Payee → Payee
mark_deleted now p = record p { deleted_at = some now }

-- INTENTIONAL DEFECT (bankPayeeIdor): with `any_owner` the condition forgets the owner.
abbrev pub deletable : ℕ → ℕ → Bool → Payee → Bool
deletable user_id payee_id any_owner p =
    if any_owner then p.id == payee_id && is_kept p else p.id == payee_id && kept_by user_id p

-- Marks the payee deleted, and says which it was.
unfoldable pub delete_payee : ℕ → ℕ → Bool → Db → Option Payee × Db
delete_payee user_id payee_id any_owner db = (
  first (deletable user_id payee_id any_owner) db.payees,
  record db {
    payees = update_where (deletable user_id payee_id any_owner) (mark_deleted db.now) db.payees;
  },
)

-- The argument of `payBill`; of the account only the id is read.
pub record Bill : Type 0 where
  pub user_id : ℕ
  pub from_id : ℕ
  pub payee_id : ℕ
  pub payee_name : String
  pub payee_reference : String
  pub amount_cents : ℕ
  pub memo : String
  pub key : Option String

-- The unique constraint on (user_id, idempotency_key).
abbrev pub same_bill_key : ℕ → String → BillPayment → Bool
same_bill_key user_id key b =
    b.user_id == user_id && elim b.idempotency_key [ none ↦ false | some k ↦ text_eq k key ]

abbrev pub bill_key_taken : ℕ → Option String → List BillPayment → Bool
bill_key_taken user_id none bs = false
bill_key_taken user_id (some key) bs = elim (first (same_bill_key user_id key) bs) [
  | none ↦ false
  | some _ ↦ true
]

abbrev pub payment_row : Bill → ℕ → ℕ → BillPayment
payment_row b id now = record {
  id = id;
  user_id = b.user_id;
  account_id = b.from_id;
  payee_id = b.payee_id;
  amount_cents = b.amount_cents;
  memo = b.memo;
  idempotency_key = truthy b.key;
  created_at = now;
}

abbrev pub bill_entry : Bill → ℤ → EntryData
bill_entry b balance = record {
  account_id = b.from_id;
  kind = EntryKind.bill_payment;
  amount_cents = pos 0 -ℤ pos b.amount_cents;
  balance_after_cents = balance;
  description = join "Bill payment to " b.payee_name;
  memo = b.memo;
  counterparty = b.payee_reference;
  transfer_id = none;
  created_at = none;
}

abbrev pub insert_payment : Bill → ℕ → Action (Unit {0})
insert_payment b id = do
  throw_if (← select (λ db. bill_key_taken b.user_id (truthy b.key) db.bill_payments))
      Error.unique_violation
  execute (λ db. record db { bill_payments = payment_row b id db.now ∷ db.bill_payments })

-- The payment and its history row, with the row that the debit returned.
unfoldable pub record_payment : Bill → Account → Action ℕ
unfolding insert_transaction
record_payment b debited = do
  id ← random_uuid
  insert_payment b id
  insert_transaction (bill_entry b debited.balance_cents)
  pure id

-- Take the money only if the balance covers it, then record it.
unfoldable pub pay_work : Bill → Action ℕ
unfolding debit
pay_work b = do debited ← row_or_broke (← debit b.from_id b.amount_cents); record_payment b debited

-- A payment as the API shows it: `PAYMENT_SELECT` joins the payee, deleted or not.
abbrev pub PaymentView : Type 0
PaymentView = BillPayment × Payee

abbrev pub join_payee : Option BillPayment → Db → Option PaymentView
join_payee none db = none
join_payee (some b) db = elim (first (λ (p : Payee). p.id == b.payee_id) db.payees) [
  | none ↦ none
  | some p ↦ some (b, p)
]

unfoldable pub find_payment : ℕ → Db → Option PaymentView
find_payment id db = join_payee (first (λ b. b.id == id) db.bill_payments) db

unfoldable pub find_payment_by_key : ℕ → Option String → Db → Option PaymentView
find_payment_by_key user_id none db = none
find_payment_by_key user_id (some key) db =
    join_payee (first (same_bill_key user_id key) db.bill_payments) db

abbrev pub BillAnswer : Type 0
BillAnswer = Option PaymentView × Bool

-- Two requests with the same key at once: the second finds the first's payment.
unfoldable pub on_bill_conflict : Bill → Error → Action BillAnswer
on_bill_conflict b Error.unique_violation = do
  existing ← select (find_payment_by_key b.user_id (truthy b.key))
  elim existing [ none ↦ throw Error.unique_violation | some p ↦ pure (some p, true) ]
on_bill_conflict b e = throw e

unfoldable pub committed_payment : Bill → Action BillAnswer
committed_payment b = do
  id ← transaction (pay_work b)
  p ← select (find_payment id)
  pure (p, false)

-- Pays a bill. The same idempotency key twice pays once and returns the first payment.
unfoldable pub pay_bill : Bill → Action BillAnswer
unfolding committed_payment on_bill_conflict
pay_bill b = do
  existing ← select (find_payment_by_key b.user_id (truthy b.key))
  elim existing [
    | none ↦ catch (committed_payment b) (on_bill_conflict b)
    | some p ↦ pure (some p, true)
  ]
