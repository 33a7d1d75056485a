-- ===== src/Loans.antt =====
-- Loans (bank/loans.js): the offer, the request, and the decision.
pub mod Terms
pub mod Schedules
pub mod Effects
pub mod Pending
pub mod Deciding
use agents_playground.Prelude.{
  ℕ, ◌/◌, ◌%◌, ℤ, pos, String, text_eq, join, Bool, true, false, not, Option, none, some, ◌∷◌, ◌==◌,
  ◌&&◌, leb, first, count, update_where, if◌then◌else◌,
}
use agents_playground.Db.{
  Account, Loan, LoanStatus, EntryKind, NoteKind, Link, Error, Action, Db, pure, throw_if, select,
  row_or_throw, execute, transaction, random_uuid, ◌>>=◌, ◌>>◌,
}
use agents_playground.Notify.{notify}
use agents_playground.Money.{EntryData, insert_transaction, has_id, credit, digit}
use agents_playground.Loans.Terms.{Quote}

-- `MAX_PENDING`
abbrev pub max_pending : ℕ
max_pending = 3

abbrev pub is_undecided : Loan → Bool
is_undecided l = elim l.status [ LoanStatus.pending ↦ true | _ ↦ false ]

abbrev pub loan_row : ℕ → ℕ → ℕ → String → Quote → Loan
loan_row id user_id account_id purpose terms = record {
  id = id;
  user_id = user_id;
  account_id = account_id;
  amount_cents = terms.amount_cents;
  term_months = terms.term_months;
  apr_basis_points = terms.apr_basis_points;
  monthly_payment_cents = terms.monthly_payment_cents;
  total_interest_cents = terms.total_interest_cents;
  purpose = purpose;
  status = LoanStatus.pending;
  decision_note = "";
  decided_by = none;
  decided_at = none;
}

unfoldable pub find_loan : ℕ → Db → Option Loan
find_loan id db = first (λ l. l.id == id) db.loans

abbrev pub undecided_of : ℕ → Db → ℕ
undecided_of user_id db = count (λ l. l.user_id == user_id && is_undecided l) db.loans

-- Refuse a fourth waiting loan, then save this one with its fixed terms.
abbrev request_work : ℕ → ℕ → ℕ → String → Quote → Action (Unit {0})
request_work id user_id account_id purpose terms = do
  throw_if (leb max_pending (← select (undecided_of user_id))) Error.too_many_pending
  execute (λ db. record db { loans = loan_row id user_id account_id purpose terms ∷ db.loans })

-- `requestLoan`, from the quote at the customer's standing; the answer is read back.
unfoldable pub request_loan : ℕ → ℕ → String → Quote → Action (Option Loan)
unfolding find_loan
request_loan user_id account_id purpose terms = do
  id ← random_uuid
  transaction (request_work id user_id account_id purpose terms)
  select (find_loan id)

-- The months of a term, which has two digits.
abbrev months_text : ℕ → String
months_text n = join (digit (n / 10 % 10)) (join (digit (n % 10)) " months")

-- The argument of `decideLoan`, and how the first eight characters of an id read.
pub record Decision : Type 0 where
  pub loan_id : ℕ
  pub decider_id : ℕ
  pub approve : Bool
  pub note : String
  pub short_id : ℕ → String

abbrev pub disbursement_entry : Decision → Loan → ℤ → EntryData
disbursement_entry c l balance = record {
  account_id = l.account_id;
  kind = EntryKind.loan_disbursement;
  amount_cents = pos l.amount_cents;
  balance_after_cents = balance;
  description = join "Loan " (join (c.short_id l.id) (join ", " (months_text l.term_months)));
  memo = l.purpose;
  counterparty = "";
  transfer_id = none;
  created_at = none;
}

-- Approved: pay the amount into the account, with its history row.
unfoldable pub disburse : Decision → Loan → Action (Unit {0})
unfolding credit insert_transaction
disburse c l = do
  credited ← credit l.account_id l.amount_cents
  row ← row_or_throw credited
  insert_transaction (disbursement_entry c l row.balance_cents)
  pure tt

abbrev pub decided : Decision → ℕ → Loan → Loan
decided c now l = record l {
  status = if c.approve then LoanStatus.approved else LoanStatus.rejected;
  decision_note = c.note;
  decided_by = some c.decider_id;
  decided_at = some now;
}

-- Record the decision, and tell the customer.
unfoldable pub record_decision : Decision → Loan → Action (Unit {0})
unfolding notify
record_decision c l = do
  execute (λ db. record db {
    loans = update_where (λ x. x.id == c.loan_id) (decided c db.now) db.loans;
  })
  notify (record {
    user_id = l.user_id;
    kind = NoteKind.loan_decided;
    title = if c.approve then "Your loan was approved" else "Your loan was rejected";
    body = if text_eq c.note "" then months_text l.term_months else c.note;
    link = Link.page "/bank/loans";
    amount_cents = some (pos l.amount_cents);
  })

abbrev pub disburse_if : Decision → Loan → Action (Unit {0})
disburse_if c l = if c.approve then disburse c l else pure tt

-- A loan that was already decided can't be decided again.
unfoldable pub decide_work : Decision → Action (Unit {0})
decide_work c = do
  l ← row_or_throw (← select (find_loan c.loan_id))
  throw_if (not (is_undecided l)) Error.already_decided
  disburse_if c l
  record_decision c l

-- Approving pays the loan into its account, in the transaction that marks it approved.
unfoldable pub decide_loan : Decision → Action (Option Loan)
unfolding decide_work find_loan
decide_loan c = do transaction (decide_work c); select (find_loan c.loan_id)
