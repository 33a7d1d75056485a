-- ===== src/Loans/Pending.antt =====
-- The limit of three waiting loans (bank/loans.js, `requestLoan`).
use agents_playground.Prelude.{ℕ, ◌≤◌, String, ◌==◌, ◌&&◌, List, count, arith}
use agents_playground.Db.{Loan, Db}
use agents_playground.Loans.Terms.{Quote}
use agents_playground.Loans.{max_pending, is_undecided, request_loan}

-- No customer waits on more than three loans.
abbrev pub WithinPending : List Loan → Type 0
WithinPending ls = (u : ℕ) → count (λ l. l.user_id == u && is_undecided l) ls ≤ max_pending

-- If every customer waits on at most three loans, then so it is after one is asked for, whether it
-- is saved or refused.
pub request_loan-WithinPending :
    (user_id account_id : ℕ) (purpose : String) (terms : Quote) (db : Db)
    → WithinPending db.loans
    → WithinPending (request_loan user_id account_id purpose terms db).1.loans
unfolding request_loan
request_loan-WithinPending user_id account_id purpose terms db h u = ground (arith, h u, h user_id)
