-- ===== src/Tests/Limits.antt =====
-- Asking for a loan in the small bank (bank/loans.js, `requestLoan`).
use agents_playground.Prelude.{ℕ, ◌≤◌, pos, count, ◌==◌, ◌&&◌, [], ◌∷◌, arith}
use agents_playground.Db.{Loan}
use agents_playground.Loans.Terms.{Quote}
use agents_playground.Loans.{is_undecided, request_loan}
use agents_playground.Loans.Pending.{WithinPending, request_loan-WithinPending}
use agents_playground.Tests.Bank.{bank, car_loan}

abbrev offer : Quote
offer = record {
  amount_cents = 100000;
  term_months = 12;
  apr_basis_points = pos 600;
  monthly_payment_cents = pos 8607;
  total_interest_cents = pos 3284;
  total_repaid_cents = pos 103284;
  schedule = [];
}

one_loan : (u : ℕ) → count (λ (l : Loan). l.user_id == u && is_undecided l) (car_loan ∷ []) ≤ 1
one_loan u = ground arith

bank-WithinPending : WithinPending bank.loans
bank-WithinPending u = omega (arith, one_loan u)

request_loan-WithinPending_example : WithinPending (request_loan 101 1 "A boat" offer bank).1.loans
request_loan-WithinPending_example =
    request_loan-WithinPending 101 1 "A boat" offer bank bank-WithinPending
