-- ===== src/Tests/Requests.antt =====
-- Bills, payees and money requests in the small bank (bank/bills.js, bank/requests.js).
use agents_playground.Prelude.{
  ◌==◌, ◌&&◌, ℕ, ◌≤◌, true, false, List, [], ◌∷◌, none, some, ◌≡◌, refl, arith, count,
}
use agents_playground.Db.{Db, ok}
use agents_playground.Bills.{
  Bill, PaymentView, pay_bill, find_payment_by_key, find_payment, pay_work, record_payment, kept_by,
  add_payee, delete_payee, find_own_payee,
}
use agents_playground.Bills.Replay.{pay_all, pay_bill_replay}
use agents_playground.Bills.Payees.{WithinLimit, add_payee-WithinLimit, others, delete_payee-own}
use agents_playground.Requests.{Payment, pay_request, NewRequest, create_request, is_pending}
use agents_playground.Requests.Waiting.{WithinWaiting, create_request-WithinWaiting}
use agents_playground.Db.{MoneyRequest}
use agents_playground.Requests.Answering.{pay_request-total}
use agents_playground.Requests.Once.{Answering, pays, declines, cancels, answer_all, answered_once}
use agents_playground.Ledger.Conserved.{total}
use agents_playground.Tests.Bank.{bob, alice, bank, bank-IsDistinct, power, asked}

abbrev bill : Bill
bill = record {
  user_id = 101;
  from_id = 1;
  payee_id = 11;
  payee_name = "Power";
  payee_reference = "A-1";
  amount_cents = 1250;
  memo = "May";
  key = some "b1";
}

abbrev after_bill : Db
after_bill = (pay_bill bill bank).1

abbrev payment : PaymentView
payment = (
  record {
    id = 1000;
    user_id = 101;
    account_id = 1;
    payee_id = 11;
    amount_cents = 1250;
    memo = "May";
    idempotency_key = some "b1";
    created_at = 5;
  },
  power,
)

bill_answer : pay_bill bill bank ≡ (ok (some payment, false), after_bill)
unfolding pay_bill find_payment_by_key find_payment pay_work record_payment
bill_answer = refl

-- Another payment in between.
abbrev more : List Bill
more = record bill { key = some "b2"; amount_cents = 500 } ∷ []

pay_bill_replay_example :
    pay_bill (record bill { amount_cents = 77 }) (pay_all more after_bill)
    ≡ (ok (some payment, true), pay_all more after_bill)
pay_bill_replay_example =
    pay_bill_replay bill (record bill { amount_cents = 77 }) more bank after_bill {p = payment}
      {again = false} {k = "b1"} refl bill_answer refl refl

one_payee : (u : ℕ) → count (kept_by u) (power ∷ []) ≤ 1
one_payee u = ground arith

bank-WithinLimit : WithinLimit bank.payees
bank-WithinLimit u = omega (arith, one_payee u)

add_payee-WithinLimit_example : WithinLimit (add_payee 101 "Water" "W-2" bank).1.payees
add_payee-WithinLimit_example = add_payee-WithinLimit 101 "Water" "W-2" bank bank-WithinLimit

delete_payee-own_example :
    (others 101 (delete_payee 101 11 false bank).1.payees ≡ others 101 bank.payees)
    × (find_own_payee 101 11 (delete_payee 101 11 false bank).1 ≡ none)
delete_payee-own_example = delete_payee-own 101 11 bank

abbrev yes_paid : Payment
yes_paid = record {
  request = asked;
  payer_id = 101;
  from_account = alice;
  key = none;
  double_pay = false;
}

pay_request-total_example : total (pay_request yes_paid bank).1.accounts ≡ total bank.accounts
pay_request-total_example = pay_request-total yes_paid bank bank-IsDistinct

-- Paid, then paid again, declined and taken back.
abbrev answers : List Answering
answers = pays 101 alice none ∷ pays 101 alice none ∷ declines 101 ∷ cancels 102 ∷ []

answered_once_example : (answer_all asked answers bank).0 ≤ 1
answered_once_example = answered_once asked answers bank (omega arith)

abbrev ask : NewRequest
ask = record {
  requester_id = 102;
  requester_name = "Bob";
  to_account = bob;
  payer_account = alice;
  amount_cents = 300;
  memo = "Tea";
}

one_request :
    (u : ℕ) → count (λ (r : MoneyRequest). r.requester_id == u && is_pending r) (asked ∷ []) ≤ 1
one_request u = ground arith

bank-WithinWaiting : WithinWaiting bank.requests
bank-WithinWaiting u = omega (arith, one_request u)

create_request-WithinWaiting_example : WithinWaiting (create_request ask bank).1.requests
create_request-WithinWaiting_example = create_request-WithinWaiting ask bank bank-WithinWaiting
