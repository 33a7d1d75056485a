-- ===== src/Requests/Answering.antt =====
-- Answering a request (bank/requests.js): once at most, and with the ledger kept.
use agents_playground.Prelude.{ℕ, ◌≡◌, refl, arith, first, update_where}
use agents_playground.Db.{
  Account, RequestStatus, Db, OnOk, OnOk-bind, row_or_throw-OnOk, transaction-keeps, rollback,
}
use agents_playground.Money.{has_id, move_money}
use agents_playground.Ledger.Booked.{IsBooked}
use agents_playground.Ledger.Move.{move_money-IsBooked}
use agents_playground.Ledger.Covered.{IsCovered, move_money-IsCovered}
use agents_playground.Ledger.Conserved.{total, IsDistinct, move_money-total}
use agents_playground.Requests.{
  Payment, request_move, payable_by, claim_paid, move_claimed, claim_and_move, close_payment,
  answered, pay_request_work, pay_request,
}

-- The state in which the money moves: the request is claimed, all else is as it was.
abbrev claimed : Payment → Db → Db
claimed p db = record db {
  requests =
      update_where (payable_by p.request.id p.payer_id p.double_pay)
        (answered RequestStatus.paid db.now) db.requests;
}

claim_paid-claimed : (p : Payment) (db : Db) → OnOk (λ _ d. d ≡ claimed p db) (claim_paid p db)
claim_paid-claimed p db = ground arith

move_claimed-OnOk :
    (p : Payment) (db : Db) (P : ℕ → Db → Type 0)
    → ((to : Account) → OnOk P (move_money (request_move p to) db))
    → OnOk P (move_claimed p db)
unfolding move_claimed
move_claimed-OnOk p db P h =
    row_or_throw-OnOk P (first (has_id p.request.to_account_id) db.accounts)
      (λ to. move_money (request_move p to)) db (λ to _. h to)

-- What holds after every move of money in the claimed state holds after the claim and the move.
claim_and_move-OnOk :
    (p : Payment) (db : Db) (P : ℕ → Db → Type 0)
    → ((to : Account) → OnOk P (move_money (request_move p to) (claimed p db)))
    → OnOk P (claim_and_move p db)
unfolding claim_and_move
claim_and_move-OnOk p db P h =
    OnOk-bind (λ _ d. d ≡ claimed p db) P (claim_paid p) (λ _. move_claimed p) db
      (claim_paid-claimed p db) (λ _ d e. rw e (move_claimed-OnOk p (claimed p db) P h))

-- A property of the accounts and their history that each move of money keeps is kept by paying.
pay_request-keeps :
    (P : Db → Type 0) (p : Payment) (db : Db)
    → ((to : Account) → OnOk (λ _ d. P d) (move_money (request_move p to) (claimed p db)))
    → ((id : ℕ) (d : Db) → P d → OnOk (λ _ e. P e) (close_payment p id d))
    → ((d : Db) → P (rollback db d))
    → P (pay_request p db).1
unfolding pay_request pay_request_work
pay_request-keeps P p db moves closes back = ground (
  arith,
  transaction-keeps P (pay_request_work p) db back (
      OnOk-bind (λ _ d. P d) (λ _ d. P d) (claim_and_move p) (close_payment p) db
        (claim_and_move-OnOk p db (λ _ d. P d) moves) closes),
)

-- If the history explains every balance, it does after paying a money request, whatever that
-- answers or throws.
pub pay_request-IsBooked : (p : Payment) (db : Db) → IsBooked db → IsBooked (pay_request p db).1
unfolding close_payment
pay_request-IsBooked p db h =
    pay_request-keeps IsBooked p db (λ to. move_money-IsBooked (request_move p to) (claimed p db) h)
      (λ _ _ k. k) (λ _. h)

-- Where no balance is below zero, none is after paying a money request, whatever that answers or
-- throws.
pub pay_request-IsCovered : (p : Payment) (db : Db) → IsCovered db → IsCovered (pay_request p db).1
unfolding close_payment
pay_request-IsCovered p db h =
    pay_request-keeps IsCovered p db
      (λ to. move_money-IsCovered (request_move p to) (claimed p db) refl h) (λ _ _ k. k) (λ _. h)

-- Where account ids are distinct, paying a money request leaves the total of all balances as it
-- was, whatever it answers or throws.
pub pay_request-total :
    (p : Payment) (db : Db)
    → IsDistinct db.accounts
    → total (pay_request p db).1.accounts ≡ total db.accounts
unfolding close_payment
pay_request-total p db h =
    pay_request-keeps (λ d. total d.accounts ≡ total db.accounts) p db
      (λ to. move_money-total (request_move p to) (claimed p db) h) (λ _ _ k. k) (λ _. refl)
