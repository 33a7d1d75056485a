-- ===== src/Requests/Once.antt =====
-- A request is answered at most once (bank/requests.js): paid, declined or cancelled, by whatever
-- calls arrive in whatever order.
use mathlib.Core.Path.{subst}
use agents_playground.Prelude.{
  ℕ, suc, ◌+◌, ◌≤◌, ◌≡◌, ◌≢◌, refl, sym, String, Bool, false, Option, some, List, [], ◌∷◌, ◌==◌,
  ◌&&◌, arith, first, count, update_where, Option-cases, inl, inr,
}
use agents_playground.Db.{
  Account, MoneyRequest, RequestStatus, Db, Action, OnOk, OnOk-map, OnOk-bind, Result, ok, err,
  pure, row_or_throw-OnOk, ◌>>=◌,
}
use agents_playground.Money.{has_id, Moved, move_money, move_money-Moved}
use agents_playground.Requests.{
  Payment, request_move, is_pending, payable_by, cancellable_by, link_transfer, claim_request,
  claim_paid, move_claimed, claim_and_move, close_payment, answered, pay_request_work, pay_request,
  decline_request, cancel_request,
}

abbrev pub waits : ℕ → MoneyRequest → Bool
waits id r = r.id == id && is_pending r

-- How many rows of this id wait: one at most, since the id is the primary key.
abbrev pub waiting : ℕ → Db → ℕ
waiting id db = count (waits id) db.requests

found_counts :
    (p : MoneyRequest → Bool) (rs : List MoneyRequest) (q : MoneyRequest)
    → first p rs ≡ some q
    → 1 ≤ count p rs
found_counts p [] q h = cc
found_counts p (r ∷ rs) q h = ground (arith, found_counts p rs q)

claimed_counts :
    (id payer now : ℕ) (status : RequestStatus) (rs : List MoneyRequest)
    → status ≢ RequestStatus.pending
    → count (waits id) (update_where (payable_by id payer false) (answered status now) rs)
        + count (payable_by id payer false) rs
      ≡ count (waits id) rs
claimed_counts id payer now status [] n = omega arith
claimed_counts id payer now status (r ∷ rs) n =
    ground (arith, claimed_counts id payer now status rs)

cancelled_counts :
    (id requester now : ℕ) (rs : List MoneyRequest)
    → count
          (waits id)
          (update_where (cancellable_by id requester) (answered RequestStatus.cancelled now) rs)
        + count (cancellable_by id requester) rs
      ≡ count (waits id) rs
cancelled_counts id requester now [] = omega arith
cancelled_counts id requester now (r ∷ rs) = ground (arith, cancelled_counts id requester now rs)

linked_counts :
    (id i t : ℕ) (rs : List MoneyRequest)
    → count (waits id) (update_where (λ r. r.id == i) (link_transfer t) rs) ≡ count (waits id) rs
linked_counts id i t [] = refl
linked_counts id i t (r ∷ rs) = ground (arith, linked_counts id i t rs)

claim-Fewer :
    (id payer : ℕ) (status : RequestStatus) (db : Db)
    → status ≢ RequestStatus.pending
    → OnOk
        (λ _ d. suc (waiting id d) ≤ waiting id db)
        (claim_request (payable_by id payer false) status db)
claim-Fewer id payer status db n =
    elim (Option-cases (first (payable_by id payer false) db.requests)) [
      | inl gone ↦ ground (arith, gone)
      | inr (q, there) ↦ ground (
        arith,
        there,
        found_counts (payable_by id payer false) db.requests q there,
        claimed_counts id payer db.now status db.requests n,
      )
    ]

cancel-Fewer :
    (id requester : ℕ) (db : Db)
    → OnOk
        (λ _ d. suc (waiting id d) ≤ waiting id db)
        (claim_request (cancellable_by id requester) RequestStatus.cancelled db)
cancel-Fewer id requester db =
    elim (Option-cases (first (cancellable_by id requester) db.requests)) [
      | inl gone ↦ ground (arith, gone)
      | inr (q, there) ↦ ground (
        arith,
        there,
        found_counts (cancellable_by id requester) db.requests q there,
        cancelled_counts id requester db.now db.requests,
      )
    ]

move_claimed-waiting :
    (p : Payment) (n : ℕ) (db : Db)
    → suc (waiting p.request.id db) ≤ n
    → OnOk (λ _ d. suc (waiting p.request.id d) ≤ n) (move_claimed p db)
unfolding move_claimed
move_claimed-waiting p n db h =
    row_or_throw-OnOk (λ _ d. suc (waiting p.request.id d) ≤ n)
      (first (has_id p.request.to_account_id) db.accounts) (λ to. move_money (request_move p to)) db
      (λ to _.
        OnOk-map (Moved (request_move p to) db) (λ _ d. suc (waiting p.request.id d) ≤ n)
          (move_money (request_move p to) db) (λ id d k. rw (k.7) h)
          (move_money-Moved (request_move p to) db))

pay_work-Fewer :
    (p : Payment) (db : Db)
    → p.double_pay ≡ false
    → OnOk (λ _ d. suc (waiting p.request.id d) ≤ waiting p.request.id db) (pay_request_work p db)
unfolding pay_request_work claim_and_move close_payment
pay_work-Fewer p db safe =
    let n = waiting p.request.id db in
    OnOk-bind (λ _ d. suc (waiting p.request.id d) ≤ n) (λ _ d. suc (waiting p.request.id d) ≤ n)
      (claim_and_move p) (close_payment p) db
      (OnOk-bind (λ _ d. suc (waiting p.request.id d) ≤ n) (λ _ d. suc (waiting p.request.id d) ≤ n)
        (claim_paid p) (λ _. move_claimed p) db
        (subst
          (λ b.
            OnOk (λ _ d. suc (waiting p.request.id d) ≤ n)
              (claim_request (payable_by p.request.id p.payer_id b) RequestStatus.paid db))
          (sym safe) (claim-Fewer p.request.id p.payer_id RequestStatus.paid db (λ e. cc)))
        (λ _ d k. move_claimed-waiting p n d k))
      (λ id d k. omega (arith, k, linked_counts p.request.id p.request.id id d.requests))

-- The calls that answer a request, by whom and how.
pub data Answering : Type 0 where
  pays : (payer_id : ℕ) (from : Account) (key : Option String) → Answering
  declines : (payer_id : ℕ) → Answering
  cancels : (requester_id : ℕ) → Answering

abbrev pub ignore : {A : Type 0} → Action A → Action (Unit {0})
ignore m = m >>= λ _. pure tt

pub answer : MoneyRequest → Answering → Action (Unit {0})
answer q (pays payer_id from key) = ignore (
    pay_request (record {
      request = q;
      payer_id = payer_id;
      from_account = from;
      key = key;
      double_pay = false;
    }))
answer q (declines payer_id) = ignore (decline_request q payer_id)
answer q (cancels requester_id) = ignore (cancel_request q requester_id)

-- Calls one after another, each in its own time, and how many of them succeeded.
abbrev succeeded : {A : Type 0} → Result A → ℕ
succeeded (ok a) = 1
succeeded (err e) = 0

pub answer_all : MoneyRequest → List Answering → Db → ℕ × Db
unfolding answer
answer_all q [] db = (0, db)
answer_all q (s ∷ ss) db =
    let (r, d) = answer q s db in let (n, d') = answer_all q ss d in (succeeded r + n, d')

answer-waiting :
    (q : MoneyRequest) (s : Answering) (db : Db)
    → succeeded (answer q s db).0 + waiting q.id (answer q s db).1 ≤ waiting q.id db
unfolding answer pay_request decline_request cancel_request
answer-waiting q (pays payer_id from key) db =
    let p : Payment = record {
      request = q;
      payer_id = payer_id;
      from_account = from;
      key = key;
      double_pay = false;
    } in
    ground (arith, pay_work-Fewer p db refl)
answer-waiting q (declines payer_id) db =
    ground (arith, claim-Fewer q.id payer_id RequestStatus.declined db (λ e. cc))
answer-waiting q (cancels requester_id) db = ground (arith, cancel-Fewer q.id requester_id db)

answer_all-waiting :
    (q : MoneyRequest) (ss : List Answering) (db : Db)
    → (answer_all q ss db).0 + waiting q.id (answer_all q ss db).1 ≤ waiting q.id db
unfolding answer_all
answer_all-waiting q [] db = omega arith
answer_all-waiting q (s ∷ ss) db =
    omega (arith, answer-waiting q s db, answer_all-waiting q ss (answer q s db).1)

-- Where at most one row of a request waits, of any calls that pay (without the planted fault),
-- decline or cancel it, by anyone and in any order, at most one succeeds.
pub answered_once :
    (q : MoneyRequest) (ss : List Answering) (db : Db)
    → waiting q.id db ≤ 1
    → (answer_all q ss db).0 ≤ 1
answered_once q ss db h = omega (arith, answer_all-waiting q ss db)
