-- ===== src/Requests.antt =====
-- Money requests (bank/requests.js): a customer asks another for money; the payer pays or declines,
-- the requester can cancel while it waits.
pub mod Answering
pub mod Once
pub mod Waiting
use agents_playground.Prelude.{
  ℕ, pos, String, text_eq, join, Bool, true, false, Option, none, some, ◌∷◌, ◌==◌, ◌&&◌, ◌||◌, leb,
  first, count, update_where, if◌then◌else◌,
}
use agents_playground.Db.{
  Account, MoneyRequest, RequestStatus, NoteKind, Link, Error, Action, Db, ok, pure, throw_if,
  select, row_or_throw, execute, transaction, random_uuid, ◌>>=◌, ◌>>◌,
}
use agents_playground.Notify.{notify}
use agents_playground.Money.{Move, move_money, has_id, TransferView, find_transfer}

-- `MAX_PENDING_REQUESTS`
abbrev pub max_pending_requests : ℕ
max_pending_requests = 10

abbrev pub is_pending : MoneyRequest → Bool
is_pending r = elim r.status [ RequestStatus.pending ↦ true | _ ↦ false ]

-- `status IN ('pending', 'paid')`
abbrev pub is_payable : MoneyRequest → Bool
is_payable r = elim r.status [
  | RequestStatus.pending ↦ true
  | RequestStatus.paid ↦ true
  | _ ↦ false
]

-- The argument of `createRequest`.
pub record NewRequest : Type 0 where
  pub requester_id : ℕ
  pub requester_name : String
  pub to_account : Account
  pub payer_account : Account
  pub amount_cents : ℕ
  pub memo : String

abbrev pub request_row : NewRequest → ℕ → MoneyRequest
request_row n id = record {
  id = id;
  requester_id = n.requester_id;
  to_account_id = n.to_account.id;
  payer_id = n.payer_account.user_id;
  payer_account_number = n.payer_account.number;
  amount_cents = n.amount_cents;
  memo = n.memo;
  status = RequestStatus.pending;
  transfer_id = none;
  answered_at = none;
}

-- Refuse an eleventh waiting request; save it; notify the payer.
abbrev create_work : NewRequest → ℕ → Action (Unit {0})
create_work n id = do
  throw_if
      (leb max_pending_requests
        (← select
          (λ db. count (λ r. r.requester_id == n.requester_id && is_pending r) db.requests)))
      Error.too_many_requests
  execute (λ db. record db { requests = request_row n id ∷ db.requests })
  notify (record {
    user_id = n.payer_account.user_id;
    kind = NoteKind.request_received;
    title = join n.requester_name " asked you for money";
    body = if text_eq n.memo "" then join "For " n.payer_account.number else n.memo;
    link = Link.page "/bank/requests";
    amount_cents = some (pos n.amount_cents);
  })

unfoldable pub find_request : ℕ → Db → Option MoneyRequest
find_request id db = first (λ r. r.id == id) db.requests

-- Creates a request in one transaction; the answer is read back.
unfoldable pub create_request : NewRequest → Action (Option MoneyRequest)
unfolding notify find_request
create_request n = do id ← random_uuid; transaction (create_work n id); select (find_request id)

-- `UPDATE bank_money_requests … RETURNING`, of which only the presence of a row is read; no row
-- means that the request is no longer waiting.
abbrev pub answer_request :
    (MoneyRequest → Bool) → (MoneyRequest → MoneyRequest) → Action (Unit {0})
answer_request p f = do
  claim ← select (λ db. first p db.requests)
  throw_if (elim claim [ none ↦ true | some _ ↦ false ]) Error.request_not_pending
  execute (λ db. record db { requests = update_where p f db.requests })

abbrev pub answered : RequestStatus → ℕ → MoneyRequest → MoneyRequest
answered status now r = record r { status = status; answered_at = some now }

-- Marks the rows that pass with the status, at the present time.
abbrev pub claim_request : (MoneyRequest → Bool) → RequestStatus → Action (Unit {0})
claim_request p status db = answer_request p (answered status db.now) db

-- INTENTIONAL DEFECT (bankRequestDoublePay): with the flag the claim also takes a paid request.
abbrev pub payable_by : ℕ → ℕ → Bool → MoneyRequest → Bool
payable_by id payer_id double_pay r =
    if double_pay
    then r.id == id && r.payer_id == payer_id && is_payable r
    else r.id == id && r.payer_id == payer_id && is_pending r

abbrev pub link_transfer : ℕ → MoneyRequest → MoneyRequest
link_transfer transfer_id r = record r { transfer_id = some transfer_id }

-- The argument of `payRequest`; `request` is the row that the caller read earlier.
pub record Payment : Type 0 where
  pub request : MoneyRequest
  pub payer_id : ℕ
  pub from_account : Account
  pub key : Option String
  pub double_pay : Bool

abbrev pub request_move : Payment → Account → Move
request_move p to = record {
  user_id = p.payer_id;
  from = p.from_account;
  to = to;
  amount_cents = p.request.amount_cents;
  memo = if text_eq p.request.memo "" then "Money request" else p.request.memo;
  key = p.key;
  unchecked = false;
  notify_recipient = false;
}

-- Link the transfer to the request, and tell the requester.
unfoldable pub close_payment : Payment → ℕ → Action ℕ
unfolding notify
close_payment p id = do
  execute (λ db. record db {
    requests = update_where (λ r. r.id == p.request.id) (link_transfer id) db.requests;
  })
  notify (record {
    user_id = p.request.requester_id;
    kind = NoteKind.request_answered;
    title = "Your request was paid";
    body = join "From " p.from_account.number;
    link = Link.page "/bank/requests";
    amount_cents = some (pos p.request.amount_cents);
  })
  pure id

-- Move the money from the payer's account to the requester's.
unfoldable pub move_claimed : Payment → Action ℕ
move_claimed p = do
  to ← row_or_throw (← select (λ db. first (has_id p.request.to_account_id) db.accounts))
  move_money (request_move p to)

abbrev pub claim_paid : Payment → Action (Unit {0})
claim_paid p = claim_request (payable_by p.request.id p.payer_id p.double_pay) RequestStatus.paid

unfoldable pub claim_and_move : Payment → Action ℕ
claim_and_move p = claim_paid p >> move_claimed p

unfoldable pub pay_request_work : Payment → Action ℕ
unfolding claim_and_move close_payment
pay_request_work p = claim_and_move p >>= close_payment p

-- Paying claims the request and moves the money in one transaction.
unfoldable pub pay_request : Payment → Action (Option MoneyRequest × Option TransferView)
unfolding pay_request_work find_request find_transfer
pay_request p = do
  transfer_id ← transaction (pay_request_work p)
  request ← select (find_request p.request.id)
  made ← select (find_transfer transfer_id)
  pure (request, made)

-- The payer says no; the requester is told.
abbrev decline_work : MoneyRequest → ℕ → Action (Unit {0})
decline_work request payer_id = do
  claim_request (payable_by request.id payer_id false) RequestStatus.declined
  notify (record {
    user_id = request.requester_id;
    kind = NoteKind.request_answered;
    title = "Your request was declined";
    body =
        if text_eq request.memo "" then join "By " request.payer_account_number else request.memo;
    link = Link.page "/bank/requests";
    amount_cents = some (pos request.amount_cents);
  })

unfoldable pub decline_request : MoneyRequest → ℕ → Action (Option MoneyRequest)
unfolding notify find_request
decline_request request payer_id = do
  transaction (decline_work request payer_id)
  select (find_request request.id)

-- `WHERE id = $1 AND requester_id = $2 AND status = 'pending'`
abbrev pub cancellable_by : ℕ → ℕ → MoneyRequest → Bool
cancellable_by id requester_id r = r.id == id && r.requester_id == requester_id && is_pending r

-- The requester takes back a request that is still waiting.
unfoldable pub cancel_request : MoneyRequest → ℕ → Action (Option MoneyRequest)
unfolding find_request
cancel_request request requester_id = do
  claim_request (cancellable_by request.id requester_id) RequestStatus.cancelled
  select (find_request request.id)
