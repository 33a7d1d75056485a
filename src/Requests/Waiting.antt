-- ===== src/Requests/Waiting.antt =====
-- The limit of ten waiting requests (bank/requests.js, `createRequest`).
use agents_playground.Prelude.{ℕ, ◌≤◌, ◌==◌, ◌&&◌, List, count, arith}
use agents_playground.Db.{MoneyRequest, Db}
use agents_playground.Requests.{NewRequest, max_pending_requests, is_pending, create_request}

-- No customer waits on more than ten requests.
abbrev pub WithinWaiting : List MoneyRequest → Type 0
WithinWaiting rs =
    (u : ℕ) → count (λ r. r.requester_id == u && is_pending r) rs ≤ max_pending_requests

-- If every customer has at most ten requests of theirs that wait, then so it is after one is
-- created or refused.
pub create_request-WithinWaiting :
    (n : NewRequest) (db : Db)
    → WithinWaiting db.requests
    → WithinWaiting (create_request n db).1.requests
unfolding create_request
create_request-WithinWaiting n db h u = ground (arith, h u, h n.requester_id)
