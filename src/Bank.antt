-- ===== src/Bank.antt =====
-- Every call that moves money, in any order (bank/money.js, bills.js, requests.js, loans.js,
-- cards.js, schedule.js, trading.js, wallet.js and exchange.js): each runs to its end, succeeds or throws, and
-- leaves the state to the next.
use agents_playground.Prelude.{ℕ, Bool, false, List, [], ◌∷◌, ◌≡◌}
use agents_playground.Db.{Db, Date}
use agents_playground.Money.{TransferRequest, transfer, deposit}
use agents_playground.Bills.{Bill, pay_bill}
use agents_playground.Requests.{Payment, pay_request}
use agents_playground.Loans.{Decision, decide_loan}
use agents_playground.Cards.{Purchase, charge}
use agents_playground.Scheduling.{Texts, run_due}
use agents_playground.Trading.{Market, Fill, fill_quote}
use agents_playground.Wallet.{Hash, SendRequest, send, SwapRequest, swap}
use agents_playground.Exchange.{Sweeper, sweep}

-- The calls, each with its arguments as its route passes them on.
pub data Call : Type 0 where
  transfers : (r : TransferRequest) → Call
  deposits : (id amount : ℕ) → Call
  pays_bill : (b : Bill) → Call
  pays_request : (p : Payment) → Call
  decides : (c : Decision) → Call
  charges : (p : Purchase) → Call
  sweeps : (user_id : ℕ) (today : Date) (skip_bug : Bool) → Call
  fills : (r : Fill) → Call
  sends : (r : SendRequest) → Call
  swaps : (r : SwapRequest) → Call
  sweeps_orders : (s : Sweeper) → Call

-- What the environment gives: the texts of the sweep, the market's numbers and Node's hash.
pub record Environment : Type 0 where
  pub texts : Texts
  pub market : Market
  pub hash : Hash

-- The state that a call leaves.
unfoldable pub perform : Environment → Call → Db → Db
perform env (transfers r) db = (transfer r db).1
perform env (deposits id amount) db = (deposit id amount db).1
perform env (pays_bill b) db = (pay_bill b db).1
perform env (pays_request p) db = (pay_request p db).1
perform env (decides c) db = (decide_loan c db).1
perform env (charges p) db = (charge p db).1
perform env (sweeps user_id today skip_bug) db = (run_due env.texts user_id today skip_bug db).1
perform env (fills r) db = (fill_quote env.market r db).1
perform env (sends r) db = (send env.market env.hash r db).1
perform env (swaps r) db = (swap env.market r db).1
perform env (sweeps_orders s) db = (sweep env.market s db).1

unfoldable pub perform_all : Environment → List Call → Db → Db
unfolding perform
perform_all env [] db = db
perform_all env (c ∷ cs) db = perform_all env cs (perform env c db)

-- The planted race is not armed.
abbrev pub IsRaceFree : List Call → Type 0
IsRaceFree [] = Unit
IsRaceFree (transfers r ∷ cs) = (r.race ≡ false) × IsRaceFree cs
IsRaceFree (c ∷ cs) = IsRaceFree cs
