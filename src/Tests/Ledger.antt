-- ===== src/Tests/Ledger.antt =====
-- Deposits and transfers in the small bank (bank/money.js).
use agents_playground.Prelude.{
  List, [], ◌∷◌, ℕ, true, false, none, some, ◌≡◌, refl, arith, int_laws,
}
use agents_playground.Db.{Db, ok, err, Error, Returns}
use agents_playground.Money.{
  TransferRequest, TransferView, transfer, find_transfer_by_key, move_money, record_move,
  find_transfer,
}
use agents_playground.Ledger.Conserved.{transfer-total, total}
use agents_playground.Ledger.Replay.{transfer_all, transfer_replay}
use agents_playground.Ledger.Transfers.{HasMoved, transfer-HasMoved, transfer_overdraft}
use agents_playground.Ledger.Race.{together, IsOverdrawn, together_overdraws}
use agents_playground.Tests.Bank.{alice, bob, bank, bank-IsDistinct}

abbrev lunch : TransferRequest
lunch = record {
  user_id = 101;
  from = alice;
  to = bob;
  amount_cents = 2500;
  memo = "Lunch";
  key = some "k1";
  race = false;
}

abbrev too_much : TransferRequest
too_much = record lunch { amount_cents = 10001 }

-- The same key, for something else.
abbrev again : TransferRequest
again = record lunch { amount_cents = 9; to = alice }

abbrev after_lunch : Db
after_lunch = (transfer lunch bank).1

abbrev made : TransferView
made = record {
  id = 1000;
  from_account_id = 1;
  to_account_number = "PB-2000-0002";
  amount_cents = 2500;
  memo = "Lunch";
  created_at = 5;
}

lunch_answer : transfer lunch bank ≡ (ok (some made, false), after_lunch)
unfolding transfer find_transfer_by_key move_money record_move find_transfer
lunch_answer = refl

transfer-total_example : total (transfer lunch bank).1.accounts ≡ total bank.accounts
transfer-total_example = transfer-total lunch bank bank-IsDistinct

-- Two transfers in between, one with another key and one with none.
abbrev more : List TransferRequest
more = record lunch { key = some "k2" } ∷ record too_much { key = none } ∷ []

transfer_replay_example :
    transfer again (transfer_all more after_lunch)
    ≡ (ok (some made, true), transfer_all more after_lunch)
transfer_replay_example =
    transfer_replay lunch again more bank after_lunch {t = made} {b = false} {k = "k1"} refl
      lunch_answer refl refl

transfer-HasMoved_example : Returns (HasMoved lunch alice bob bank) (transfer lunch bank)
transfer-HasMoved_example =
    transfer-HasMoved lunch bank {source = alice} {target = bob} (omega arith) refl refl refl refl

transfer_overdraft_example : transfer too_much bank ≡ (err Error.insufficient_funds, bank)
transfer_overdraft_example =
    transfer_overdraft too_much bank {source = alice} refl refl refl refl bank-IsDistinct

abbrev armed : ℕ → TransferRequest
armed amount = record lunch { amount_cents = amount; key = none; race = true }

together_overdraws_example : Returns (IsOverdrawn 1) (together (armed 6000) (armed 7000) bank)
together_overdraws_example =
    together_overdraws (armed 6000) (armed 7000) bank {row = alice} {target = bob} refl refl refl
      refl (omega arith) refl refl refl refl refl refl (grind int_laws)
