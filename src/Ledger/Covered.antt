-- ===== src/Ledger/Covered.antt =====
-- No balance falls below zero (bank/money.js: the condition `balance_cents >= $2` of the debit).
use agents_playground.Prelude.{
  ℕ, pos, ◌≤ℤ◌, ◌≡◌, false, List, [], ◌∷◌, All, Bool, ◌&&◌, int_laws, arith, update_where,
}
use agents_playground.Db.{Account, Db, OnOk, OnOk-map, transaction-keeps}
use agents_playground.Money.{
  has_id, covers, add_cents, take_cents, Move, Moved, debited_accounts, move_money,
  move_money-Moved, TransferRequest, committed_transfer, transfer, move_of, deposit,
}

abbrev pub NoneBelow : List Account → Type 0
NoneBelow = All (λ r. pos 0 ≤ℤ r.balance_cents)

abbrev pub IsCovered : Db → Type 0
IsCovered db = NoneBelow db.accounts

pub credit-NoneBelow :
    (p : Account → Bool) (m : ℕ) (rs : List Account)
    → NoneBelow rs
    → NoneBelow (update_where p (add_cents m) rs)
credit-NoneBelow p m [] h = tt
credit-NoneBelow p m (r ∷ rs) h = (grind (int_laws, h.0), credit-NoneBelow p m rs h.1)

pub debit-NoneBelow :
    (p : Account → Bool) (m : ℕ) (rs : List Account)
    → NoneBelow rs
    → NoneBelow (update_where (λ r. p r && covers m r) (take_cents m) rs)
debit-NoneBelow p m [] h = tt
debit-NoneBelow p m (r ∷ rs) h = (grind (int_laws, h.0), debit-NoneBelow p m rs h.1)

pub move_money-IsCovered :
    (m : Move) (db : Db)
    → m.unchecked ≡ false
    → IsCovered db
    → OnOk (λ _ d. IsCovered d) (move_money m db)
move_money-IsCovered m db safe h =
    OnOk-map (Moved m db) (λ _ d. IsCovered d) (move_money m db)
      (λ id d k. rw (k.4) (
        credit-NoneBelow (has_id m.to.id) m.amount_cents (debited_accounts m db.accounts)
          (rw safe (debit-NoneBelow (has_id m.from.id) m.amount_cents db.accounts h))))
      (move_money-Moved m db)

committed_transfer-IsCovered :
    (r : TransferRequest) (db : Db)
    → r.race ≡ false
    → IsCovered db
    → IsCovered (committed_transfer r db).1
unfolding committed_transfer
committed_transfer-IsCovered r db safe h = ground (
  arith,
  transaction-keeps IsCovered (move_money (move_of r)) db (λ _. h)
      (move_money-IsCovered (move_of r) db safe h),
)

-- Where no balance is below zero, none is after a transfer without the planted race, whatever it
-- answers or throws.
pub transfer-IsCovered :
    (r : TransferRequest) (db : Db) → r.race ≡ false → IsCovered db → IsCovered (transfer r db).1
unfolding transfer
transfer-IsCovered r db safe h = ground (arith, committed_transfer-IsCovered r db safe h)

pub deposit-IsCovered :
    (id amount : ℕ) (db : Db) → IsCovered db → IsCovered (deposit id amount db).1
unfolding deposit
deposit-IsCovered id amount db h = ground (arith, credit-NoneBelow (has_id id) amount db.accounts h)
