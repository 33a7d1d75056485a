-- ===== src/Bills/Paying.antt =====
-- What paying a bill does to the ledger (bank/bills.js, `payBill`).
use agents_playground.Prelude.{
  ℕ, ◌+◌, List, ◌≡◌, refl, Bool, some, first, ◌∷◌, ◌&&◌, arith, Option-cases, inl, inr,
  update_where,
}
use agents_playground.Db.{Account, Db, Entry, OnOk, OnOk-map, transaction-keeps}
use agents_playground.Money.{has_id, covers, take_cents, to_entry}
use agents_playground.Ledger.Booked.{IsBooked, debit-Books}
use agents_playground.Ledger.Covered.{IsCovered, debit-NoneBelow}
use agents_playground.Bills.{
  Bill, bill_entry, payment_row, record_payment, pay_work, committed_payment, pay_bill,
}

-- The test of the debiting statement.
abbrev pub pays : Bill → Account → Bool
pays b x = has_id b.from_id x && covers b.amount_cents x

abbrev pub pay_entries : Bill → Db → Account → List Entry
pay_entries b db r =
    to_entry (bill_entry b r.balance_cents) (db.uuids (db.drawn + 1)) db.now ∷ db.transactions

abbrev pub Recorded : Bill → Account → Db → ℕ → Db → Type 0
Recorded b r db id d =
    (d.accounts ≡ db.accounts)
    × (d.transactions ≡ pay_entries b db r)
    × (d.bill_payments ≡ payment_row b id db.now ∷ db.bill_payments)
    × (d.payees ≡ db.payees)

record_payment-effect :
    (b : Bill) (r : Account) (db : Db) → OnOk (Recorded b r db) (record_payment b r db)
unfolding record_payment
record_payment-effect b r db = ground arith

-- What a payment that succeeds has done.
abbrev pub Paid : Bill → Db → ℕ → Db → Type 0
Paid b db id d =
    (r : Account) × (first (pays b) db.accounts ≡ some r)
    × Recorded b (take_cents b.amount_cents r)
        (record db { accounts = update_where (pays b) (take_cents b.amount_cents) db.accounts }) id
        d

pub pay_work-Paid : (b : Bill) (db : Db) → OnOk (Paid b db) (pay_work b db)
unfolding pay_work
pay_work-Paid b db = elim (Option-cases (first (pays b) db.accounts)) [
  | inl broke ↦ rw broke tt
  | inr (r, found) ↦ rw found (
      let mid = record db {
        accounts = update_where (pays b) (take_cents b.amount_cents) db.accounts;
      } in
      let r' = take_cents b.amount_cents r in
      OnOk-map (Recorded b r' mid) (Paid b db) _ (λ id d h. (r, found, h))
        (record_payment-effect b r' mid))
]

Paid-IsBooked : (b : Bill) (db : Db) → IsBooked db → (id : ℕ) (d : Db) → Paid b db id d → IsBooked d
Paid-IsBooked b db h id d (r, found, (accounts, entries, _, _)) =
    rw (accounts, entries)
      (debit-Books (bill_entry b (take_cents b.amount_cents r).balance_cents)
        (db.uuids (db.drawn + 1)) db.now b.amount_cents db.transactions db.accounts found refl refl
        h)

committed_payment-IsBooked :
    (b : Bill) (db : Db) → IsBooked db → IsBooked (committed_payment b db).1
unfolding committed_payment
committed_payment-IsBooked b db h = ground (
  arith,
  transaction-keeps IsBooked (pay_work b) db (λ _. h)
      (OnOk-map (Paid b db) (λ _ d. IsBooked d) (pay_work b db) (Paid-IsBooked b db h)
        (pay_work-Paid b db)),
)

-- If the history explains every balance, it does after paying a bill, whatever that answers or
-- throws.
pub pay_bill-IsBooked : (b : Bill) (db : Db) → IsBooked db → IsBooked (pay_bill b db).1
unfolding pay_bill
pay_bill-IsBooked b db h = ground (arith, committed_payment-IsBooked b db h)

committed_payment-IsCovered :
    (b : Bill) (db : Db) → IsCovered db → IsCovered (committed_payment b db).1
unfolding committed_payment
committed_payment-IsCovered b db h = ground (
  arith,
  transaction-keeps IsCovered (pay_work b) db (λ _. h)
      (OnOk-map (Paid b db) (λ _ d. IsCovered d) (pay_work b db)
        (λ id d k. rw (k.2.0) (debit-NoneBelow (has_id b.from_id) b.amount_cents db.accounts h))
        (pay_work-Paid b db)),
)

-- Where no balance is below zero, none is after paying a bill, whatever that answers or throws.
pub pay_bill-IsCovered : (b : Bill) (db : Db) → IsCovered db → IsCovered (pay_bill b db).1
unfolding pay_bill
pay_bill-IsCovered b db h = ground (arith, committed_payment-IsCovered b db h)
