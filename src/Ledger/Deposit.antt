-- ===== src/Ledger/Deposit.antt =====
-- Adding funds keeps the ledger booked (bank/money.js, `deposit`).
use agents_playground.Prelude.{ℕ, refl, Option-cases, inl, inr, first}
use agents_playground.Db.{Db, OnOk, transaction-keeps}
use agents_playground.Money.{
  deposit, has_id, deposit_work, deposit_entry, add_cents, credit, insert_transaction,
}
use agents_playground.Ledger.Booked.{IsBooked, credit-Books}

deposit_work-IsBooked :
    (id amount : ℕ) (db : Db)
    → IsBooked db
    → OnOk (λ _ db'. IsBooked db') (deposit_work id amount db)
unfolding credit insert_transaction
deposit_work-IsBooked id amount db h = elim (Option-cases (first (has_id id) db.accounts)) [
  | inl missing ↦ rw missing tt
  | inr (r, found) ↦ rw found (
      credit-Books (deposit_entry id amount (add_cents amount r)) (db.uuids db.drawn) db.now amount
        db.transactions db.accounts found refl refl h)
]

-- If the history explains every balance, it does after adding funds, whether that succeeds or
-- throws.
pub deposit-IsBooked : (id amount : ℕ) (db : Db) → IsBooked db → IsBooked (deposit id amount db).1
unfolding deposit
deposit-IsBooked id amount db h =
    transaction-keeps IsBooked (deposit_work id amount) db (λ _. h)
      (deposit_work-IsBooked id amount db h)
