-- ===== src/Ledger/Move.antt =====
-- Moving money keeps the ledger booked (bank/money.js, `moveMoney` and `transfer`).
use agents_playground.Prelude.{
  ℕ, ◌+◌, ◌≡◌, refl, some, Bool-cases, inl, inr, first, List, ◌∷◌, arith,
}
use agents_playground.Db.{Account, Db, OnOk, OnOk-map, transaction-keeps, Entry}
use agents_playground.Money.{
  Move, move_money, take_cents, add_cents, out_entry, in_entry, takes, Moved, debited_accounts,
  taken_entries, move_money-Moved, to_entry, TransferRequest, committed_transfer, move_of, settle,
  transfer,
}
use agents_playground.Ledger.Booked.{
  IsBooked, Books, credit-Books, debit-Books, debit_unchecked-Books,
}

-- The debit by whichever statement, with its history row.
taken-Books :
    (m : Move) (t id now : ℕ) (es : List Entry) (rs : List Account) {r : Account}
    → first (takes m) rs ≡ some r
    → Books es rs
    → Books
        (to_entry (out_entry m t (take_cents m.amount_cents r).balance_cents) id now ∷ es)
        (debited_accounts m rs)
taken-Books m t id now es rs {r} f h = elim (Bool-cases m.unchecked) [
  | inl u ↦ rw u (
      debit_unchecked-Books (out_entry m t (take_cents m.amount_cents r).balance_cents) id now
        m.amount_cents es rs (rw u at f) refl refl h)
  | inr u ↦ rw u (
      debit-Books (out_entry m t (take_cents m.amount_cents r).balance_cents) id now m.amount_cents
        es rs (rw u at f) refl refl h)
]

Moved-IsBooked :
    (m : Move) (db : Db) → IsBooked db → (id : ℕ) (d : Db) → Moved m db id d → IsBooked d
Moved-IsBooked m db h id d (r, c, f, g, accounts, entries, _, _) =
    rw (accounts, entries)
      (credit-Books (in_entry m id (add_cents m.amount_cents c).balance_cents)
        (db.uuids (db.drawn + 1 + 1)) db.now m.amount_cents
        (taken_entries m db id (take_cents m.amount_cents r)) (debited_accounts m db.accounts) g
        refl refl
        (taken-Books m id (db.uuids (db.drawn + 1)) db.now db.transactions db.accounts f h))

-- A move that succeeds keeps the books, also one that the planted race lets through unchecked.
pub move_money-IsBooked :
    (m : Move) (db : Db) → IsBooked db → OnOk (λ _ d. IsBooked d) (move_money m db)
move_money-IsBooked m db h =
    OnOk-map (Moved m db) (λ _ d. IsBooked d) (move_money m db) (Moved-IsBooked m db h)
      (move_money-Moved m db)

committed_transfer-IsBooked :
    (r : TransferRequest) (db : Db) → IsBooked db → IsBooked (committed_transfer r db).1
unfolding committed_transfer
committed_transfer-IsBooked r db h = ground (
  arith,
  transaction-keeps IsBooked (move_money (move_of r)) db (λ _. h)
      (move_money-IsBooked (move_of r) db h),
)

settle-IsBooked : (r : TransferRequest) (db : Db) → IsBooked db → IsBooked (settle r db).1
unfolding settle
settle-IsBooked r db h = ground (arith, committed_transfer-IsBooked r db h)

-- If every balance is the sum of its account's history rows, and every row's balance_after the sum
-- up to it, then both still hold after any transfer, whatever it answers or throws, with the
-- planted race armed or not.
pub transfer-IsBooked : (r : TransferRequest) (db : Db) → IsBooked db → IsBooked (transfer r db).1
unfolding transfer
transfer-IsBooked r db h = ground (arith, settle-IsBooked r db h)
