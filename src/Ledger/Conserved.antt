-- ===== src/Ledger/Conserved.antt =====
-- No transfer creates or loses money (bank/money.js, `moveMoney`).
use agents_playground.Prelude.{
  ℕ, ℤ, pos, ◌+ℤ◌, ◌-ℤ◌, ◌≡◌, refl, none, some, first, List, [], ◌∷◌, Bool, ◌&&◌, int_laws, arith,
  update_where, Bool-cases, inl, inr,
}
use agents_playground.Db.{Account, Db, OnOk, OnOk-map, transaction-keeps}
use agents_playground.Money.{
  has_id, covers, add_cents, take_cents, Move, Moved, takes, debited_accounts, move_money,
  move_money-Moved, TransferRequest, committed_transfer, transfer, move_of,
}

-- The sum of all balances.
abbrev pub total : List Account → ℤ
total [] = pos 0
total (r ∷ rs) = r.balance_cents +ℤ total rs

-- Ids are a primary key: no two rows have the same.
abbrev pub IsDistinct : List Account → Type 0
IsDistinct [] = Unit
IsDistinct (r ∷ rs) = (first (has_id r.id) rs ≡ none) × IsDistinct rs

untouched :
    (p : Account → Bool) (a : ℕ) (f : Account → Account) (rs : List Account)
    → first (has_id a) rs ≡ none
    → update_where (λ r. has_id a r && p r) f rs ≡ rs
untouched p a f [] h = refl
untouched p a f (r ∷ rs) h = ground (arith, untouched p a f rs)

untouched_all :
    (a : ℕ) (f : Account → Account) (rs : List Account)
    → first (has_id a) rs ≡ none
    → update_where (has_id a) f rs ≡ rs
untouched_all a f [] h = refl
untouched_all a f (r ∷ rs) h = ground (arith, untouched_all a f rs)

-- A guarded update that found a row changed exactly that row.
pub total-take :
    (p : Account → Bool) (a m : ℕ) (rs : List Account) {r : Account}
    → IsDistinct rs
    → first (λ x. has_id a x && p x) rs ≡ some r
    → total (update_where (λ x. has_id a x && p x) (take_cents m) rs) ≡ total rs -ℤ pos m
total-take p a m [] d f = cc
total-take p a m (x ∷ rs) d f =
    grind (int_laws, untouched p a (take_cents m) rs, total-take p a m rs d.1)

total-take_any :
    (a m : ℕ) (rs : List Account) {r : Account}
    → IsDistinct rs
    → first (has_id a) rs ≡ some r
    → total (update_where (has_id a) (take_cents m) rs) ≡ total rs -ℤ pos m
total-take_any a m [] d f = cc
total-take_any a m (x ∷ rs) d f =
    grind (int_laws, untouched_all a (take_cents m) rs, total-take_any a m rs d.1)

pub total-add :
    (a m : ℕ) (rs : List Account) {r : Account}
    → IsDistinct rs
    → first (has_id a) rs ≡ some r
    → total (update_where (has_id a) (add_cents m) rs) ≡ total rs +ℤ pos m
total-add a m [] d f = cc
total-add a m (x ∷ rs) d f =
    grind (int_laws, untouched_all a (add_cents m) rs, total-add a m rs d.1)

-- Changing balances keeps the ids.
absent-take :
    (p : Account → Bool) (k m : ℕ) (rs : List Account)
    → first (has_id k) rs ≡ none
    → first (has_id k) (update_where p (take_cents m) rs) ≡ none
absent-take p k m [] h = refl
absent-take p k m (x ∷ rs) h = ground (arith, absent-take p k m rs)

take-IsDistinct :
    (p : Account → Bool) (m : ℕ) (rs : List Account)
    → IsDistinct rs
    → IsDistinct (update_where p (take_cents m) rs)
take-IsDistinct p m [] h = tt
take-IsDistinct p m (x ∷ rs) h = ground (arith, absent-take p x.id m rs, take-IsDistinct p m rs h.1)

debited-total :
    (m : Move) (rs : List Account) {r : Account}
    → IsDistinct rs
    → first (takes m) rs ≡ some r
    → total (debited_accounts m rs) ≡ total rs -ℤ pos m.amount_cents
debited-total m rs {r} d f = elim (Bool-cases m.unchecked) [
  | inl u ↦ rw u (total-take_any m.from.id m.amount_cents rs d (rw u at f))
  | inr u ↦ rw u (total-take (covers m.amount_cents) m.from.id m.amount_cents rs d (rw u at f))
]

pub move_money-total :
    (m : Move) (db : Db)
    → IsDistinct db.accounts
    → OnOk (λ _ d. total d.accounts ≡ total db.accounts) (move_money m db)
move_money-total m db h =
    OnOk-map (Moved m db) (λ _ d. total d.accounts ≡ total db.accounts) (move_money m db)
      (λ id d (r, c, f, g, k, _, _, _).
        rw
          (
            k,
            total-add m.to.id m.amount_cents (debited_accounts m db.accounts)
                (take-IsDistinct (takes m) m.amount_cents db.accounts h) g,
          )
          (rw (debited-total m db.accounts h f) (omega int_laws)))
      (move_money-Moved m db)

committed_transfer-total :
    (r : TransferRequest) (db : Db)
    → IsDistinct db.accounts
    → total (committed_transfer r db).1.accounts ≡ total db.accounts
unfolding committed_transfer
committed_transfer-total r db h = ground (
  arith,
  transaction-keeps (λ d. total d.accounts ≡ total db.accounts) (move_money (move_of r)) db
      (λ _. refl) (move_money-total (move_of r) db h),
)

-- Where account ids are distinct, a transfer leaves the total of all balances as it was, whatever
-- it answers or throws, also between one account and itself and with the planted race armed.
pub transfer-total :
    (r : TransferRequest) (db : Db)
    → IsDistinct db.accounts
    → total (transfer r db).1.accounts ≡ total db.accounts
unfolding transfer
transfer-total r db h = ground (arith, committed_transfer-total r db h)
