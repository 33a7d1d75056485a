-- ===== src/Ledger/Booked.antt =====
-- The ledger's invariant: the history explains every balance (bank/money.js).
use agents_playground.Prelude.{
  ℕ, ℤ, pos, ◌+ℤ◌, ◌-ℤ◌, ◌≡◌, true, List, [], ◌∷◌, ◌==◌, ◌&&◌, All, some, first, update_where,
  int_laws, Bool, first_sound, if◌then◌else◌, leb_ℤ,
}
use agents_playground.Db.{Account, Entry, Db}
use agents_playground.Money.{EntryData, to_entry, has_id, covers, add_cents, take_cents}

-- The sum of an account's history.
abbrev pub entries_sum : ℕ → List Entry → ℤ
entries_sum id [] = pos 0
entries_sum id (e ∷ es) =
    if e.account_id == id then e.amount_cents +ℤ entries_sum id es else entries_sum id es

-- Each balance is the sum of the account's history.
abbrev pub IsExplained : List Entry → List Account → Type 0
IsExplained es = All (λ r. r.balance_cents ≡ entries_sum r.id es)

-- Each row's balance after it is the sum of the account's history up to it.
abbrev pub IsRunning : List Entry → Type 0
IsRunning [] = Unit
IsRunning (e ∷ es) = (e.balance_after_cents ≡ entries_sum e.account_id (e ∷ es)) × IsRunning es

abbrev pub Books : List Entry → List Account → Type 0
Books es rs = IsExplained es rs × IsRunning es

abbrev pub IsBooked : Db → Type 0
IsBooked db = Books db.transactions db.accounts

-- A row of a booked table that a condition finds is explained, and passes the condition.
found_row :
    (p : Account → Bool) (es : List Entry) (rs : List Account) {r : Account}
    → IsExplained es rs
    → first p rs ≡ some r
    → (r.balance_cents ≡ entries_sum r.id es) × (p r ≡ true)
found_row p es rs h e = first_sound (λ r. r.balance_cents ≡ entries_sum r.id es) p rs h e

module _ (e : Entry) (m : ℕ) (es : List Entry) where
  credit-IsExplained :
      (rs : List Account)
      → e.amount_cents ≡ pos m
      → IsExplained es rs
      → IsExplained (e ∷ es) (update_where (has_id e.account_id) (add_cents m) rs)
  credit-IsExplained [] d h = tt
  credit-IsExplained (r ∷ rs) d h = (grind (int_laws, d, h.0), credit-IsExplained rs d h.1)

  debit_unchecked-IsExplained :
      (rs : List Account)
      → e.amount_cents ≡ pos 0 -ℤ pos m
      → IsExplained es rs
      → IsExplained (e ∷ es) (update_where (has_id e.account_id) (take_cents m) rs)
  debit_unchecked-IsExplained [] d h = tt
  debit_unchecked-IsExplained (r ∷ rs) d h =
      (grind (int_laws, d, h.0), debit_unchecked-IsExplained rs d h.1)

  debit-IsExplained :
      (rs : List Account)
      → e.amount_cents ≡ pos 0 -ℤ pos m
      → leb_ℤ (pos m) (entries_sum e.account_id es) ≡ true
      → IsExplained es rs
      → IsExplained
          (e ∷ es)
          (update_where (λ r. has_id e.account_id r && covers m r) (take_cents m) rs)
  debit-IsExplained [] d c h = tt
  debit-IsExplained (r ∷ rs) d c h = (grind (int_laws, d, c, h.0), debit-IsExplained rs d c h.1)

-- Each of the three statements, followed by a history row that tells its amount and the balance it
-- returned, keeps the books.
module _ (d : EntryData) (id now m : ℕ) (es : List Entry) (rs : List Account) {r : Account} where
  pub credit-Books :
      first (has_id d.account_id) rs ≡ some r
      → d.amount_cents ≡ pos m
      → d.balance_after_cents ≡ r.balance_cents +ℤ pos m
      → Books es rs
      → Books (to_entry d id now ∷ es) (update_where (has_id d.account_id) (add_cents m) rs)
  credit-Books f a b (h, k) = (
    credit-IsExplained (to_entry d id now) m es rs a h,
    (grind (int_laws, found_row (has_id d.account_id) es rs h f), k),
  )

  pub debit_unchecked-Books :
      first (has_id d.account_id) rs ≡ some r
      → d.amount_cents ≡ pos 0 -ℤ pos m
      → d.balance_after_cents ≡ r.balance_cents -ℤ pos m
      → Books es rs
      → Books (to_entry d id now ∷ es) (update_where (has_id d.account_id) (take_cents m) rs)
  debit_unchecked-Books f a b (h, k) = (
    debit_unchecked-IsExplained (to_entry d id now) m es rs a h,
    (grind (int_laws, found_row (has_id d.account_id) es rs h f), k),
  )

  pub debit-Books :
      first (λ r. has_id d.account_id r && covers m r) rs ≡ some r
      → d.amount_cents ≡ pos 0 -ℤ pos m
      → d.balance_after_cents ≡ r.balance_cents -ℤ pos m
      → Books es rs
      → Books
          (to_entry d id now ∷ es)
          (update_where (λ r. has_id d.account_id r && covers m r) (take_cents m) rs)
  debit-Books f a b (h, k) =
      let found = found_row (λ r. has_id d.account_id r && covers m r) es rs h f in
      (
        debit-IsExplained (to_entry d id now) m es rs a (grind (int_laws, found)) h,
        (grind (int_laws, found), k),
      )
