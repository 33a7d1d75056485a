-- ===== src/Money/Effects.antt =====
-- What `moveMoney` has done when it succeeds: the one description that the ledger's theorems use.
use agents_playground.Prelude.{
  ℕ, ◌+◌, ◌≡◌, Bool, false, some, none, Option-cases, Bool-cases, inl, inr, first, truthy, List,
  update_where, ◌∷◌, ◌&&◌, if◌then◌else◌, arith,
}
use agents_playground.Db.{
  Account, Db, OnOk, Entry, Result, OnOk-map, Returns, Returns-map, Returns-of_OnOk, ◌>>=◌,
}
use agents_playground.Money.Balances.{
  update_accounts, has_id, covers, take_cents, add_cents, to_entry,
}
use agents_playground.Money.Transfers.{
  Move, move_money, record_move, key_taken, transfer_row, row_or_broke, out_entry, in_entry,
}

-- The test of the debiting statement.
abbrev pub takes : Move → Account → Bool
takes m =
    if m.unchecked then has_id m.from.id else (λ r. has_id m.from.id r && covers m.amount_cents r)

abbrev pub debited_accounts : Move → List Account → List Account
debited_accounts m = update_where (takes m) (take_cents m.amount_cents)

abbrev pub moved_accounts : Move → List Account → List Account
moved_accounts m rs =
    update_where (has_id m.to.id) (add_cents m.amount_cents) (debited_accounts m rs)

abbrev pub taken_entries : Move → Db → ℕ → Account → List Entry
taken_entries m db id r =
    to_entry (out_entry m id r.balance_cents) (db.uuids (db.drawn + 1)) db.now ∷ db.transactions

abbrev pub moved_entries : Move → Db → ℕ → Account → Account → List Entry
moved_entries m db id r c =
    to_entry (in_entry m id c.balance_cents) (db.uuids (db.drawn + 1 + 1)) db.now
    ∷ taken_entries m db id r

abbrev Recorded : Move → Account → Account → Db → ℕ → Db → Type 0
Recorded m r c db id d =
    (d.accounts ≡ db.accounts)
    × (d.transactions ≡ moved_entries m db id r c)
    × (d.transfers ≡ transfer_row m id db.now ∷ db.transfers)
    × (d.requests ≡ db.requests)

record_move-effect :
    (m : Move) (r c : Account) (db : Db) → OnOk (Recorded m r c db) (record_move m r (some c) db)
unfolding record_move
record_move-effect m r c db = ground arith

record_move-missing :
    (m : Move) (r : Account) (db : Db) (P : ℕ → Db → Type 0) → OnOk P (record_move m r none db)
unfolding record_move
record_move-missing m r db P = ground arith

-- The two rows that the statements returned, before their change, and the state that is left.
abbrev pub Moved : Move → Db → ℕ → Db → Type 0
Moved m db id d =
    (r : Account) × (c : Account) × (first (takes m) db.accounts ≡ some r)
    × (first (has_id m.to.id) (debited_accounts m db.accounts) ≡ some c)
    × (d.accounts ≡ moved_accounts m db.accounts)
    × (d.transactions
        ≡ moved_entries m db id (take_cents m.amount_cents r) (add_cents m.amount_cents c))
    × (d.transfers ≡ transfer_row m id db.now ∷ db.transfers)
    × (d.requests ≡ db.requests)

-- The move by the test `takes`, whichever of the two statements it is.
move_by : Move → (Account → Bool) → Db → Result ℕ × Db
move_by m p db =
    (do
      debited ← row_or_broke (← update_accounts p (take_cents m.amount_cents))
      credited ← update_accounts (has_id m.to.id) (add_cents m.amount_cents)
      record_move m debited credited)
      db

move_money-by : (m : Move) (db : Db) → move_money m db ≡ move_by m (takes m) db
unfolding move_money move_by
move_money-by m db = elim (Bool-cases m.unchecked) [ inl u ↦ rw u | inr u ↦ rw u ]

pub move_money-Moved : (m : Move) (db : Db) → OnOk (Moved m db) (move_money m db)
unfolding move_by
move_money-Moved m db = rw (move_money-by m db) (elim (Option-cases (first (takes m) db.accounts)) [
  | inl broke ↦ rw broke tt
  | inr (r, found) ↦
      rw found (elim (Option-cases (first (has_id m.to.id) (debited_accounts m db.accounts))) [
        | inl missing ↦
            rw missing (record_move-missing m (take_cents m.amount_cents r) _ (Moved m db))
        | inr (c, there) ↦ rw there (
            let r' = take_cents m.amount_cents r in
            let c' = add_cents m.amount_cents c in
            let mid = record db { accounts = moved_accounts m db.accounts } in
            OnOk-map (Recorded m r' c' mid) (Moved m db) _
              (λ id d h. (r, c, found, there, h.0, h.1, h.2, h.3)) (record_move-effect m r' c' mid))
      ])
])

record_move-Returns :
    (m : Move) (r c : Account) (db : Db)
    → key_taken m.user_id (truthy m.key) db.transfers ≡ false
    → Returns (Recorded m r c db) (record_move m r (some c) db)
unfolding record_move
record_move-Returns m r c db free = ground arith

move_by-Returns :
    (m : Move) (p : Account → Bool) (db : Db) {r c : Account}
    → first p db.accounts ≡ some r
    → first (has_id m.to.id) (update_where p (take_cents m.amount_cents) db.accounts) ≡ some c
    → key_taken m.user_id (truthy m.key) db.transfers ≡ false
    → Returns (λ _ _. Unit {0}) (move_by m p db)
unfolding move_by
move_by-Returns m p db {r} {c} found there free =
    let mid = record db {
      accounts =
          update_where (has_id m.to.id) (add_cents m.amount_cents)
            (update_where p (take_cents m.amount_cents) db.accounts);
    } in
    rw found (
      rw there (
        Returns-map (Recorded m (take_cents m.amount_cents r) (add_cents m.amount_cents c) mid)
          (λ _ _. Unit {0}) _ (λ _ _ _. tt)
          (record_move-Returns m (take_cents m.amount_cents r) (add_cents m.amount_cents c) mid
            free)))

-- With the money there, the receiver there and the key new, the move succeeds.
pub move_money-Returns :
    (m : Move) (db : Db) {r c : Account}
    → first (takes m) db.accounts ≡ some r
    → first (has_id m.to.id) (debited_accounts m db.accounts) ≡ some c
    → key_taken m.user_id (truthy m.key) db.transfers ≡ false
    → Returns (Moved m db) (move_money m db)
move_money-Returns m db found there free =
    Returns-of_OnOk (Moved m db) (move_money m db)
      (rw (move_money-by m db) (move_by-Returns m (takes m) db found there free))
      (move_money-Moved m db)
