-- ===== src/Ledger/Replay.antt =====
-- A repeated idempotency key returns the first transfer (bank/money.js, `transfer`).
use mathlib.Core.Path.{subst}
use agents_playground.Prelude.{
  ℕ, ◌≡◌, refl, sym, none, some, Option, first, List, [], ◌∷◌, ◌==◌, update_where, String, Bool,
  true, false, ◌∙◌, ap, arith, truthy, text_eq, text_eq→eq, text_eq_refl, ==_refl, ==_iff,
  Option-cases, Bool-cases, inl, inr,
}
use agents_playground.Db.{
  Db, Account, Transfer, OnOk, OnOk-map, transaction-OnOk, transaction-keeps, Keeps, rollback, ok,
}
use agents_playground.Money.{
  Move, Moved, move_money, move_money-Moved, TransferRequest, TransferView, committed_transfer,
  transfer, move_of, find_transfer, find_transfer_by_key, Answer, join_account, moved_accounts,
  debited_accounts, takes, same_key, transfer_row, to_transfer, has_id, take_cents, add_cents,
}

-- Right after the insert, the id and the key find the same row.
found_by_key :
    (m : Move) (id : ℕ) (db d : Db) (k : String)
    → truthy m.key ≡ some k
    → Moved m db id d
    → find_transfer_by_key m.user_id (some k) d ≡ find_transfer id d
unfolding find_transfer find_transfer_by_key
found_by_key m id db d k key h =
    rw (h.6) (ground (arith, key, ==_refl m.user_id, ==_refl id, text_eq_refl k))

-- The first answer is what the key finds afterwards.
abbrev IsAnswer : TransferRequest → Answer → Db → Type 0
IsAnswer r a d = a.0 ≡ find_transfer_by_key r.user_id (truthy r.key) d

committed_transfer-IsAnswer :
    (r : TransferRequest) (db : Db) {k : String}
    → truthy r.key ≡ some k
    → OnOk (IsAnswer r) (committed_transfer r db)
unfolding committed_transfer
committed_transfer-IsAnswer r db {k} key =
    let m = move_of r in
    ground (
      arith,
      key,
      transaction-OnOk (λ id d. find_transfer_by_key m.user_id (some k) d ≡ find_transfer id d)
          (move_money m) db
          (OnOk-map (Moved m db)
            (λ id d. find_transfer_by_key m.user_id (some k) d ≡ find_transfer id d)
            (move_money m db) (λ id d h. found_by_key m id db d k key h) (move_money-Moved m db)),
    )

transfer-IsAnswer :
    (r : TransferRequest) (db : Db) {k : String}
    → truthy r.key ≡ some k
    → OnOk (IsAnswer r) (transfer r db)
unfolding transfer
transfer-IsAnswer r db {k} key = ground (arith, committed_transfer-IsAnswer r db key)

known_key :
    (r : TransferRequest) (d : Db) {t : TransferView}
    → find_transfer_by_key r.user_id (truthy r.key) d ≡ some t
    → transfer r d ≡ (ok (some t, true), d)
unfolding transfer
known_key r d h = ground (arith, h)

-- What a key finds, kept.
abbrev Found : ℕ → String → TransferView → Db → Type 0
Found u k t d = find_transfer_by_key u (some k) d ≡ some t

-- A transfer as it is shown, from some rows of accounts.
abbrev shown_from : Transfer → List Account → Option TransferView
shown_from t rs = elim (first (has_id t.to_account_id) rs) [
  | none ↦ none
  | some a ↦ some (to_transfer t a)
]

shown_from-taken :
    (t : Transfer) (p : Account → Bool) (n : ℕ) (rs : List Account)
    → shown_from t (update_where p (take_cents n) rs) ≡ shown_from t rs
shown_from-taken t p n [] = refl
shown_from-taken t p n (r ∷ rs) = ground (arith, shown_from-taken t p n rs)

shown_from-added :
    (t : Transfer) (p : Account → Bool) (n : ℕ) (rs : List Account)
    → shown_from t (update_where p (add_cents n) rs) ≡ shown_from t rs
shown_from-added t p n [] = refl
shown_from-added t p n (r ∷ rs) = ground (arith, shown_from-added t p n rs)

join-moved :
    (m : Move) (o : Option Transfer) (db d : Db)
    → d.accounts ≡ moved_accounts m db.accounts
    → join_account o d ≡ join_account o db
join-moved m none db d e = refl
join-moved m (some t) db d e = rw e (
    shown_from-added t (has_id m.to.id) m.amount_cents (debited_accounts m db.accounts)
    ∙ shown_from-taken t (takes m) m.amount_cents db.accounts)

join-same :
    (o : Option Transfer) (db d : Db)
    → d.accounts ≡ db.accounts
    → join_account o d ≡ join_account o db
join-same none db d e = refl
join-same (some t) db d e = rw e refl

module _ (u : ℕ) (k : String) (t : TransferView) where
  -- A new row has another key than one that is found.
  new_row-other :
      (r : TransferRequest) (id now : ℕ) (db : Db)
      → Found u k t db
      → find_transfer_by_key r.user_id (truthy r.key) db ≡ none
      → same_key u k (transfer_row (move_of r) id now) ≡ false
  new_row-other r id now db found new = elim (Option-cases (truthy r.key)) [
    | inl unkeyed ↦ rw unkeyed (ground arith)
    | inr (k', keyed) ↦ rw keyed (elim (Bool-cases (text_eq k' k)) [
      | inr differ ↦ ground (arith, differ)
      | inl alike ↦ elim (Bool-cases (r.user_id == u)) [
        | inr other ↦ ground (arith, other)
        | inl own ↦
            (let e : k' ≡ k = text_eq→eq k' k alike in
              let e' : r.user_id ≡ u = (==_iff r.user_id u).0 own in
              let new' : find_transfer_by_key u (some k) db ≡ none = rw (keyed, e, e') at new in cc)
      ]
    ])
  ]

  Moved-Found :
      (r : TransferRequest) (db : Db) (id : ℕ) (d : Db)
      → find_transfer_by_key r.user_id (truthy r.key) db ≡ none
      → Found u k t db
      → Moved (move_of r) db id d
      → Found u k t d
  unfolding find_transfer_by_key
  Moved-Found r db id d new found h =
      let (r0, c0, _, _, accounts, _, transfers, _) = h in
      let other = new_row-other r id db.now db found new in
      let kept : first (same_key u k) d.transfers ≡ first (same_key u k) db.transfers =
        rw transfers (ground (arith, other)) in
      ap (λ o. join_account o d) kept
      ∙ join-moved (move_of r) (first (same_key u k) db.transfers) db d accounts
      ∙ found

  rollback-Found : (db db' : Db) → Found u k t db → Found u k t (rollback db db')
  unfolding find_transfer_by_key
  rollback-Found db db' found =
      join-same (first (same_key u k) db.transfers) db (rollback db db') refl ∙ found

  committed_transfer-Found :
      (r : TransferRequest) (db : Db)
      → find_transfer_by_key r.user_id (truthy r.key) db ≡ none
      → Found u k t db
      → Found u k t (committed_transfer r db).1
  unfolding committed_transfer
  committed_transfer-Found r db new found = ground (
    arith,
    transaction-keeps (Found u k t) (move_money (move_of r)) db (λ db'. rollback-Found db db' found)
        (OnOk-map (Moved (move_of r) db) (λ _ d. Found u k t d) (move_money (move_of r) db)
          (λ id d h. Moved-Found r db id d new found h) (move_money-Moved (move_of r) db)),
  )

  transfer-Found : (r : TransferRequest) → Keeps (Found u k t) (transfer r)
  unfolding transfer
  transfer-Found r db found =
      elim (Option-cases (find_transfer_by_key r.user_id (truthy r.key) db)) [
        | inl new ↦ ground (arith, new, found, committed_transfer-Found r db new found)
        | inr (t', known) ↦ subst (λ o. Found u k t o.1) (sym (known_key r db {t = t'} known)) found
      ]

-- Transfers one after another, whatever each answers or throws.
pub transfer_all : List TransferRequest → Db → Db
transfer_all [] d = d
transfer_all (r ∷ rs) d = transfer_all rs (transfer r d).1

transfer_all-Found :
    (u : ℕ) (k : String) (t : TransferView) (rs : List TransferRequest) (d : Db)
    → Found u k t d
    → Found u k t (transfer_all rs d)
unfolding transfer_all
transfer_all-Found u k t [] d found = found
transfer_all-Found u k t (r ∷ rs) d found =
    transfer_all-Found u k t rs (transfer r d).1 (transfer-Found u k t r d found)

-- Once a transfer with a key was answered with its row, then after any more transfers, by anyone
-- and with any key, whatever each answers or throws, a request of that customer with that key,
-- whatever else it asks for, gets the same transfer marked as a replay and changes nothing.
pub transfer_replay :
    (r r' : TransferRequest) (rs : List TransferRequest) (db d : Db) {t : TransferView} {b : Bool}
    {k : String}
    → truthy r.key ≡ some k
    → transfer r db ≡ (ok (some t, b), d)
    → r'.user_id ≡ r.user_id
    → truthy r'.key ≡ some k
    → transfer r' (transfer_all rs d) ≡ (ok (some t, true), transfer_all rs d)
transfer_replay r r' rs db d {t} {b} {k} key done user key' =
    let answered : IsAnswer r (some t, b) d = rw done at (transfer-IsAnswer r db key) in
    let found : Found r.user_id k t d = rw key at (sym answered) in
    known_key r' (transfer_all rs d) (rw (user, key') (transfer_all-Found r.user_id k t rs d found))
