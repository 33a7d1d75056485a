-- ===== src/Ledger/Transfers.antt =====
-- What a transfer does when the key is new: the money moves, or nothing does (bank/money.js,
-- `transfer`).
use agents_playground.Prelude.{
  ℕ, ◌≡◌, ◌≢◌, refl, none, some, first, Option, true, false, ◌∷◌, ◌||◌, arith, truthy, ==_refl,
  List, Bool, [], ◌&&◌, String,
}
use agents_playground.Db.{
  Account, Db, Returns, Returns-map, Result, ok, err, Error, transaction, transaction-Returns,
}
use agents_playground.Money.{
  has_id, covers, add_cents, take_cents, Moved, move_money, moved_accounts, move_money-Returns,
  TransferRequest, TransferView, committed_transfer, transfer, move_of, key_taken, find_transfer,
  find_transfer_by_key, transfer_row, to_transfer, Answer,
}
use agents_playground.Ledger.Conserved.{IsDistinct}
use agents_playground.Ledger.Rows.{
  apart_from, others-moved, takes_source, moved_source, credit_target, moved_target,
}

-- What is left of the accounts, and what is answered.
abbrev pub HasMoved : TransferRequest → Account → Account → Db → Answer → Db → Type 0
HasMoved r source target db a d =
    (first (has_id r.from.id) d.accounts ≡ some (take_cents r.amount_cents source))
    × (first (has_id r.to.id) d.accounts ≡ some (add_cents r.amount_cents target))
    × (apart_from r.from.id r.to.id d.accounts ≡ apart_from r.from.id r.to.id db.accounts)
    × (a.1 ≡ false)
    × ((t : TransferView) × (a.0 ≡ some t)
        × (t.amount_cents ≡ r.amount_cents)
        × (t.to_account_number ≡ target.number))

module _ (r : TransferRequest) (db : Db) {source target : Account} (ne : r.from.id ≢ r.to.id)
    (allowed : r.race || covers r.amount_cents source ≡ true)
    (there : first (has_id r.from.id) db.accounts ≡ some source)
    (theirs : first (has_id r.to.id) db.accounts ≡ some target)
    (free : key_taken r.user_id (truthy r.key) db.transfers ≡ false) where
  abbrev FoundAfter : ℕ → Db → Type 0
  FoundAfter id d =
      (d.accounts ≡ moved_accounts (move_of r) db.accounts)
      × ((t : TransferView) × (find_transfer id d ≡ some t)
          × (t.amount_cents ≡ r.amount_cents)
          × (t.to_account_number ≡ target.number))

  found_after : (id : ℕ) (d : Db) → Moved (move_of r) db id d → FoundAfter id d
  unfolding find_transfer
  found_after id d h =
      let moved : first (has_id r.to.id) d.accounts ≡ some (add_cents r.amount_cents target) =
        rw (h.4) (moved_target (move_of r) db.accounts ne allowed there theirs) in
      (
        h.4,
        (
          to_transfer (transfer_row (move_of r) id db.now) (add_cents r.amount_cents target),
          ground (arith, h.6, moved, ==_refl id),
          refl,
          refl,
        ),
      )

  pub committed_transfer-HasMoved : Returns (HasMoved r source target db) (committed_transfer r db)
  unfolding committed_transfer
  committed_transfer-HasMoved =
      let m = move_of r in
      answered (transaction (move_money m) db) (
        transaction-Returns FoundAfter (move_money m) db (
          Returns-map (Moved m db) FoundAfter (move_money m db) found_after (
            move_money-Returns m db (takes_source m db.accounts ne allowed there theirs)
              (credit_target m db.accounts ne allowed there theirs) free)))
    where
      answered :
          (o : Result ℕ × Db)
          → Returns FoundAfter o
          → Returns
              (HasMoved r source target db)
              (elim o.0 [ ok id ↦ (ok (find_transfer id o.1, false), o.1) | err e ↦ (err e, o.1) ])
      answered (ok id, d) (accounts, (t, found, amount, number)) = (
        rw accounts (moved_source (move_of r) db.accounts ne allowed there theirs),
        rw accounts (moved_target (move_of r) db.accounts ne allowed there theirs),
        rw accounts (others-moved (move_of r) db.accounts),
        refl,
        (t, found, amount, number),
      )
      answered (err e, d) h = absurd h

none_left :
    (a : ℕ) (p : Account → Bool) (rs : List Account)
    → first (has_id a) rs ≡ none
    → first (λ x. has_id a x && p x) rs ≡ none
none_left a p [] h = refl
none_left a p (x ∷ rs) h = ground (arith, none_left a p rs)

broke :
    (a : ℕ) (p : Account → Bool) (rs : List Account) (r : Account)
    → IsDistinct rs
    → first (has_id a) rs ≡ some r
    → p r ≡ false
    → first (λ x. has_id a x && p x) rs ≡ none
broke a p [] r d f h = refl
broke a p (x ∷ rs) r d f h = grind (arith, broke a p rs r d.1, none_left a p rs)

free_key :
    (u : ℕ) (key : Option String) (db : Db)
    → key_taken u key db.transfers ≡ false
    → find_transfer_by_key u key db ≡ none
unfolding find_transfer_by_key
free_key u none db h = refl
free_key u (some k) db h = ground (arith, h)

-- A transfer between two different accounts that exist, of an amount that the first covers, under a
-- key that is new or absent, succeeds: the amount leaves the one and reaches the other, no third
-- account changes, and the answer is not a replay and carries the amount and the receiver's number.
pub transfer-HasMoved :
    (r : TransferRequest) (db : Db) {source target : Account}
    → r.from.id ≢ r.to.id
    → covers r.amount_cents source ≡ true
    → first (has_id r.from.id) db.accounts ≡ some source
    → first (has_id r.to.id) db.accounts ≡ some target
    → key_taken r.user_id (truthy r.key) db.transfers ≡ false
    → Returns (HasMoved r source target db) (transfer r db)
unfolding transfer
transfer-HasMoved r db {source} {target} ne enough there theirs free = ground (
  arith,
  free_key r.user_id (truthy r.key) db free,
  committed_transfer-HasMoved r db {source = source} {target = target} ne (ground (arith, enough))
      there theirs free,
)

-- Without the planted race and with distinct account ids, a transfer of more than the sending
-- account holds, under a key that is new or absent, throws InsufficientFundsError and changes
-- nothing.
pub transfer_overdraft :
    (r : TransferRequest) (db : Db) {source : Account}
    → r.race ≡ false
    → covers r.amount_cents source ≡ false
    → first (has_id r.from.id) db.accounts ≡ some source
    → key_taken r.user_id (truthy r.key) db.transfers ≡ false
    → IsDistinct db.accounts
    → transfer r db ≡ (err Error.insufficient_funds, db)
unfolding transfer committed_transfer move_money
transfer_overdraft r db {source} safe short there free distinct = ground (
  arith,
  free_key r.user_id (truthy r.key) db free,
  broke r.from.id (covers r.amount_cents) db.accounts source distinct there short,
)
