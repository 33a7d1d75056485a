-- ===== src/Ledger/Race.antt =====
-- The planted race (bank/money.js, `transfer` with `race`): two requests that both check before
-- either takes.
use mathlib.Core.Path.{subst}
use agents_playground.Prelude.{
  ℕ, pos, ◌+ℤ◌, ◌≡◌, ◌≢◌, sym, ◌∙◌, none, some, first, true, arith, truthy, ltb_ℤ, int_laws,
}
use agents_playground.Db.{Account, Db, Returns, Result, ok, err, ◌>>=◌, ◌>>◌, Action, >>=_ok}
use agents_playground.Money.{
  has_id, covers, take_cents, add_cents, TransferRequest, settle, race_check, Answer,
}
use agents_playground.Ledger.Transfers.{HasMoved, committed_transfer-HasMoved}

-- Two requests sent together: both read the balance, and after the wait both take.
abbrev pub together : TransferRequest → TransferRequest → Action Answer
together r s = race_check r >> race_check s >> settle r >>= λ _. settle s

race_check_passes :
    (r : TransferRequest) (db : Db) {row : Account}
    → first (has_id r.from.id) db.accounts ≡ some row
    → covers r.amount_cents row ≡ true
    → race_check r db ≡ (ok tt, db)
unfolding race_check
race_check_passes r db there enough = ground (arith, there, enough)

settle-HasMoved :
    (r : TransferRequest) (db : Db) {source target : Account}
    → r.race ≡ true
    → r.from.id ≢ r.to.id
    → first (has_id r.from.id) db.accounts ≡ some source
    → first (has_id r.to.id) db.accounts ≡ some target
    → truthy r.key ≡ none
    → Returns (HasMoved r source target db) (settle r db)
unfolding settle
settle-HasMoved r db {source} {target} armed ne there theirs free = ground (
  arith,
  committed_transfer-HasMoved r db {source = source} {target = target} ne (ground (arith, armed))
      there theirs (rw free),
)

-- The account is there, below zero.
abbrev pub IsOverdrawn : ℕ → Answer → Db → Type 0
IsOverdrawn id a d =
    (row : Account) × (first (has_id id) d.accounts ≡ some row)
    × (ltb_ℤ row.balance_cents (pos 0) ≡ true)

-- Two transfers with the planted race armed and no key, out of one account to another, each covered
-- by its balance but not both together, sent together both go through and leave the account below
-- zero.
pub together_overdraws :
    (r s : TransferRequest) (db : Db) {row target : Account}
    → r.race ≡ true
    → s.race ≡ true
    → s.from.id ≡ r.from.id
    → s.to.id ≡ r.to.id
    → r.from.id ≢ r.to.id
    → truthy r.key ≡ none
    → truthy s.key ≡ none
    → first (has_id r.from.id) db.accounts ≡ some row
    → first (has_id r.to.id) db.accounts ≡ some target
    → covers r.amount_cents row ≡ true
    → covers s.amount_cents row ≡ true
    → ltb_ℤ row.balance_cents (pos r.amount_cents +ℤ pos s.amount_cents) ≡ true
    → Returns (IsOverdrawn r.from.id) (together r s db)
together_overdraws r s db {row} {target} r_armed s_armed same_from same_to ne r_free s_free there
      theirs r_covers s_covers short =
    second ((race_check r >> race_check s >> settle r) db) (
      subst (Returns (HasMoved r row target db))
        (sym (>>=_ok (race_check r >> race_check s) (λ _. settle r) both))
        (settle-HasMoved r db r_armed ne there theirs r_free))
  where
    both : (race_check r >> race_check s) db ≡ (ok tt, db)
    both =
        >>=_ok (race_check r) (λ _. race_check s) (race_check_passes r db there r_covers)
        ∙ race_check_passes s db {row = row} (rw same_from there) s_covers

    left : Account
    left = take_cents r.amount_cents row

    overdrawn :
        (o : Result Answer × Db) (d : Db)
        → Returns (HasMoved s left (add_cents r.amount_cents target) d) o
        → Returns (IsOverdrawn r.from.id) o
    overdrawn (ok a, d') d h =
        (take_cents s.amount_cents left, rw (← same_from) h.0, grind (int_laws, short))
    overdrawn (err e, d') d h = h

    second :
        (o : Result Answer × Db)
        → Returns (HasMoved r row target db) o
        → Returns
            (IsOverdrawn r.from.id)
            (elim o.0 as (λ _. Result Answer × Db) [ ok a ↦ settle s o.1 | err e ↦ (err e, o.1) ])
    second (ok a, d) h = overdrawn (settle s d) d (
        settle-HasMoved s d s_armed (rw (same_from, same_to) ne) (rw same_from h.0) (rw same_to h.1)
          s_free)
    second (err e, d) h = h
