-- ===== src/Cards/Effects.antt =====
-- What the transaction of a purchase has done (bank/cards.js, `charge`).
use mathlib.Core.Path.{subst}
use agents_playground.Prelude.{
  ℕ, ◌+◌, pos, ◌-ℤ◌, ◌≡◌, refl, sym, ◌∙◌, ◌⊎◌, inl, inr, Bool, List, [], ◌∷◌, Option, none, some,
  ◌==◌, ◌&&◌, first, update_where, Option-cases, arith,
}
use agents_playground.Db.{
  Db, Account, Card, Reason, Entry, ok, OnOk, OnOk-map, Returns, Returns-map, OnOk-of_Returns,
  row_or_throw-OnOk, >>=_ok,
}
use agents_playground.Money.{has_id, covers, take_cents, to_entry}
use agents_playground.Cards.Charging.{
  Purchase, refusal, Tried, declined, approved, try_charge, charge_row, purchase_entry,
  record_charge, charge_fresh, charge_work,
}

-- The test of the debiting statement.
abbrev pays : Purchase → Card → Account → Bool
pays p c x = has_id c.account_id x && covers p.amount_cents x

abbrev rows_after : Purchase → Card → Tried → ℕ → ℕ → List Entry → List Entry
rows_after p c (declined reason) id now es = es
rows_after p c (approved balance) id now es = to_entry (purchase_entry p c balance) id now ∷ es

abbrev Written : Purchase → Card → Tried → Db → ℕ → Db → Type 0
Written p c o db id d =
    (d.accounts ≡ db.accounts)
    × (d.transactions ≡ rows_after p c o (db.uuids (db.drawn + 1)) db.now db.transactions)
    × (d.card_charges ≡ charge_row p o id ∷ db.card_charges)
    × (d.cards ≡ db.cards)

record_charge-Written :
    (p : Purchase) (c : Card) (o : Tried) (db : Db)
    → Returns (Written p c o db) (record_charge p c o db)
unfolding record_charge
record_charge-Written p c (declined reason) db = ground arith
record_charge-Written p c (approved balance) db = ground arith

-- Why a declined purchase was declined.
abbrev pub Declined : Purchase → Card → Db → Reason → Type 0
Declined p c db reason =
    (refusal p c db ≡ some reason)
    ⊎ ((refusal p c db ≡ none)
        × (first (pays p c) db.accounts ≡ none)
        × (reason ≡ Reason.insufficient_funds))

-- What a purchase did, by its outcome.
abbrev pub Settled : Purchase → Card → Db → Db → Tried → Type 0
Settled p c db d (declined reason) =
    Declined p c db reason × (d.accounts ≡ db.accounts) × (d.transactions ≡ db.transactions)
Settled p c db d (approved balance) =
    (refusal p c db ≡ none)
    × (r : Account) × (first (pays p c) db.accounts ≡ some r)
    × (balance ≡ r.balance_cents -ℤ pos p.amount_cents)
    × (d.accounts ≡ update_where (pays p c) (take_cents p.amount_cents) db.accounts)
    × (d.transactions
        ≡ to_entry (purchase_entry p c balance) (db.uuids (db.drawn + 1)) db.now ∷ db.transactions)

abbrev pub Charged : Purchase → Card → Db → ℕ → Db → Type 0
Charged p c db id d =
    (o : Tried) × (d.card_charges ≡ charge_row p o id ∷ db.card_charges)
    × (d.cards ≡ db.cards)
    × Settled p c db d o

update_where-none :
    (q : Account → Bool) (f : Account → Account) (rs : List Account)
    → first q rs ≡ none
    → update_where q f rs ≡ rs
update_where-none q f [] e = refl
update_where-none q f (r ∷ rs) e = ground (arith, update_where-none q f rs, e)

-- The state after the debiting statement.
abbrev pub spent : Purchase → Card → Db → Db
spent p c db = record db {
  accounts = update_where (pays p c) (take_cents p.amount_cents) db.accounts;
}

module _ (p : Purchase) (c : Card) (db : Db) where
  try_charge-short :
      first (pays p c) db.accounts ≡ none
      → try_charge p c none db ≡ (ok (declined Reason.insufficient_funds), spent p c db)
  unfolding try_charge
  try_charge-short broke = rw broke refl

  try_charge-paid :
      {r : Account}
      → first (pays p c) db.accounts ≡ some r
      → try_charge p c none db
        ≡ (ok (approved (r.balance_cents -ℤ pos p.amount_cents)), spent p c db)
  unfolding try_charge
  try_charge-paid found = rw found refl

  charge_fresh-short :
      refusal p c db ≡ none
      → first (pays p c) db.accounts ≡ none
      → charge_fresh p c db ≡ record_charge p c (declined Reason.insufficient_funds) (spent p c db)
  unfolding charge_fresh
  charge_fresh-short clear broke =
      rw clear (>>=_ok (try_charge p c none) (record_charge p c) (try_charge-short broke))

  charge_fresh-paid :
      {r : Account}
      → refusal p c db ≡ none
      → first (pays p c) db.accounts ≡ some r
      → charge_fresh p c db
        ≡ record_charge p c (approved (r.balance_cents -ℤ pos p.amount_cents)) (spent p c db)
  unfolding charge_fresh
  charge_fresh-paid clear found =
      rw clear (>>=_ok (try_charge p c none) (record_charge p c) (try_charge-paid found))

  charge_fresh-refused :
      {reason : Reason}
      → refusal p c db ≡ some reason
      → charge_fresh p c db ≡ record_charge p c (declined reason) db
  unfolding charge_fresh try_charge
  charge_fresh-refused why = rw why refl

  from_record :
      (o : Tried) (mid : Db)
      → charge_fresh p c db ≡ record_charge p c o mid
      → ((id : ℕ) (d : Db) → Written p c o mid id d → Charged p c db id d)
      → Returns (Charged p c db) (charge_fresh p c db)
  from_record o mid e f = subst (Returns (Charged p c db)) (sym e) (
      Returns-map (Written p c o mid) (Charged p c db) (record_charge p c o mid) f
        (record_charge-Written p c o mid))

  pub charge_fresh-Charged : Returns (Charged p c db) (charge_fresh p c db)
  charge_fresh-Charged = elim (Option-cases (refusal p c db)) [
    | inr (reason, why) ↦
        from_record (declined reason) db (charge_fresh-refused why)
          (λ id d (accounts, entries, charges, cards).
            (declined reason, charges, cards, (inl why, accounts, entries)))
    | inl clear ↦ elim (Option-cases (first (pays p c) db.accounts)) [
      | inl broke ↦
          from_record (declined Reason.insufficient_funds) (spent p c db)
            (charge_fresh-short clear broke)
            (λ id d (accounts, entries, charges, cards). (
              declined Reason.insufficient_funds,
              charges,
              cards,
              (
                inr (clear, broke, refl),
                accounts
                    ∙ update_where-none (pays p c) (take_cents p.amount_cents) db.accounts broke,
                entries,
              ),
            ))
      | inr (r, found) ↦
          from_record (approved (r.balance_cents -ℤ pos p.amount_cents)) (spent p c db)
            (charge_fresh-paid clear found)
            (λ id d (accounts, entries, charges, cards). (
              approved (r.balance_cents -ℤ pos p.amount_cents),
              charges,
              cards,
              (clear, r, found, refl, accounts, entries),
            ))
    ]
  ]

-- The card that the transaction reads.
abbrev pub current : Purchase → Db → Option Card
current p db = first (λ (c : Card). c.id == p.card_id) db.cards

abbrev pub Purchased : Purchase → Db → ℕ → Db → Type 0
Purchased p db id d = (c : Card) × (current p db ≡ some c) × Charged p c db id d

pub charge_work-Purchased : (p : Purchase) (db : Db) → OnOk (Purchased p db) (charge_work p db)
unfolding charge_work
charge_work-Purchased p db =
    row_or_throw-OnOk (Purchased p db) (current p db) (charge_fresh p) db (λ c there.
      OnOk-map (Charged p c db) (Purchased p db) (charge_fresh p c db) (λ id d h. (c, there, h))
        (OnOk-of_Returns (Charged p c db) (charge_fresh p c db) (charge_fresh-Charged p c db)))
