-- ===== src/Cards/Spending.antt =====
-- What a purchase does (bank/cards.js, `charge`): its outcome, the ledger, and the daily limit.
use agents_playground.Prelude.{
  ℕ, ◌+◌, ◌≤◌, ℤ, ◌≡◌, refl, ◌⊎◌, inl, inr, false, List, ◌∷◌, Option, none, some, ◌==◌, first,
  ==_refl, arith,
}
use agents_playground.Db.{
  Db, Card, CardCharge, Reason, pure, OnOk-map, Returns, Returns-bind, transaction-Returns,
  transaction, transaction-keeps, select, ◌>>=◌,
}
use agents_playground.Money.{has_id}
use agents_playground.Ledger.Booked.{IsBooked, debit-Books}
use agents_playground.Ledger.Covered.{IsCovered, debit-NoneBelow}
use agents_playground.Cards.Reading.{spent_on, CardView, find_charge, find_own_card}
use agents_playground.Cards.Charging.{
  Purchase, refusal, Tried, declined, approved, charge_row, purchase_entry, charge_work, charge,
}
use agents_playground.Cards.Ending.{Ends, Settled-Ends}
use agents_playground.Cards.Effects.{
  Settled, Charged, charge_fresh-Charged, current, Purchased, charge_work-Purchased,
}

module _ (p : Purchase) (c : Card) (db d : Db) where
  Settled-IsBooked : (o : Tried) → IsBooked db → Settled p c db d o → IsBooked d
  Settled-IsBooked (declined reason) h (_, accounts, entries) = rw (accounts, entries) h
  Settled-IsBooked (approved balance) h (_, r, found, left, accounts, entries) =
      rw (accounts, entries)
        (debit-Books (purchase_entry p c balance) (db.uuids (db.drawn + 1)) db.now p.amount_cents
          db.transactions db.accounts found refl left h)

  Settled-IsCovered : (o : Tried) → IsCovered db → Settled p c db d o → IsCovered d
  Settled-IsCovered (declined reason) h (_, accounts, entries) = rw accounts h
  Settled-IsCovered (approved balance) h (_, r, found, left, accounts, entries) =
      rw accounts (debit-NoneBelow (has_id c.account_id) p.amount_cents db.accounts h)

-- If the history explains every balance, it does after a purchase, approved, declined or failed.
pub charge-IsBooked : (p : Purchase) (db : Db) → IsBooked db → IsBooked (charge p db).1
unfolding charge
charge-IsBooked p db h = ground (
  arith,
  transaction-keeps IsBooked (charge_work p) db (λ _. h)
      (OnOk-map (Purchased p db) (λ _ d. IsBooked d) (charge_work p db)
        (λ id d (c, _, (o, _, _, k)). Settled-IsBooked p c db d o h k)
        (charge_work-Purchased p db)),
)

-- Where no balance is below zero, none is after a purchase.
pub charge-IsCovered : (p : Purchase) (db : Db) → IsCovered db → IsCovered (charge p db).1
unfolding charge
charge-IsCovered p db h = ground (
  arith,
  transaction-keeps IsCovered (charge_work p) db (λ _. h)
      (OnOk-map (Purchased p db) (λ _ d. IsCovered d) (charge_work p db)
        (λ id d (c, _, (o, _, _, k)). Settled-IsCovered p c db d o h k)
        (charge_work-Purchased p db)),
)

-- The answer of a purchase: the attempt as recorded, and how it ended.
abbrev pub Answered : Purchase → Card → Db → Option CardCharge × Option CardView → Db → Type 0
Answered p c db a d = (id : ℕ) × (o : Tried) × (a.0 ≡ some (charge_row p o id)) × Ends p c db d o

charge_work-Returns :
    (p : Purchase) (c : Card) (db : Db)
    → current p db ≡ some c
    → Returns (Charged p c db) (charge_work p db)
unfolding charge_work
charge_work-Returns p c db there = rw there (charge_fresh-Charged p c db)

find_charge-new :
    (p : Purchase) (o : Tried) (id : ℕ) (d : Db) (cs : List CardCharge)
    → d.card_charges ≡ charge_row p o id ∷ cs
    → find_charge id d ≡ some (charge_row p o id)
unfolding find_charge
find_charge-new p o id d cs e = rw e (ground (arith, ==_refl id))

-- A purchase with a card that exists always answers with the attempt it recorded: a declined one
-- has the reason frozen for a frozen card, over the limit for an active one whose daily limit does
-- not cover what counts against it, or insufficient funds for one that may be used but whose
-- account does not cover the amount, and moved no money; an approved one was with an active card,
-- within the limit and covered by the account, took exactly its amount, and added one history row.
pub charge-Answered :
    (p : Purchase) (c : Card) (db : Db)
    → current p db ≡ some c
    → Returns (Answered p c db) (charge p db)
unfolding charge
charge-Answered p c db there =
    Returns-bind (Charged p c db) (Answered p c db) (transaction (charge_work p))
      (λ id. select (find_charge id) >>= λ made.
        select (find_own_card p.user_id p.card_id (some p.today)) >>= λ card. pure (made, card))
      db
      (transaction-Returns (Charged p c db) (charge_work p) db (charge_work-Returns p c db there))
      (λ id d (o, charges, _, settled).
        (id, o, find_charge-new p o id d db.card_charges charges, Settled-Ends p c db d o settled))

-- What a card has spent on a day stays within its limit.
abbrev pub Within : ℕ → ℕ → Card → Db → Type 0
Within id day c d =
    (first (λ (x : Card). x.id == id) d.cards ≡ some c)
    × (spent_on id day d.card_charges ≤ c.limit_cents)

-- A purchase without the planted fault passes the limit test only within the limit.
refusal-Within :
    (p : Purchase) (c : Card) (db : Db)
    → p.per_charge_bug ≡ false
    → refusal p c db ≡ none
    → spent_on p.card_id p.today db.card_charges + p.amount_cents ≤ c.limit_cents
unfolding refusal
refusal-Within p c db safe clear = ground (arith, safe, clear)

spent_on-declined :
    (p : Purchase) (reason : Reason) (n id day : ℕ) (cs : List CardCharge)
    → spent_on id day (charge_row p (declined reason) n ∷ cs) ≡ spent_on id day cs
unfolding spent_on
spent_on-declined p reason n id day cs = ground arith

spent_on-approved :
    (p : Purchase) (balance : ℤ) (n id day : ℕ) (cs : List CardCharge)
    → (spent_on id day (charge_row p (approved balance) n ∷ cs) ≡ spent_on id day cs)
      ⊎ ((p.card_id ≡ id)
          × (p.today ≡ day)
          × (spent_on id day (charge_row p (approved balance) n ∷ cs)
              ≡ p.amount_cents + spent_on id day cs))
unfolding spent_on
spent_on-approved p balance n id day cs = ground arith

module _ (p : Purchase) (db : Db) (safe : p.per_charge_bug ≡ false) (id day : ℕ) (c : Card)
    (h : Within id day c db) where
  Purchased-Within : (n : ℕ) (d : Db) → Purchased p db n d → Within id day c d
  Purchased-Within n d (f, there, (declined reason, charges, cards, _)) =
      rw (charges, cards)
        (h.0, omega (arith, h.1, spent_on-declined p reason n id day db.card_charges))
  Purchased-Within n d (f, there, (approved balance, charges, cards, (clear, _, _, _, _, _))) =
      rw (charges, cards)
        (
          h.0,
          elim (spent_on-approved p balance n id day db.card_charges) [
            | inl same ↦ omega (arith, same, h.1)
            | inr (card, today, more) ↦
                (let there' : first (λ (x : Card). x.id == id) db.cards ≡ some f =
                    rw card at there in
                  let same : f ≡ c = ground (arith, there', h.0) in
                  let le : spent_on id day db.card_charges + p.amount_cents ≤ c.limit_cents =
                    rw (card, today, same) at (refusal-Within p f db safe clear) in
                  omega (arith, more, le))
          ],
        )

  -- If a card has spent no more than its limit on a day, then after any purchase without the
  -- planted fault, with any card and on any day, its limit is the same and it still has spent no
  -- more on that day.
  pub charge-Within : Within id day c (charge p db).1
  unfolding charge
  charge-Within = ground (
    arith,
    transaction-keeps (Within id day c) (charge_work p) db (λ _. h)
        (OnOk-map (Purchased p db) (λ _ d. Within id day c d) (charge_work p db) Purchased-Within
          (charge_work-Purchased p db)),
  )
