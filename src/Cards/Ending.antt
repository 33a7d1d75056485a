-- ===== src/Cards/Ending.antt =====
-- What a purchase may end in, and that it ends so (bank/cards.js, `charge`).
use agents_playground.Prelude.{
  ℕ, ◌+◌, ◌≤◌, ◌<◌, pos, ◌-ℤ◌, leb_ℤ, ◌≡◌, ◌⊎◌, inl, inr, Bool, ◌∷◌, Option, none, some, ◌==◌, ◌&&◌,
  first, arith, update_where, if◌then◌else◌,
}
use agents_playground.Db.{Db, Account, Card, CardStatus, Reason}
use agents_playground.Money.{take_cents, to_entry}
use agents_playground.Cards.Reading.{spent_on}
use agents_playground.Cards.Charging.{Purchase, refusal, Tried, declined, approved, purchase_entry}
use agents_playground.Cards.Effects.{Declined, Settled}

-- What the daily limit must cover: this amount with the day's approved ones, or alone with the
-- planted fault.
abbrev pub against_limit : Purchase → Db → ℕ
against_limit p db =
    if p.per_charge_bug
    then p.amount_cents
    else spent_on p.card_id p.today db.card_charges + p.amount_cents

-- The card may be used for it, whatever the account has.
abbrev pub IsUsable : Purchase → Card → Db → Type 0
IsUsable p c db = (c.status ≡ CardStatus.active) × (against_limit p db ≤ c.limit_cents)

-- The card's account, where its balance covers the amount.
abbrev pub can_pay : Purchase → Card → Account → Bool
can_pay p c x = x.id == c.account_id && leb_ℤ (pos p.amount_cents) x.balance_cents

abbrev pub payer : Purchase → Card → Db → Option Account
payer p c db = first (can_pay p c) db.accounts

-- The three reasons, and when each is given.
abbrev pub IsReason : Purchase → Card → Db → Reason → Type 0
IsReason p c db Reason.frozen = c.status ≡ CardStatus.frozen
IsReason p c db Reason.over_limit =
    (c.status ≡ CardStatus.active) × (c.limit_cents < against_limit p db)
IsReason p c db Reason.insufficient_funds = IsUsable p c db × (payer p c db ≡ none)

-- What a purchase may end in: declined with nothing moved, or approved with its amount taken.
abbrev pub Ends : Purchase → Card → Db → Db → Tried → Type 0
Ends p c db d (declined reason) =
    IsReason p c db reason × (d.accounts ≡ db.accounts) × (d.transactions ≡ db.transactions)
Ends p c db d (approved balance) =
    IsUsable p c db
    × (r : Account) × (payer p c db ≡ some r)
    × (balance ≡ r.balance_cents -ℤ pos p.amount_cents)
    × (d.accounts ≡ update_where (can_pay p c) (take_cents p.amount_cents) db.accounts)
    × (d.transactions
        ≡ to_entry (purchase_entry p c balance) (db.uuids (db.drawn + 1)) db.now ∷ db.transactions)

refusal-cases :
    (p : Purchase) (c : Card) (db : Db)
    → ((refusal p c db ≡ some Reason.frozen) × (c.status ≡ CardStatus.frozen))
      ⊎ ((refusal p c db ≡ some Reason.over_limit)
          × (c.status ≡ CardStatus.active)
          × (c.limit_cents < against_limit p db))
      ⊎ ((refusal p c db ≡ none) × IsUsable p c db)
unfolding refusal
refusal-cases p c db = ground arith

Declined-IsReason :
    (p : Purchase) (c : Card) (db : Db) (reason : Reason)
    → Declined p c db reason
    → IsReason p c db reason
Declined-IsReason p c db reason (inl e) = elim (refusal-cases p c db) [
  | inl (e', why) ↦ (let s : reason ≡ Reason.frozen = cc in rw s why)
  | inr (inl (e', used, past)) ↦ (let s : reason ≡ Reason.over_limit = cc in rw s (used, past))
  | inr (inr (e', why)) ↦ cc
]
Declined-IsReason p c db reason (inr (e, short, s)) = elim (refusal-cases p c db) [
  | inl (e', why) ↦ cc
  | inr (inl (e', used, past)) ↦ cc
  | inr (inr (e', why)) ↦ rw s (why, short)
]

refusal-IsUsable : (p : Purchase) (c : Card) (db : Db) → refusal p c db ≡ none → IsUsable p c db
refusal-IsUsable p c db e = elim (refusal-cases p c db) [
  | inl (e', why) ↦ cc
  | inr (inl (e', used, past)) ↦ cc
  | inr (inr (e', why)) ↦ why
]

pub Settled-Ends :
    (p : Purchase) (c : Card) (db d : Db) (o : Tried) → Settled p c db d o → Ends p c db d o
Settled-Ends p c db d (declined reason) (why, accounts, entries) =
    (Declined-IsReason p c db reason why, accounts, entries)
Settled-Ends p c db d (approved balance) (clear, r, found, left, accounts, entries) =
    (refusal-IsUsable p c db clear, r, found, left, accounts, entries)
