-- ===== src/Cards/Charging.antt =====
-- A purchase (bank/cards.js, `charge`): checked and written in one transaction, in this order:
-- frozen, then the daily limit, then the balance.
use agents_playground.Prelude.{
  ℕ, ◌+◌, ℤ, pos, ◌-ℤ◌, String, join, Bool, List, ◌∷◌, Option, none, some, ◌==◌, first, leb,
  if◌then◌else◌,
}
use agents_playground.Db.{
  Db, Card, CardCharge, CardStatus, Reason, EntryKind, NoteKind, Link, Action, pure, select,
  execute, random_uuid, row_or_throw, transaction, ◌>>=◌, ◌>>◌,
}
use agents_playground.Money.{EntryData, insert_transaction, debit}
use agents_playground.Notify.{notify}
use agents_playground.Cards.Numbers.{digits_text}
use agents_playground.Cards.Reading.{CardView, spent_on, find_charge, find_own_card, reason_text}

-- The argument of `charge`; of the card the id and the last four digits are read.
pub record Purchase : Type 0 where
  pub user_id : ℕ
  pub card_id : ℕ
  pub last4 : List ℕ
  pub merchant : String
  pub amount_cents : ℕ
  pub today : ℕ
  pub per_charge_bug : Bool

-- What the limit is compared with.
abbrev pub counted : Purchase → Db → ℕ
counted p db =
    if p.per_charge_bug
    then p.amount_cents
    else spent_on p.card_id p.today db.card_charges + p.amount_cents

-- 1. Frozen? 2. Past the daily limit with today's approved charges?
unfoldable pub refusal : Purchase → Card → Db → Option Reason
unfolding spent_on
refusal p fresh db = elim fresh.status [
  | CardStatus.frozen ↦ some Reason.frozen
  | CardStatus.active ↦
      if leb (counted p db) fresh.limit_cents then none else some Reason.over_limit
]

-- Declined for a reason, or approved with the balance afterwards.
pub data Tried : Type 0 where
  declined : Reason → Tried
  approved : ℤ → Tried

-- 3. Take the money only if the balance covers it.
unfoldable pub try_charge : Purchase → Card → Option Reason → Action Tried
unfolding debit
try_charge p fresh (some reason) = pure (declined reason)
try_charge p fresh none = do
  debited ← debit fresh.account_id p.amount_cents
  pure (elim debited [
    | none ↦ declined Reason.insufficient_funds
    | some r ↦ approved r.balance_cents
  ])

abbrev pub reason_of : Tried → Option Reason
reason_of (declined r) = some r
reason_of (approved b) = none

abbrev pub charge_row : Purchase → Tried → ℕ → CardCharge
charge_row p o id = record {
  id = id;
  card_id = p.card_id;
  merchant = p.merchant;
  amount_cents = p.amount_cents;
  reason = reason_of o;
  charged_on = p.today;
}

abbrev pub purchase_entry : Purchase → Card → ℤ → EntryData
purchase_entry p fresh balance = record {
  account_id = fresh.account_id;
  kind = EntryKind.card_purchase;
  amount_cents = pos 0 -ℤ pos p.amount_cents;
  balance_after_cents = balance;
  description = join "Card purchase at " p.merchant;
  memo = join "Card ending " (digits_text p.last4);
  counterparty = p.merchant;
  transfer_id = none;
  created_at = none;
}

-- Approved: a history row. Declined: tell the customer why.
abbrev pub tell : Purchase → Card → Tried → Action (Unit {0})
tell p fresh (approved balance) = insert_transaction (purchase_entry p fresh balance) >> pure tt
tell p fresh (declined reason) = notify (record {
  user_id = p.user_id;
  kind = NoteKind.card_declined;
  title = join "Card ending " (join (digits_text p.last4) (join " declined at " p.merchant));
  body = reason_text reason;
  link = Link.page "/bank/cards";
  amount_cents = some (pos 0 -ℤ pos p.amount_cents);
})

-- Record the attempt either way.
unfoldable pub record_charge : Purchase → Card → Tried → Action ℕ
unfolding insert_transaction notify
record_charge p fresh o = do
  id ← random_uuid
  execute (λ db. record db { card_charges = charge_row p o id ∷ db.card_charges })
  tell p fresh o
  pure id

unfoldable pub charge_fresh : Purchase → Card → Action ℕ
unfolding refusal try_charge record_charge
charge_fresh p fresh = do
  reason ← select (refusal p fresh)
  o ← try_charge p fresh reason
  record_charge p fresh o

-- The card as it is now, inside the transaction.
unfoldable pub charge_work : Purchase → Action ℕ
unfolding charge_fresh
charge_work p = do
  fresh ← row_or_throw (← select (λ db. first (λ (c : Card). c.id == p.card_id) db.cards))
  charge_fresh p fresh

unfoldable pub charge : Purchase → Action (Option CardCharge × Option CardView)
unfolding charge_work find_charge find_own_card
charge p = do
  id ← transaction (charge_work p)
  made ← select (find_charge id)
  card ← select (find_own_card p.user_id p.card_id (some p.today))
  pure (made, card)
