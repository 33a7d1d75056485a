-- ===== src/Cards/Reading.antt =====
-- Reading cards and charges (bank/cards.js, `SELECT` to `cardDetails`, `toCharge` to
-- `listCharges`).
use mathlib.Core.List.{reverse}
use agents_playground.Prelude.{
  ℕ, ◌+◌, ◌-◌, String, Bool, List, [], ◌∷◌, Option, none, some, ◌==◌, ◌&&◌, length, take, drop,
  keep, first, if◌then◌else◌,
}
use agents_playground.Db.{Db, Card, CardCharge, CardStatus, FrozenBy, Reason, Account}
use agents_playground.Cards.Numbers.{format_number}

abbrev pub is_approved : CardCharge → Bool
is_approved c = elim c.reason [ none ↦ Bool.true | some _ ↦ Bool.false ]

-- `WHERE card_id = $1 AND status = 'approved' AND charged_on = $2`
abbrev pub counts_on : ℕ → ℕ → CardCharge → Bool
counts_on card_id day c = c.card_id == card_id && (is_approved c && c.charged_on == day)

-- `COALESCE(SUM(amount_cents), 0)` of those.
unfoldable pub spent_on : ℕ → ℕ → List CardCharge → ℕ
spent_on card_id day [] = 0
spent_on card_id day (c ∷ cs) =
    if counts_on card_id day c
    then c.amount_cents + spent_on card_id day cs
    else spent_on card_id day cs

-- A card as the API shows it, with its account's name and number.
pub record CardView : Type 0 where
  pub id : ℕ
  pub user_id : ℕ
  pub account_id : ℕ
  pub account_name : String
  pub account_number : String
  pub last4 : List ℕ
  pub expires : String
  pub status : CardStatus
  pub frozen_by : Option FrozenBy
  pub limit_cents : ℕ
  pub spent_today_cents : ℕ

-- `number.slice(-4)`
abbrev pub last_four : List ℕ → List ℕ
last_four ds = drop (length ds - 4) ds

abbrev pub to_card : Option ℕ → Db → Card → Account → CardView
to_card today db c a = record {
  id = c.id;
  user_id = c.user_id;
  account_id = c.account_id;
  account_name = a.name;
  account_number = a.number;
  last4 = last_four c.number;
  expires = c.expires;
  status = c.status;
  frozen_by = c.frozen_by;
  limit_cents = c.limit_cents;
  spent_today_cents = elim today [ none ↦ 0 | some day ↦ spent_on c.id day db.card_charges ];
}

-- The inner join with the accounts.
abbrev pub join_account : Option ℕ → Db → Card → Option CardView
join_account today db c = elim (first (λ (a : Account). a.id == c.account_id) db.accounts) [
  | none ↦ none
  | some a ↦ some (to_card today db c a)
]

abbrev pub join_accounts : Option ℕ → Db → List Card → List CardView
join_accounts today db [] = []
join_accounts today db (c ∷ cs) = elim (join_account today db c) [
  | none ↦ join_accounts today db cs
  | some v ↦ v ∷ join_accounts today db cs
]

abbrev pub join_first : Option ℕ → Db → Option Card → Option CardView
join_first today db none = none
join_first today db (some c) = join_account today db c

-- A customer's cards, oldest first.
unfoldable pub list_cards : ℕ → Option ℕ → Db → List CardView
unfolding spent_on
list_cards user_id today db =
    join_accounts today db (reverse (keep (λ (c : Card). c.user_id == user_id) db.cards))

unfoldable pub find_own_card : ℕ → ℕ → Option ℕ → Db → Option CardView
unfolding spent_on
find_own_card user_id id today db =
    join_first today db (first (λ (c : Card). c.user_id == user_id && c.id == id) db.cards)

unfoldable pub find_card : ℕ → Option ℕ → Db → Option CardView
unfolding spent_on
find_card id today db = join_first today db (first (λ (c : Card). c.id == id) db.cards)

-- The printed number, the expiry and the CVV.
unfoldable pub card_details : ℕ → Db → Option (String × String × String)
unfolding format_number
card_details id db = elim (first (λ (c : Card). c.id == id) db.cards) [
  | none ↦ none
  | some c ↦ some (format_number c.number, c.expires, c.cvv)
]

-- `REASONS`
abbrev pub reason_text : Reason → String
reason_text Reason.frozen = "The card is frozen."
reason_text Reason.over_limit = "This would take today's spending past the card's daily limit."
reason_text Reason.insufficient_funds = "The account did not hold enough."

unfoldable pub find_charge : ℕ → Db → Option CardCharge
find_charge id db = first (λ (c : CardCharge). c.id == id) db.card_charges

-- A card's latest charges, newest first.
unfoldable pub list_charges : ℕ → ℕ → Db → List CardCharge
list_charges card_id limit db =
    take limit (keep (λ (c : CardCharge). c.card_id == card_id) db.card_charges)
