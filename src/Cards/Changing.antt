-- ===== src/Cards/Changing.antt =====
-- Making and changing a card (bank/cards.js, `createCard`, `updateCard`).
use agents_playground.Prelude.{
  ℕ, ℤ, pos, negsuc, String, Bool, true, false, List, [], ◌∷◌, Option, none, some, ◌==◌, ◌||◌, ◌&&◌,
  first, update_where,
}
use agents_playground.Db.{
  Card, CardStatus, FrozenBy, Account, Error, Action, ok, err, pure, throw, select, execute,
  random_uuid, throw_if, ◌>>=◌, ◌>>◌,
}
use agents_playground.Cards.Numbers.{new_card_number, new_cvv, expiry_from, default_limit}
use agents_playground.Cards.Reading.{CardView, find_card}

abbrev pub same_digits : List ℕ → List ℕ → Bool
same_digits [] [] = true
same_digits (a ∷ as') (b ∷ bs) = a == b && same_digits as' bs
same_digits as' bs = false

-- The unique constraints on the account and on the number.
abbrev pub clashes : ℕ → List ℕ → Card → Bool
clashes account_id number c = c.account_id == account_id || same_digits c.number number

abbrev pub card_taken : ℕ → List ℕ → List Card → Bool
card_taken account_id number cs = elim (first (clashes account_id number) cs) [
  | none ↦ false
  | some _ ↦ true
]

-- `CHECK (limit_cents >= 0)`
abbrev pub checked_limit : ℤ → Action ℕ
checked_limit (pos n) = pure n
checked_limit (negsuc n) = throw Error.check_violation

abbrev pub card_row : ℕ → ℕ → Account → List ℕ → String → String → ℕ → Card
card_row id user_id account number expires cvv limit = record {
  id = id;
  user_id = user_id;
  account_id = account.id;
  number = number;
  expires = expires;
  cvv = cvv;
  status = CardStatus.active;
  frozen_by = none;
  limit_cents = limit;
}

abbrev pub insert_card : ℕ → Account → String → Action ℕ
insert_card user_id account expires = do
  id ← random_uuid
  number ← new_card_number
  cvv ← new_cvv
  limit ← checked_limit (default_limit account.balance_cents)
  throw_if (← select (λ db. card_taken account.id number db.cards)) Error.unique_violation
  execute
      (λ db. record db { cards = card_row id user_id account number expires cvv limit ∷ db.cards })
  pure id

-- 23505 is read as: the account has a card.
abbrev pub card_error : Error → Error
card_error Error.unique_violation = Error.card_exists
card_error e = e

abbrev pub rename_error : Action ℕ → Action ℕ
rename_error m db =
    let (r, d) = m db in elim r [ ok id ↦ (ok id, d) | err e ↦ (err (card_error e), d) ]

-- The account's card, with a new number, expiry, CVV and default limit; the present year and month
-- index come with the call.
unfoldable pub create_card : ℕ → Account → ℕ → ℕ → Action ℕ
unfolding new_card_number new_cvv expiry_from default_limit
create_card user_id account year month =
    rename_error (insert_card user_id account (expiry_from year month))

-- What is to change; an absent field stays.
pub record Change : Type 0 where
  pub new_status : Option CardStatus
  pub who : Option FrozenBy
  pub new_limit_cents : Option ℕ

abbrev pub changed : Change → Card → Card
changed u c = record c {
  status = elim u.new_status [ none ↦ c.status | some s ↦ s ];
  frozen_by = elim u.new_status [ none ↦ c.frozen_by | some _ ↦ u.who ];
  limit_cents = elim u.new_limit_cents [ none ↦ c.limit_cents | some n ↦ n ];
}

unfoldable pub update_card : ℕ → Change → Option ℕ → Action (Option CardView)
unfolding find_card
update_card id u today = do
  execute (λ db. record db { cards = update_where (λ c. c.id == id) (changed u) db.cards })
  select (find_card id today)
