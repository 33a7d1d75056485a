-- ===== src/Trading/Holdings.antt =====
-- The rows of `bank_holdings`, and the statements of bank/trading.js and bank/wallet.js on them.
use agents_playground.Prelude.{
  ℕ, ◌+◌, ◌-◌, String, text_eq, Bool, Option, none, some, List, ◌∷◌, ◌==◌, ◌&&◌, first, keep, ltb,
  leb, update_where,
}
use agents_playground.Db.{Holding, Db, Action, execute, random_uuid, ◌>>=◌}

-- `WHERE user_id = $1 AND symbol = $2`
abbrev pub is_of : ℕ → String → Holding → Bool
is_of user_id symbol h = h.user_id == user_id && text_eq h.symbol symbol

-- The customer's holding of one coin, if any.
unfoldable pub find_holding : ℕ → String → Db → Option Holding
find_holding user_id symbol db = first (is_of user_id symbol) db.holdings

-- Every coin the customer holds some of. The table is kept by symbol.
unfoldable pub list_holdings : ℕ → Db → List Holding
list_holdings user_id db = keep (λ h. h.user_id == user_id && ltb 0 h.quantity_atoms) db.holdings

abbrev pub add_coin : ℕ → ℕ → Holding → Holding
add_coin atoms cost h = record h {
  quantity_atoms = h.quantity_atoms + atoms;
  cost_cents = h.cost_cents + cost;
}

abbrev pub take_coin : ℕ → ℕ → Holding → Holding
take_coin atoms cost h = record h {
  quantity_atoms = h.quantity_atoms - atoms;
  cost_cents = h.cost_cents - cost;
}

abbrev pub update_holdings : ℕ → String → (Holding → Holding) → Action (Unit {0})
update_holdings user_id symbol f =
    execute (λ db. record db { holdings = update_where (is_of user_id symbol) f db.holdings })

-- The CHECKs of `bank_holdings` on a row that atoms and cost leave.
abbrev pub keeps_checks : ℕ → ℕ → Holding → Bool
keeps_checks atoms cost h = leb atoms h.quantity_atoms && leb cost h.cost_cents

abbrev pub new_holding : ℕ → ℕ → String → ℕ → ℕ → Holding
new_holding id user_id symbol atoms cost = record {
  id = id;
  user_id = user_id;
  symbol = symbol;
  quantity_atoms = atoms;
  cost_cents = cost;
}

abbrev pub insert_holding : ℕ → String → ℕ → ℕ → Action (Unit {0})
insert_holding user_id symbol atoms cost = do
  id ← random_uuid
  execute (λ db. record db { holdings = new_holding id user_id symbol atoms cost ∷ db.holdings })

-- Coin arrives: onto the row that was looked up, or in a new one. The row was looked up in the same
-- transaction, so the unique constraint on (user_id, symbol) is met.
unfoldable pub put_coin : ℕ → String → ℕ → ℕ → Option Holding → Action (Unit {0})
put_coin user_id symbol atoms cost none = insert_holding user_id symbol atoms cost
put_coin user_id symbol atoms cost (some h) = update_holdings user_id symbol (add_coin atoms cost)
