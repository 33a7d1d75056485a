-- ===== src/Exchange/Listing.antt =====
-- The lists of orders and alerts (bank/exchange.js: `listOrders`, `listAlerts`). The tables are kept
-- newest first.
use agents_playground.Prelude.{
  ℕ, String, text_eq, Bool, true, not, Option, none, some, List, [], ◌∷◌, ◌++◌, ◌==◌, ◌&&◌, keep,
}
use agents_playground.Db.{Order, Alert, Db}
use agents_playground.Exchange.Orders.{OrderView, join_order, is_open, is_armed}

-- `$2::text IS NULL OR symbol = $2`
abbrev is_any_or : Option String → String → Bool
is_any_or none symbol = true
is_any_or (some wanted) symbol = text_eq symbol wanted

abbrev joined_orders : Db → List Order → List OrderView
joined_orders db [] = []
joined_orders db (o ∷ os) = elim (join_order db o) [
  | none ↦ joined_orders db os
  | some v ↦ v ∷ joined_orders db os
]

-- Open ones first.
unfoldable pub list_orders : ℕ → Option String → Db → List OrderView
list_orders user_id symbol db =
    let own = keep (λ o. o.user_id == user_id && is_any_or symbol o.symbol) db.orders in
    joined_orders db (keep is_open own ++ keep (λ o. not (is_open o)) own)

-- Armed ones first.
unfoldable pub list_alerts : ℕ → Option String → Db → List Alert
list_alerts user_id symbol db =
    let own = keep (λ a. a.user_id == user_id && is_any_or symbol a.symbol) db.alerts in
    keep is_armed own ++ keep (λ a. not (is_armed a)) own
