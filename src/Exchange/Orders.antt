-- ===== src/Exchange/Orders.antt =====
-- Orders and alerts as they are saved and cancelled (bank/exchange.js).
use agents_playground.Prelude.{
  ℕ, String, text_eq, Bool, true, false, Option, none, some, ◌∷◌, ◌==◌, ◌&&◌, leb, first,
  update_where, if◌then◌else◌,
}
use agents_playground.Db.{
  Account, Coin, Side, Order, OrderStatus, Alert, AlertDirection, AlertStatus, Db, Action, ok, pure,
  select, execute, random_uuid, ◌>>=◌, ◌>>◌,
}
use agents_playground.Money.{has_id}
use mathlib.Core.Option

-- A buy fills at or below its limit, a sell at or above it; `inverted` is the planted defect
-- `bankSellLimitInverted`.
unfoldable pub crosses : Side → ℕ → ℕ → Bool → Bool
crosses Side.buy price limit inverted = leb price limit
crosses Side.sell price limit inverted = if inverted then leb price limit else leb limit price

-- An order with its coin's name and its account's number.
pub record OrderView : Type 0 where
  pub order : Order
  pub coin_name : String
  pub account_number : String

abbrev has_symbol : String → Coin → Bool
has_symbol symbol c = text_eq c.symbol symbol

abbrev join_parts : Order → Option Coin → Option Account → Option OrderView
join_parts o none a = none
join_parts o (some c) none = none
join_parts o (some c) (some a) =
    some (record { order = o; coin_name = c.name; account_number = a.number })

-- The JOINs of `ORDER_SELECT`.
abbrev pub join_order : Db → Order → Option OrderView
join_order db o =
    join_parts o (first (has_symbol o.symbol) db.coins) (first (has_id o.account_id) db.accounts)

abbrev joined_or_none : Db → Option Order → Option OrderView
joined_or_none db none = none
joined_or_none db (some o) = join_order db o

abbrev pub is_order_of : ℕ → ℕ → Order → Bool
is_order_of user_id id o = o.user_id == user_id && o.id == id

-- One of the customer's own orders.
unfoldable pub find_order : ℕ → ℕ → Db → Option OrderView
find_order user_id id db = joined_or_none db (first (is_order_of user_id id) db.orders)

-- What `createOrder` is given.
pub record NewOrder : Type 0 where
  pub user_id : ℕ
  pub coin : Coin
  pub account : Account
  pub side : Side
  pub asked : ℕ
  pub limit_micros : ℕ

abbrev pub order_row : NewOrder → ℕ → Order
order_row n id = record {
  id = id;
  user_id = n.user_id;
  symbol = n.coin.symbol;
  account_id = n.account.id;
  side = n.side;
  asked = n.asked;
  limit_micros = n.limit_micros;
  status = OrderStatus.opened;
  fill_price_micros = none;
  trade_id = none;
  fail_reason = none;
  filled_at = none;
}

unfoldable pub create_order : NewOrder → Action (Option OrderView)
unfolding find_order
create_order n = do
  id ← random_uuid
  execute (λ db. record db { orders = order_row n id ∷ db.orders })
  select (find_order n.user_id id)

abbrev pub is_open : Order → Bool
is_open o = elim o.status [ OrderStatus.opened ↦ true | _ ↦ false ]

-- `WHERE id = $1 AND user_id = $2 AND status = 'open'`
abbrev pub is_open_order : ℕ → ℕ → Order → Bool
is_open_order user_id id o = is_order_of user_id id o && is_open o

-- An UPDATE of the orders that pass, and the first of them, if any.
abbrev pub update_orders : (Order → Bool) → (Order → Order) → Action (Option Order)
update_orders p f db =
    (ok (Option.map f (first p db.orders)), record db { orders = update_where p f db.orders })

abbrev cancelled_order : Order → Order
cancelled_order o = record o { status = OrderStatus.cancelled }

abbrev find_if_some : ℕ → ℕ → Option Order → Action (Option OrderView)
find_if_some user_id id none = pure none
find_if_some user_id id (some o) = select (find_order user_id id)

-- Cancels one of the customer's open orders; nothing when there is none.
unfoldable pub cancel_order : ℕ → ℕ → Action (Option OrderView)
unfolding find_order
cancel_order user_id id = do
  o ← update_orders (is_open_order user_id id) cancelled_order
  find_if_some user_id id o

abbrev pub is_alert_of : ℕ → ℕ → Alert → Bool
is_alert_of user_id id a = a.user_id == user_id && a.id == id

abbrev pub is_armed : Alert → Bool
is_armed a = elim a.status [ AlertStatus.armed ↦ true | _ ↦ false ]

abbrev pub is_armed_alert : ℕ → ℕ → Alert → Bool
is_armed_alert user_id id a = is_alert_of user_id id a && is_armed a

abbrev pub alert_row : ℕ → Coin → AlertDirection → ℕ → ℕ → Alert
alert_row user_id coin direction limit id = record {
  id = id;
  user_id = user_id;
  symbol = coin.symbol;
  direction = direction;
  limit_micros = limit;
  status = AlertStatus.armed;
  fired_micros = none;
  fired_at = none;
}

-- One of the customer's own alerts. Its coin is there: the schema's foreign key.
unfoldable pub find_alert : ℕ → ℕ → Db → Option Alert
find_alert user_id id db = first (is_alert_of user_id id) db.alerts

unfoldable pub create_alert : ℕ → Coin → AlertDirection → ℕ → Action (Option Alert)
unfolding find_alert
create_alert user_id coin direction limit = do
  id ← random_uuid
  execute (λ db. record db { alerts = alert_row user_id coin direction limit id ∷ db.alerts })
  select (find_alert user_id id)

abbrev pub update_alerts : (Alert → Bool) → (Alert → Alert) → Action (Option Alert)
update_alerts p f db =
    (ok (Option.map f (first p db.alerts)), record db { alerts = update_where p f db.alerts })

-- Cancels one of the customer's armed alerts.
unfoldable pub cancel_alert : ℕ → ℕ → Action (Option Alert)
cancel_alert user_id id =
    update_alerts (is_armed_alert user_id id) (λ a. record a { status = AlertStatus.cancelled })
