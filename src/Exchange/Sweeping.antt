-- ===== src/Exchange/Sweeping.antt =====
-- The sweep over a customer's open orders and armed alerts (bank/exchange.js, `sweep`).
use agents_playground.Prelude.{
  ℕ, ◌+◌, Chars, codes, Bool, true, false, none, some, List, [], ◌∷◌, ◌==◌, ◌&&◌, leb, keep, take,
  reverse_onto, if◌then◌else◌,
}
use agents_playground.Db.{Order, Trade, Alert, AlertDirection, Db, Action, pure, select, ◌>>=◌}
use agents_playground.Coins.{find_coin}
use agents_playground.Trading.{Market}
use agents_playground.Exchange.Orders.{crosses, is_open, is_armed, join_order}
use agents_playground.Exchange.Filling.{Sweeper, fill_order, fire_alert}

-- `MAX_FILLS_PER_SWEEP`
abbrev pub max_fills_per_sweep : ℕ
max_fills_per_sweep = 50

abbrev is_joined : Db → Order → Bool
is_joined db o = elim (join_order db o) [ none ↦ false | some _ ↦ true ]

-- Oldest first, at most 50.
unfoldable pub open_orders : ℕ → Db → List Order
open_orders user_id db =
    take max_fills_per_sweep
      (reverse_onto (keep (λ o. o.user_id == user_id && is_open o && is_joined db o) db.orders) [])

unfoldable pub armed_alerts : ℕ → Db → List Alert
armed_alerts user_id db = reverse_onto (keep (λ a. a.user_id == user_id && is_armed a) db.alerts) []

-- The price at the push of the trades that the sweep read when it began.
unfoldable pub price_of : Market → Sweeper → List Trade → Chars → Action ℕ
unfolding find_coin
price_of m s trades symbol = do
  coin ← find_coin symbol
  pure (m.price s.user_key coin s.at_ms trades)

abbrev pub to_count : Bool → ℕ
to_count true = 1
to_count false = 0

unfoldable pub fill_if_crossed : Market → Sweeper → Order → ℕ → Action Bool
unfolding crosses fill_order
fill_if_crossed m s o price =
    if crosses o.side price o.limit_micros s.inverted then fill_order m s o price else pure false

unfoldable pub try_order : Market → Sweeper → List Trade → Order → Action ℕ
unfolding price_of fill_if_crossed
try_order m s trades o = do
  price ← price_of m s trades (codes o.symbol)
  filled ← fill_if_crossed m s o price
  pure (to_count filled)

abbrev pub reached : AlertDirection → ℕ → ℕ → Bool
reached AlertDirection.above price limit = leb limit price
reached AlertDirection.below price limit = leb price limit

unfoldable pub fire_if_reached : Sweeper → Alert → ℕ → Action Bool
unfolding fire_alert
fire_if_reached s a price =
    if reached a.direction price a.limit_micros then fire_alert s a price else pure false

unfoldable pub try_alert : Market → Sweeper → List Trade → Alert → Action ℕ
unfolding price_of fire_if_reached
try_alert m s trades a = do
  price ← price_of m s trades (codes a.symbol)
  fired ← fire_if_reached s a price
  pure (to_count fired)

-- One after another, counting the successes.
abbrev pub count_each : {A : Type 0} → (A → Action ℕ) → List A → Action ℕ
count_each f [] = pure 0
count_each f (x ∷ xs) = do n ← f x; more ← count_each f xs; pure (n + more)

-- How many orders filled and how many alerts fired. With nothing open the loops have nothing to do,
-- and nothing else is read.
unfoldable pub sweep : Market → Sweeper → Action (ℕ × ℕ)
unfolding open_orders armed_alerts try_order try_alert
sweep m s = do
  orders ← select (open_orders s.user_id)
  alerts ← select (armed_alerts s.user_id)
  trades ← select (λ db. db.trades)
  filled ← count_each (try_order m s trades) orders
  fired ← count_each (try_alert m s trades) alerts
  pure (filled, fired)
