-- ===== src/Exchange/Filling.antt =====
-- Filling one order the way a trade by hand is made, and firing one alert (bank/exchange.js,
-- `fillOrder` and `fireAlert`).
use agents_playground.Prelude.{
  ℕ, pos, ◌-ℤ◌, String, join, codes, Bool, true, false, Option, none, some, ◌==◌, if◌then◌else◌,
}
use agents_playground.Db.{
  Side, Order, OrderStatus, FailReason, Alert, AlertDirection, AlertStatus, NoteKind, Link, Error,
  Action, pure, throw, ◌>>=◌, ◌>>◌,
}
use agents_playground.Notify.{notify, Note}
use agents_playground.Money.{catch}
use agents_playground.Trading.{
  Market, QuoteRequest, QuoteView, quote_trade, Fill, Receipt, fill_quote, is_buy, shown,
}
use agents_playground.Exchange.Orders.{is_open_order, is_armed_alert, update_orders, update_alerts}

-- Who sweeps, at what time, and how a price is written (`formatPrice`).
pub record Sweeper : Type 0 where
  pub user_id : ℕ
  pub user_key : ℕ
  pub at_ms : ℕ
  pub inverted : Bool
  pub price_text : ℕ → String

abbrev pub claimed_order : ℕ → ℕ → Order → Order
claimed_order price now o = record o {
  status = OrderStatus.filled;
  filled_at = some now;
  fill_price_micros = some price;
}

-- If another request got here first, nothing is claimed.
unfoldable pub claim_order : Sweeper → Order → ℕ → Action (Option Order)
claim_order s o price db =
    update_orders (is_open_order s.user_id o.id) (claimed_order price db.now) db

abbrev pub set_orders : ℕ → (Order → Order) → Action (Unit {0})
set_orders id f = update_orders (λ o. o.id == id) f >> pure tt

abbrev pub linked_order : ℕ → ℕ → Order → Order
linked_order trade_id price o = record o {
  trade_id = some trade_id;
  fill_price_micros = some price;
}

abbrev pub reopened_order : Order → Order
reopened_order o = record o {
  status = OrderStatus.opened;
  filled_at = none;
  fill_price_micros = none;
}

abbrev pub failed_order : FailReason → Order → Order
failed_order reason o = record o {
  status = OrderStatus.failed;
  fail_reason = some reason;
  trade_id = none;
}

abbrev pub filled_note : Sweeper → Order → QuoteView → Receipt → Note
filled_note s o q x = record {
  user_id = s.user_id;
  kind = NoteKind.order_filled;
  title =
      join (if is_buy o.side then "Order filled: bought " else "Order filled: sold ")
        (join (shown x.quantity) (join " " o.symbol));
  body = join "At " (
      join (s.price_text q.price_micros)
        (join ", your limit was " (join (s.price_text o.limit_micros) ".")));
  link = Link.page "/portfolio";
  amount_cents = some (if is_buy o.side then pos 0 -ℤ pos x.net_cents else pos x.net_cents);
}

abbrev pub quote_request : Sweeper → Order → QuoteRequest
quote_request s o = record {
  user_id = s.user_id;
  user_key = s.user_key;
  symbol = codes o.symbol;
  side = o.side;
  asked = o.asked;
  at_ms = s.at_ms;
  fee_hidden = false;
}

abbrev pub fill_of : Sweeper → Order → QuoteView → Fill
fill_of s o q = record {
  user_id = s.user_id;
  quote_id = some q.id;
  account_id = o.account_id;
  late_ok = false;
  at_ms = s.at_ms;
}

-- The trade is linked, the price it filled at kept, and the customer told.
unfoldable pub close_order : Sweeper → Order → QuoteView → Receipt → Action Bool
unfolding notify
close_order s o q x = do
  set_orders o.id (linked_order x.id q.price_micros)
  notify (filled_note s o q x)
  pure true

unfoldable pub fill_quoted : Market → Sweeper → Order → QuoteView → Action Bool
unfolding close_order fill_quote
fill_quoted m s o q = do x ← fill_quote m (fill_of s o q); close_order s o q x

unfoldable pub place_order : Market → Sweeper → Order → Action Bool
unfolding quote_trade fill_quoted
place_order m s o = do q ← quote_trade m (quote_request s o); fill_quoted m s o q

-- A trading outcome has a reason; other errors have none.
abbrev pub fail_reason : Side → Error → Option FailReason
fail_reason Side.buy Error.not_enough_coin = some FailReason.not_enough_money
fail_reason Side.sell Error.not_enough_coin = some FailReason.not_enough_coin
fail_reason side Error.quote_not_found = some FailReason.too_small
fail_reason side e = none

-- `FAIL_REASONS`
abbrev pub fail_reasons : FailReason → String
fail_reasons FailReason.not_enough_money =
    "The account did not hold enough when the price was reached."
fail_reasons FailReason.not_enough_coin =
    "You no longer held enough coin when the price was reached."
fail_reasons FailReason.too_small = "At that price the order would have bought or sold nothing."

abbrev pub failed_note : Sweeper → Order → FailReason → Note
failed_note s o reason = record {
  user_id = s.user_id;
  kind = NoteKind.order_failed;
  title =
      join (if is_buy o.side then "Order not filled: buy " else "Order not filled: sell ")
        (join o.symbol (join " at " (s.price_text o.limit_micros)));
  body = fail_reasons reason;
  link = Link.page (join "/markets/" o.symbol);
  amount_cents = none;
}

-- Not a trading outcome: the order is put back, and the error surfaces.
unfoldable pub fail_order : Sweeper → Order → Error → Option FailReason → Action Bool
unfolding notify
fail_order s o e none = do set_orders o.id reopened_order; throw e
fail_order s o e (some reason) = do
  set_orders o.id (failed_order reason)
  notify (failed_note s o reason)
  pure false

abbrev pub fill_if_claimed : Market → Sweeper → Order → Option Order → Action Bool
fill_if_claimed m s o none = pure false
fill_if_claimed m s o (some c) =
    catch (place_order m s o) (λ e. fail_order s o e (fail_reason o.side e))

-- Whether the order filled.
unfoldable pub fill_order : Market → Sweeper → Order → ℕ → Action Bool
unfolding claim_order place_order fail_order
fill_order m s o price = do c ← claim_order s o price; fill_if_claimed m s o c

abbrev pub fired_alert : ℕ → ℕ → Alert → Alert
fired_alert price now a = record a {
  status = AlertStatus.fired;
  fired_at = some now;
  fired_micros = some price;
}

abbrev direction_text : AlertDirection → String
direction_text AlertDirection.above = " is above "
direction_text AlertDirection.below = " is below "

abbrev pub alert_note : Sweeper → Alert → ℕ → Note
alert_note s a price = record {
  user_id = s.user_id;
  kind = NoteKind.price_alert;
  title = join a.symbol (join (direction_text a.direction) (s.price_text a.limit_micros));
  body = join "Your price is now " (join (s.price_text price) ".");
  link = Link.page (join "/markets/" a.symbol);
  amount_cents = none;
}

abbrev pub tell_if_fired : Sweeper → Alert → ℕ → Option Alert → Action Bool
tell_if_fired s a price none = pure false
tell_if_fired s a price (some _) = notify (alert_note s a price) >> pure true

unfoldable pub fire_alert : Sweeper → Alert → ℕ → Action Bool
unfolding notify
fire_alert s a price = do
  c ← λ db. update_alerts (is_armed_alert s.user_id a.id) (fired_alert price db.now) db
  tell_if_fired s a price c
