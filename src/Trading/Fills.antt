-- ===== src/Trading/Fills.antt =====
-- `fillQuote` from the moved money to the receipt, and as a whole (bank/trading.js).
use agents_playground.Prelude.{
  ℕ, ℤ, Bool, pos, ◌-ℤ◌, String, not, Option, none, some, ◌∷◌, ◌==◌, ◌&&◌, ltb, first,
  if◌then◌else◌, Chars,
}
use agents_playground.Db.{
  Account, Quote, Side, Error, Action, pure, throw, row_or, throw_if, select, execute, transaction,
  random_uuid, ◌>>=◌, ◌>>◌,
}
use agents_playground.Notify.{notify}
use agents_playground.Money.{insert_transaction, has_id}
use agents_playground.Trading.Rates.{Market}
use agents_playground.Trading.Holdings.{find_holding}
use agents_playground.Trading.Amounts.{format_atoms}
use agents_playground.Trading.Filling.{
  Fill, Moved, claim_quote, trade_sides, trade_entry, trade_row, trade_note, is_buy,
}

-- The receipt.
pub record Receipt : Type 0 where
  pub id : ℕ
  pub symbol : String
  pub side : Side
  pub quantity_atoms : ℕ
  pub quantity : Chars
  pub account_number : String
  pub price_micros : ℕ
  pub gross_cents : ℕ
  pub fee_cents : ℕ
  pub net_cents : ℕ
  pub realised_cents : ℤ
  pub balance_after_cents : ℤ

abbrev pub to_receipt : Quote → Account → Moved → ℕ → Receipt
to_receipt q account (balance, cost) id = record {
  id = id;
  symbol = q.symbol;
  side = q.side;
  quantity_atoms = q.filled_atoms;
  quantity = format_atoms q.filled_atoms;
  account_number = account.number;
  price_micros = q.price_micros;
  gross_cents = q.gross_cents;
  fee_cents = q.fee_cents;
  net_cents = q.net_cents;
  realised_cents = if is_buy q.side then pos 0 else pos q.net_cents -ℤ pos cost;
  balance_after_cents = balance;
}

-- The history row, the trade row, the notification and the receipt.
unfoldable pub record_trade : Fill → Quote → Account → Moved → Action Receipt
unfolding insert_transaction notify
record_trade r q account moved = do
  transaction_id ← insert_transaction (trade_entry r q moved.0)
  id ← random_uuid
  execute (λ db. record db { trades = trade_row r q moved.1 transaction_id id db.now ∷ db.trades })
  notify (trade_note r q account)
  pure (to_receipt q account moved id)

-- The account must be the customer's own.
abbrev pub is_own : Fill → Account → Bool
is_own r a = has_id r.account_id a && a.user_id == r.user_id

abbrev pub own_account : Fill → Action Account
own_account r db = row_or Error.quote_not_found (first (is_own r) db.accounts) db

abbrev pub is_late : Fill → Quote → Bool
is_late r q = not r.late_ok && ltb q.expires_at r.at_ms

unfoldable pub fill_from : Market → Fill → Quote → Account → Action Receipt
unfolding find_holding trade_sides record_trade
fill_from m r q account = do
  holding ← select (find_holding r.user_id q.symbol)
  moved ← trade_sides m r q holding q.side
  record_trade r q account moved

-- What follows the claim.
unfoldable pub fill_claimed : Market → Fill → Quote → Action Receipt
unfolding fill_from
fill_claimed m r q = do
  throw_if (is_late r q) Error.quote_expired
  account ← own_account r
  fill_from m r q account

unfoldable pub fill_work : Market → Fill → ℕ → Action Receipt
unfolding claim_quote fill_claimed
fill_work m r id = do q ← claim_quote r.user_id id; fill_claimed m r q

unfoldable pub fill_by_id : Market → Fill → Option ℕ → Action Receipt
unfolding fill_work
fill_by_id m r none = throw Error.quote_not_found
fill_by_id m r (some id) = transaction (fill_work m r id)

unfoldable pub fill_quote : Market → Fill → Action Receipt
unfolding fill_by_id
fill_quote m r = fill_by_id m r r.quote_id
