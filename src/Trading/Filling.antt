-- ===== src/Trading/Filling.antt =====
-- Acting on a quote: `fillQuote` (bank/trading.js). Money and coin move in one transaction.
use agents_playground.Prelude.{
  ℕ, ℤ, pos, ◌-ℤ◌, join, Bool, not, Option, none, some, ◌==◌, ◌&&◌, ltb, first, if◌then◌else◌,
  update_where,
}
use agents_playground.Db.{
  Account, EntryKind, Holding, Quote, Side, Trade, NoteKind, Link, Error, Action, ok, pure, throw,
  throw_if, select, row_or_throw, row_or, ◌>>=◌, ◌>>◌,
}
use agents_playground.Notify.{Note}
use agents_playground.Money.{EntryData, credit, debit}
use agents_playground.Trading.Rates.{Market}
use agents_playground.Trading.Holdings.{put_coin, take_coin, update_holdings, keeps_checks}
use agents_playground.Trading.Amounts.{format_atoms, shown}
use mathlib.Core.Option

-- The arguments of `fillQuote`. A quote id that is no UUID is `none`; `late_ok` is the planted
-- defect `bankQuoteExpired`.
pub record Fill : Type 0 where
  pub user_id : ℕ
  pub quote_id : Option ℕ
  pub account_id : ℕ
  pub late_ok : Bool
  pub at_ms : ℕ

-- `WHERE id = $1 AND user_id = $2`
abbrev pub is_quote : ℕ → ℕ → Quote → Bool
is_quote user_id id q = q.id == id && q.user_id == user_id

abbrev pub is_unused : Quote → Bool
is_unused q = elim q.used_at [ none ↦ Bool.true | some _ ↦ Bool.false ]

abbrev pub is_claimable : ℕ → ℕ → Quote → Bool
is_claimable user_id id q = is_quote user_id id q && is_unused q

abbrev pub stamp_used : ℕ → Quote → Quote
stamp_used now q = record q { used_at = some now }

-- Why a claim found nothing.
abbrev pub lost_claim : Option Quote → Error
lost_claim none = Error.quote_not_found
lost_claim (some q) = Error.quote_used

abbrev pub claimed_or_throw : Option Quote → Option Quote → Action Quote
claimed_or_throw none exists = throw (lost_claim exists)
claimed_or_throw (some q) exists = pure q

-- The quote is claimed in one statement, not read and then checked.
unfoldable pub claim_quote : ℕ → ℕ → Action Quote
claim_quote user_id id = do
  claimed ← λ db. (
    ok (Option.map (stamp_used db.now) (first (is_claimable user_id id) db.quotes)),
    record db { quotes = update_where (is_claimable user_id id) (stamp_used db.now) db.quotes },
  )
  exists ← select (λ db. first (is_quote user_id id) db.quotes)
  claimed_or_throw claimed exists

-- The balance afterwards, and the cost that leaves with coin sold.
abbrev pub Moved : Type 0
Moved = ℤ × ℕ

-- The fee is part of the cost: it is money spent to hold this coin.
unfoldable pub buy_coin : Fill → Quote → Option Holding → Action Moved
unfolding debit put_coin
buy_coin r q holding = do
  row ← row_or Error.not_enough_coin (← debit r.account_id q.net_cents)
  put_coin r.user_id q.symbol q.filled_atoms q.net_cents holding
  pure (row.balance_cents, 0)

-- The same share of the cost leaves with the coin.
unfoldable pub sell_coin : Market → Fill → Quote → Option Holding → Action Moved
unfolding credit
sell_coin m r q none = throw Error.not_enough_coin
sell_coin m r q (some h) = do
  throw_if (ltb h.quantity_atoms q.filled_atoms) Error.not_enough_coin
  let cost = m.share h.cost_cents q.filled_atoms h.quantity_atoms
  throw_if (not (keeps_checks q.filled_atoms cost h)) Error.check_violation
  update_holdings r.user_id q.symbol (take_coin q.filled_atoms cost)
  moved ← credit r.account_id q.net_cents
  row ← row_or_throw moved
  pure (row.balance_cents, cost)

unfoldable pub trade_sides : Market → Fill → Quote → Option Holding → Side → Action Moved
unfolding buy_coin sell_coin
trade_sides m r q holding Side.buy = buy_coin r q holding
trade_sides m r q holding Side.sell = sell_coin m r q holding

abbrev pub is_buy : Side → Bool
is_buy Side.buy = Bool.true
is_buy Side.sell = Bool.false

-- What the history and the notification tell: money leaves by a buy and arrives by a sell.
abbrev pub signed_net : Quote → ℤ
signed_net q = if is_buy q.side then pos 0 -ℤ pos q.net_cents else pos q.net_cents

abbrev pub trade_entry : Fill → Quote → ℤ → EntryData
trade_entry r q balance = record {
  account_id = r.account_id;
  kind = if is_buy q.side then EntryKind.crypto_buy else EntryKind.crypto_sell;
  amount_cents = signed_net q;
  balance_after_cents = balance;
  description = join (if is_buy q.side then "Bought " else "Sold ") q.symbol;
  memo = "";
  counterparty = q.symbol;
  transfer_id = none;
  created_at = none;
}

abbrev pub trade_row : Fill → Quote → ℕ → ℕ → ℕ → ℕ → Trade
trade_row r q cost transaction_id id now = record {
  id = id;
  user_id = r.user_id;
  symbol = q.symbol;
  account_id = r.account_id;
  side = q.side;
  quantity_atoms = q.filled_atoms;
  price_micros = q.price_micros;
  gross_cents = q.gross_cents;
  fee_cents = q.fee_cents;
  net_cents = q.net_cents;
  cost_cents = cost;
  quote_id = q.id;
  transaction_id = transaction_id;
  created_at = now;
}

abbrev pub trade_note : Fill → Quote → Account → Note
trade_note r q account = record {
  user_id = r.user_id;
  kind = NoteKind.money_received;
  title =
      join (if is_buy q.side then "Bought " else "Sold ")
        (join (shown (format_atoms q.filled_atoms)) (join " " q.symbol));
  body = join (if is_buy q.side then "Paid from " else "Paid into ") (join account.number ".");
  link = Link.page "/app/portfolio";
  amount_cents = some (signed_net q);
}
