-- ===== src/Trading/Quoting.antt =====
-- Pricing a trade and remembering the price: `quoteTrade` (bank/trading.js).
use agents_playground.Prelude.{
  ℕ, ◌+◌, ◌-◌, ◌*◌, Bool, Option, none, some, ◌∷◌, ◌==◌, ◌||◌, leb, ltb, if◌then◌else◌, String,
  Chars,
}
use agents_playground.Db.{
  Coin, Holding, Quote, Side, Error, Action, pure, throw_if, select, execute, random_uuid, ◌>>=◌,
  ◌>>◌,
}
use agents_playground.Coins.{find_coin}
use agents_playground.Trading.Rates.{Market, quote_seconds, fee_basis_points_for, fee_of}
use agents_playground.Trading.Holdings.{find_holding}

-- The arguments of `quoteTrade`: `asked` is the money to spend of a buy, and the coin to sell of a
-- sell. `fee_hidden` is the planted defect `bankFeeHidden`.
pub record QuoteRequest : Type 0 where
  pub user_id : ℕ
  pub user_key : ℕ
  pub symbol : Chars
  pub side : Side
  pub asked : ℕ
  pub at_ms : ℕ
  pub fee_hidden : Bool

-- What the price makes of a request.
pub record QuoteAmounts : Type 0 where
  pub gross_cents : ℕ
  pub fee_cents : ℕ
  pub net_cents : ℕ
  pub filled_atoms : ℕ

-- The fee comes out of the money to spend, and the rest buys coin.
unfoldable pub buy_amounts : Market → ℕ → ℕ → ℕ → QuoteAmounts
buy_amounts m price basis_points spend =
    let fee = fee_of spend basis_points in
    record {
      gross_cents = spend - fee;
      fee_cents = fee;
      net_cents = spend;
      filled_atoms = m.atoms_for_cents (spend - fee) price;
    }

-- The coin is valued, and the fee comes off what arrives. Where the fee were the larger, the source
-- has a negative amount, which it refuses as it refuses 0.
unfoldable pub sell_amounts : Market → ℕ → ℕ → ℕ → QuoteAmounts
sell_amounts m price basis_points atoms =
    let gross = m.cents_for_atoms atoms price in
    let fee = fee_of gross basis_points in
    record { gross_cents = gross; fee_cents = fee; net_cents = gross - fee; filled_atoms = atoms }

-- `!holding || holding.quantityAtoms < atoms`
abbrev pub lacks : ℕ → Option Holding → Bool
lacks atoms none = Bool.true
lacks atoms (some h) = ltb h.quantity_atoms atoms

unfoldable pub priced : Market → QuoteRequest → Coin → ℕ → ℕ → Side → Action QuoteAmounts
unfolding buy_amounts sell_amounts find_holding
priced m r coin price basis_points Side.buy = do
  throw_if (leb (buy_amounts m price basis_points r.asked).filled_atoms 0) Error.quote_not_found
  pure (buy_amounts m price basis_points r.asked)
priced m r coin price basis_points Side.sell = do
  throw_if (lacks r.asked (← select (find_holding r.user_id coin.symbol))) Error.not_enough_coin
  throw_if (leb (sell_amounts m price basis_points r.asked).net_cents 0) Error.quote_not_found
  pure (sell_amounts m price basis_points r.asked)

abbrev pub quote_row : QuoteRequest → Coin → ℕ → QuoteAmounts → ℕ → Quote
quote_row r coin price a id = record {
  id = id;
  user_id = r.user_id;
  symbol = coin.symbol;
  side = r.side;
  asked = r.asked;
  price_micros = price;
  gross_cents = a.gross_cents;
  fee_cents = a.fee_cents;
  net_cents = a.net_cents;
  filled_atoms = a.filled_atoms;
  expires_at = r.at_ms + quote_seconds * 1000;
  used_at = none;
}

-- The CHECKs of `bank_trade_quotes`.
unfoldable pub insert_quote : Quote → Action (Unit {0})
insert_quote q = do
  throw_if (q.filled_atoms == 0 || q.price_micros == 0) Error.check_violation
  execute (λ db. record db { quotes = q ∷ db.quotes })

-- What the customer is shown.
pub record QuoteView : Type 0 where
  pub id : ℕ
  pub symbol : String
  pub name : String
  pub side : Side
  pub price_micros : ℕ
  pub gross_cents : ℕ
  pub fee_cents : ℕ
  pub fee_basis_points : ℕ
  pub net_cents : ℕ
  pub filled_atoms : ℕ
  pub expires_at : ℕ
  pub expires_in_seconds : ℕ

abbrev pub to_quote_view : Bool → Quote → Coin → ℕ → QuoteView
to_quote_view fee_hidden q coin basis_points = record {
  id = q.id;
  symbol = coin.symbol;
  name = coin.name;
  side = q.side;
  price_micros = q.price_micros;
  gross_cents = q.gross_cents;
  fee_cents = q.fee_cents;
  fee_basis_points = basis_points;
  net_cents = if fee_hidden then q.gross_cents else q.net_cents;
  filled_atoms = q.filled_atoms;
  expires_at = q.expires_at;
  expires_in_seconds = quote_seconds;
}

-- Saved with its expiry.
unfoldable pub save_quote : QuoteRequest → Coin → ℕ → ℕ → QuoteAmounts → Action QuoteView
unfolding insert_quote
save_quote r coin price basis_points a = do
  id ← random_uuid
  insert_quote (quote_row r coin price a id)
  pure (to_quote_view r.fee_hidden (quote_row r coin price a id) coin basis_points)

unfoldable pub quote_at : Market → QuoteRequest → Coin → ℕ → ℕ → Action QuoteView
unfolding priced save_quote
quote_at m r coin price basis_points = do
  a ← priced m r coin price basis_points r.side
  save_quote r coin price basis_points a

-- At the customer's price now, with their own trades' push, and their fee.
unfoldable pub quote_coin : Market → QuoteRequest → Coin → Action QuoteView
unfolding fee_basis_points_for quote_at
quote_coin m r coin db =
    quote_at m r coin (m.price r.user_key coin r.at_ms db.trades)
      (fee_basis_points_for m r.user_id db) db

unfoldable pub quote_trade : Market → QuoteRequest → Action QuoteView
unfolding find_coin quote_coin
quote_trade m r = do coin ← find_coin r.symbol; quote_coin m r coin
