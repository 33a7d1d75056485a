-- ===== src/Wallet/Swapping.antt =====
-- Swapping one coin for another: `swap`, `previewSwap` (bank/wallet.js).
use agents_playground.Prelude.{ℕ, ◌-◌, text_eq, Chars, chars_eq, upper, Bool, ◌∷◌, ◌==◌, ◌||◌, leb}
use agents_playground.Db.{
  Coin, Swap, Db, Error, Action, pure, throw_if, select, execute, transaction, random_uuid, ◌>>=◌,
  ◌>>◌,
}
use agents_playground.Coins.{find_coin}
use agents_playground.Trading.{Market, find_holding, put_coin, fee_basis_points_for, fee_of}
use agents_playground.Wallet.Sending.{take_share}

-- The arguments of `swap`.
pub record SwapRequest : Type 0 where
  pub user_id : ℕ
  pub user_key : ℕ
  pub from_symbol : Chars
  pub to_symbol : Chars
  pub quantity_atoms : ℕ
  pub at_ms : ℕ

-- What a swap's prices make of it.
pub record SwapTerms : Type 0 where
  pub from : Coin
  pub to : Coin
  pub from_price : ℕ
  pub to_price : ℕ
  pub value_cents : ℕ
  pub fee_basis_points : ℕ
  pub fee_cents : ℕ
  pub to_atoms : ℕ

-- What the coin given is worth, less the fee, buys the new coin.
unfoldable pub swap_terms : Market → SwapRequest → Coin → Coin → Db → SwapTerms
unfolding fee_basis_points_for
swap_terms m r from to db =
    let from_price = m.price r.user_key from r.at_ms db.trades in
    let to_price = m.price r.user_key to r.at_ms db.trades in
    let value = m.cents_for_atoms r.quantity_atoms from_price in
    let basis_points = fee_basis_points_for m r.user_id db in
    let fee = fee_of value basis_points in
    record {
      from = from;
      to = to;
      from_price = from_price;
      to_price = to_price;
      value_cents = value;
      fee_basis_points = basis_points;
      fee_cents = fee;
      to_atoms = m.atoms_for_cents (value - fee) to_price;
    }

-- The two coins and their terms. The texts are compared untrimmed.
unfoldable pub preview_swap : Market → SwapRequest → Action SwapTerms
unfolding find_coin swap_terms
preview_swap m r = do
  throw_if (chars_eq (upper r.from_symbol) (upper r.to_symbol)) Error.same_coin
  from ← find_coin r.from_symbol
  to ← find_coin r.to_symbol
  select (swap_terms m r from to)

abbrev pub swap_row : SwapRequest → SwapTerms → ℕ → ℕ → Swap
swap_row r t cost id = record {
  id = id;
  user_id = r.user_id;
  from_symbol = t.from.symbol;
  to_symbol = t.to.symbol;
  from_atoms = r.quantity_atoms;
  to_atoms = t.to_atoms;
  from_price_micros = t.from_price;
  to_price_micros = t.to_price;
  value_cents = t.value_cents;
  fee_cents = t.fee_cents;
  cost_cents = cost;
}

-- The CHECKs of `bank_swaps`.
abbrev pub breaks_checks : SwapRequest → SwapTerms → Bool
breaks_checks r t =
    text_eq t.from.symbol t.to.symbol
    || r.quantity_atoms == 0
    || t.to_atoms == 0
    || t.from_price == 0
    || t.to_price == 0

unfoldable pub record_swap : SwapRequest → SwapTerms → ℕ → Action Swap
record_swap r t cost = do
  id ← random_uuid
  throw_if (breaks_checks r t) Error.check_violation
  execute (λ db. record db { swaps = swap_row r t cost id ∷ db.swaps })
  pure (swap_row r t cost id)

-- The cost follows the customer across.
unfoldable pub put_and_record : SwapRequest → SwapTerms → ℕ → Action Swap
unfolding find_holding put_coin record_swap
put_and_record r t cost = do
  target ← select (find_holding r.user_id t.to.symbol)
  put_coin r.user_id t.to.symbol t.to_atoms cost target
  record_swap r t cost

unfoldable pub swap_work : Market → SwapRequest → SwapTerms → Action Swap
unfolding find_holding take_share put_and_record
swap_work m r t = do
  holding ← select (find_holding r.user_id t.from.symbol)
  cost ← take_share m r.user_id t.from.symbol r.quantity_atoms holding
  put_and_record r t cost

unfoldable pub swap_on : Market → SwapRequest → SwapTerms → Action Swap
unfolding swap_work
swap_on m r t = throw_if (leb t.to_atoms 0) Error.not_enough_coin >> transaction (swap_work m r t)

-- `swap` computes the same terms as the preview first.
unfoldable pub swap : Market → SwapRequest → Action Swap
unfolding preview_swap swap_on
swap m r = do t ← preview_swap m r; swap_on m r t
