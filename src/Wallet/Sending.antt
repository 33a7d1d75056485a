-- ===== src/Wallet/Sending.antt =====
-- Sending coin to another customer's address: `feeAtomsFor`, `previewSend`, `send`
-- (bank/wallet.js).
use agents_playground.Prelude.{
  ℕ, ◌+◌, String, text_eq, join, Chars, codes, chars_eq, trim, Bool, true, false, not, Option, none,
  some, ◌∷◌, ◌==◌, ltb, max, if◌then◌else◌,
}
use agents_playground.Db.{
  Coin, Holding, Wallet, WalletSend, NoteKind, Link, Error, Result, ok, err, Action, pure, throw,
  throw_if, select, execute, transaction, random_uuid, ◌>>=◌, ◌>>◌,
}
use agents_playground.Notify.{notify, Note}
use agents_playground.Coins.{find_coin}
use agents_playground.Trading.{
  Market, find_holding, put_coin, take_coin, update_holdings, keeps_checks, format_atoms, shown,
}
use agents_playground.Wallet.Addresses.{Hash, parse_address}
use agents_playground.Wallet.Owners.{find_owner}

-- `SEND_FEE_CENTS`
abbrev pub send_fee_cents : ℕ
send_fee_cents = 40

-- The network fee for one coin, and never less than one atom.
unfoldable pub fee_atoms_for : Market → ℕ → ℕ
fee_atoms_for m price = max 1 (m.atoms_for_cents send_fee_cents price)

-- The arguments of `send`. `bad_address` is the planted defect `bankBadAddress`.
pub record SendRequest : Type 0 where
  pub user_id : ℕ
  pub user_key : ℕ
  pub symbol : Chars
  pub to_address : Chars
  pub quantity_atoms : ℕ
  pub memo : String
  pub bad_address : Bool
  pub at_ms : ℕ

pub record SendPreview : Type 0 where
  pub symbol : String
  pub price_micros : ℕ
  pub quantity_atoms : ℕ
  pub fee_atoms : ℕ
  pub total_atoms : ℕ
  pub fee_cents : ℕ

-- What a send would cost.
unfoldable pub preview_send : Market → SendRequest → Action SendPreview
unfolding find_coin fee_atoms_for
preview_send m r = do
  coin ← find_coin r.symbol
  price ← select (λ db. m.price r.user_key coin r.at_ms db.trades)
  pure (record {
    symbol = coin.symbol;
    price_micros = price;
    quantity_atoms = r.quantity_atoms;
    fee_atoms = fee_atoms_for m price;
    total_atoms = r.quantity_atoms + fee_atoms_for m price;
    fee_cents = m.cents_for_atoms (fee_atoms_for m price) price;
  })

-- The address must have been made for this coin.
abbrev pub same_coin_or_throw : Coin → Result (Chars × Chars) → Action (Unit {0})
same_coin_or_throw coin (err e) = throw e
same_coin_or_throw coin (ok (symbol, body)) =
    throw_if (not (chars_eq symbol (codes coin.symbol))) Error.bad_address

unfoldable pub check_address : Hash → SendRequest → Coin → Action (Unit {0})
unfolding parse_address
check_address h r coin =
    if r.bad_address then pure tt else same_coin_or_throw coin (parse_address h r.to_address)

-- Not to yourself, and, with the check on, only to an address someone holds.
unfoldable pub check_owner : SendRequest → Option Wallet → Action (Unit {0})
check_owner r none = throw_if (not r.bad_address) Error.unknown_address
check_owner r (some w) = throw_if (w.user_id == r.user_id) Error.own_address

-- Coin leaves a holding, with its share of the cost, which is returned.
unfoldable pub take_share : Market → ℕ → String → ℕ → Option Holding → Action ℕ
take_share m user_id symbol atoms none = throw Error.not_enough_coin
take_share m user_id symbol atoms (some h) = do
  throw_if (ltb h.quantity_atoms atoms) Error.not_enough_coin
  let cost = m.share h.cost_cents atoms h.quantity_atoms
  throw_if (not (keeps_checks atoms cost h)) Error.check_violation
  update_holdings user_id symbol (take_coin atoms cost)
  pure cost

abbrev pub received_note : SendRequest → Coin → Wallet → Note
received_note r coin w = record {
  user_id = w.user_id;
  kind = NoteKind.money_received;
  title = join "Received " (join (shown (format_atoms r.quantity_atoms)) (join " " coin.symbol));
  body = if text_eq r.memo "" then "Sent to your wallet." else r.memo;
  link = Link.page "/app/wallet";
  amount_cents = none;
}

-- What the coin was worth when it landed is the recipient's cost.
unfoldable pub deliver : Market → SendRequest → Coin → ℕ → Option Wallet → Action (Unit {0})
unfolding find_holding put_coin notify
deliver m r coin price none = pure tt
deliver m r coin price (some w) = do
  theirs ← select (find_holding w.user_id coin.symbol)
  put_coin w.user_id coin.symbol r.quantity_atoms (m.cents_for_atoms r.quantity_atoms price) theirs
  notify (received_note r coin w)

abbrev owner_id : Option Wallet → Option ℕ
owner_id none = none
owner_id (some w) = some w.user_id

abbrev pub send_row : SendRequest → Coin → ℕ → Option Wallet → ℕ → WalletSend
send_row r coin fee owner id = record {
  id = id;
  user_id = r.user_id;
  symbol = coin.symbol;
  to_address = trim r.to_address;
  to_user_id = owner_id owner;
  quantity_atoms = r.quantity_atoms;
  fee_atoms = fee;
  memo = r.memo;
}

-- What a send answers.
pub record SendView : Type 0 where
  pub id : ℕ
  pub symbol : String
  pub to_address : Chars
  pub quantity_atoms : ℕ
  pub quantity : Chars
  pub fee_atoms : ℕ
  pub total_atoms : ℕ
  pub delivered : Bool

abbrev pub is_owned : Option Wallet → Bool
is_owned none = false
is_owned (some w) = true

abbrev pub to_send_view : SendRequest → Coin → ℕ → Option Wallet → ℕ → SendView
to_send_view r coin fee owner id = record {
  id = id;
  symbol = coin.symbol;
  to_address = trim r.to_address;
  quantity_atoms = r.quantity_atoms;
  quantity = format_atoms r.quantity_atoms;
  fee_atoms = fee;
  total_atoms = r.quantity_atoms + fee;
  delivered = is_owned owner;
}

-- Recorded, delivered or not, under the CHECK that something is sent.
unfoldable pub record_send : SendRequest → Coin → ℕ → Option Wallet → Action SendView
record_send r coin fee owner = do
  id ← random_uuid
  throw_if (r.quantity_atoms == 0) Error.check_violation
  execute (λ db. record db { sends = send_row r coin fee owner id ∷ db.sends })
  pure (to_send_view r coin fee owner id)

unfoldable pub send_work : Market → SendRequest → Coin → ℕ → Option Wallet → Action SendView
unfolding find_holding take_share deliver record_send fee_atoms_for
send_work m r coin price owner = do
  holding ← select (find_holding r.user_id coin.symbol)
  _ ← take_share m r.user_id coin.symbol (r.quantity_atoms + fee_atoms_for m price) holding
  deliver m r coin price owner
  record_send r coin (fee_atoms_for m price) owner

-- At the sender's own price.
unfoldable pub send_priced : Market → SendRequest → Coin → Option Wallet → Action SendView
unfolding send_work
send_priced m r coin owner db =
    transaction (send_work m r coin (m.price r.user_key coin r.at_ms db.trades) owner) db

unfoldable pub send_to_owner : Market → SendRequest → Coin → Option Wallet → Action SendView
unfolding check_owner send_priced
send_to_owner m r coin owner = do check_owner r owner; send_priced m r coin owner

-- What follows the coin's lookup.
unfoldable pub send_coin : Market → Hash → SendRequest → Coin → Action SendView
unfolding check_address find_owner send_to_owner
send_coin m h r coin = do
  check_address h r coin
  owner ← select (find_owner (trim r.to_address))
  send_to_owner m r coin owner

unfoldable pub send : Market → Hash → SendRequest → Action SendView
unfolding find_coin send_coin
send m h r = do coin ← find_coin r.symbol; send_coin m h r coin
