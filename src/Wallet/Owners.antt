-- ===== src/Wallet/Owners.antt =====
-- Who holds which address (bank/wallet.js): `ensureWallet`, `listWallets`, `findOwner`.
use agents_playground.Prelude.{
  ℕ, String, text_eq, Chars, codes, chars_eq, Bool, true, false, Option, none, some, List, [], ◌∷◌,
  ◌==◌, ◌&&◌, first,
}
use agents_playground.Db.{
  Wallet, Coin, Db, Error, Action, pure, throw_if, select, execute, random_uuid, ◌>>=◌, ◌>>◌,
}
use agents_playground.Coins.{find_coin, list_coins}
use agents_playground.Wallet.Addresses.{Hash, address_for}

abbrev pub is_wallet_of : ℕ → String → Wallet → Bool
is_wallet_of user_id symbol w = w.user_id == user_id && text_eq w.symbol symbol

abbrev pub at_address : Chars → Wallet → Bool
at_address address w = chars_eq w.address address

-- Who holds an address, if anyone.
unfoldable pub find_owner : Chars → Db → Option Wallet
find_owner address db = first (at_address address) db.wallets

abbrev pub wallet_row : ℕ → ℕ → String → Chars → Wallet
wallet_row id user_id symbol address = record {
  id = id;
  user_id = user_id;
  symbol = symbol;
  address = address;
}

-- Under the unique constraint on the address.
unfoldable pub insert_wallet : ℕ → String → Chars → Action Chars
insert_wallet user_id symbol address = do
  id ← random_uuid
  taken ← select (λ db. first (at_address address) db.wallets)
  throw_if (elim taken [ none ↦ false | some _ ↦ true ]) Error.unique_violation
  execute (λ db. record db { wallets = wallet_row id user_id symbol address ∷ db.wallets })
  pure address

abbrev pub wallet_address : Hash → ℕ → Coin → Option Wallet → Action Chars
wallet_address h user_id coin none =
    insert_wallet user_id coin.symbol (address_for h user_id (codes coin.symbol))
wallet_address h user_id coin (some w) = pure w.address

-- One address per customer and coin, made the first time it is asked for.
unfoldable pub ensure_wallet : Hash → ℕ → Chars → Action Chars
unfolding find_coin insert_wallet
ensure_wallet h user_id symbol = do
  coin ← find_coin symbol
  existing ← select (λ db. first (is_wallet_of user_id coin.symbol) db.wallets)
  wallet_address h user_id coin existing

-- The customer's address for each of some coins.
unfoldable pub wallets_for : Hash → ℕ → List Coin → Action (List (Coin × Chars))
unfolding ensure_wallet
wallets_for h user_id [] = pure []
wallets_for h user_id (c ∷ cs) = do
  address ← ensure_wallet h user_id (codes c.symbol)
  more ← wallets_for h user_id cs
  pure ((c, address) ∷ more)

unfoldable pub list_wallets : Hash → ℕ → Action (List (Coin × Chars))
unfolding list_coins wallets_for
list_wallets h user_id = do all' ← select list_coins; wallets_for h user_id all'
