-- ===== src/Coins.antt =====
-- The coins (bank/coins.js). Their prices come from a floating-point model (bank/market.js), which
-- the modules that use them take as given.
use agents_playground.Prelude.{Bool, List, Chars, codes, upper, trim, chars_eq, first}
use agents_playground.Db.{Db, Coin, Error, Action, row_or}

-- `upper(symbol) = upper($1)`
abbrev pub is_called : Chars → Coin → Bool
is_called symbol c = chars_eq (upper (codes c.symbol)) (upper symbol)

-- One coin by its symbol, in any case; an unknown one throws.
unfoldable pub find_coin : Chars → Action Coin
find_coin symbol db = row_or Error.unknown_coin (first (is_called (trim symbol)) db.coins) db

-- Every coin. The table is kept in rank order.
unfoldable pub list_coins : Db → List Coin
list_coins db = db.coins
