-- ===== src/Tests/Calls.antt =====
-- A day of calls on the small bank.
use agents_playground.Prelude.{List, [], ◌∷◌, false, some, none, refl, ◌≡◌}
use agents_playground.Db.{Db, ok, Order, OrderStatus, buy}
use agents_playground.Money.{TransferRequest}
use agents_playground.Exchange.{Sweeper, sweep}
use agents_playground.Bank.{
  Call, transfers, deposits, fills, sends, swaps, sweeps_orders, Environment,
}
use agents_playground.Tests.Bank.{alice, bob, bank, hash}
use agents_playground.Tests.Coins.{market, buying, gift, conversion}
use agents_playground.Tests.Products.{texts}

abbrev dinner : TransferRequest
dinner = record {
  user_id = 101;
  from = alice;
  to = bob;
  amount_cents = 4000;
  memo = "Dinner";
  key = some "k9";
  race = false;
}

abbrev evening : Sweeper
evening = record {
  user_id = 101;
  user_key = 7;
  at_ms = 3000;
  inverted = false;
  price_text = λ micros. "$50,000.00";
}

-- Alice buys for $10.00 once a bitcoin costs no more than $60,000.
abbrev waiting : Order
waiting = record {
  id = 900;
  user_id = 101;
  symbol = "BTC";
  account_id = 1;
  side = buy;
  asked = 1000;
  limit_micros = 60000000000;
  status = OrderStatus.opened;
  fill_price_micros = none;
  trade_id = none;
  fail_reason = none;
  filled_at = none;
}

abbrev trading_bank : Db
trading_bank = record bank { orders = waiting ∷ [] }

abbrev environment : Environment
environment = record { texts = texts; market = market; hash = hash }

abbrev day : List Call
day =
    transfers dinner
    ∷ fills buying
    ∷ sends gift
    ∷ deposits 2 500
    ∷ swaps conversion
    ∷ fills buying
    ∷ sweeps_orders evening
    ∷ []

-- The order of the small bank fills, and no alert is there to fire.
sweep_fills : (sweep market evening trading_bank).0 ≡ ok (1, 0)
unfolding sweep
sweep_fills = refl
