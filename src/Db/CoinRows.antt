-- ===== src/Db/CoinRows.antt =====
-- The rows of the tables behind trading and wallets (bank/schema.sql). Amounts of coin are whole
-- atoms, prices whole micros.
use agents_playground.Prelude.{ℕ, String, Option, List}

-- `bank_coins`, without the columns that only the price model reads.
pub record Coin : Type 0 where
  pub symbol : String
  pub name : String

-- `bank_holdings`; the two CHECKs keep the amounts from going below zero.
pub record Holding : Type 0 where
  pub id : ℕ
  pub user_id : ℕ
  pub symbol : String
  pub quantity_atoms : ℕ
  pub cost_cents : ℕ

pub data Side : Type 0 where
  buy sell : Side

-- `bank_trade_quotes`; `asked` is `spend_cents` of a buy and `quantity_atoms` of a sell.
pub record Quote : Type 0 where
  pub id : ℕ
  pub user_id : ℕ
  pub symbol : String
  pub side : Side
  pub asked : ℕ
  pub price_micros : ℕ
  pub gross_cents : ℕ
  pub fee_cents : ℕ
  pub net_cents : ℕ
  pub filled_atoms : ℕ
  pub expires_at : ℕ
  pub used_at : Option ℕ

-- `bank_trades`
pub record Trade : Type 0 where
  pub id : ℕ
  pub user_id : ℕ
  pub symbol : String
  pub account_id : ℕ
  pub side : Side
  pub quantity_atoms : ℕ
  pub price_micros : ℕ
  pub gross_cents : ℕ
  pub fee_cents : ℕ
  pub net_cents : ℕ
  pub cost_cents : ℕ
  pub quote_id : ℕ
  pub transaction_id : ℕ
  pub created_at : ℕ

-- `bank_wallets`; an address is a text by its character codes.
pub record Wallet : Type 0 where
  pub id : ℕ
  pub user_id : ℕ
  pub symbol : String
  pub address : List ℕ

-- `bank_wallet_sends`
pub record WalletSend : Type 0 where
  pub id : ℕ
  pub user_id : ℕ
  pub symbol : String
  pub to_address : List ℕ
  pub to_user_id : Option ℕ
  pub quantity_atoms : ℕ
  pub fee_atoms : ℕ
  pub memo : String

-- `bank_swaps`
pub record Swap : Type 0 where
  pub id : ℕ
  pub user_id : ℕ
  pub from_symbol : String
  pub to_symbol : String
  pub from_atoms : ℕ
  pub to_atoms : ℕ
  pub from_price_micros : ℕ
  pub to_price_micros : ℕ
  pub value_cents : ℕ
  pub fee_cents : ℕ
  pub cost_cents : ℕ

pub data OrderStatus : Type 0 where
  opened filled failed cancelled : OrderStatus

pub data FailReason : Type 0 where
  not_enough_money not_enough_coin too_small : FailReason

-- `bank_orders`; `asked` is `spend_cents` of a buy and `quantity_atoms` of a sell.
pub record Order : Type 0 where
  pub id : ℕ
  pub user_id : ℕ
  pub symbol : String
  pub account_id : ℕ
  pub side : Side
  pub asked : ℕ
  pub limit_micros : ℕ
  pub status : OrderStatus
  pub fill_price_micros : Option ℕ
  pub trade_id : Option ℕ
  pub fail_reason : Option FailReason
  pub filled_at : Option ℕ

pub data AlertDirection : Type 0 where
  above below : AlertDirection

pub data AlertStatus : Type 0 where
  armed fired cancelled : AlertStatus

-- `bank_price_alerts`
pub record Alert : Type 0 where
  pub id : ℕ
  pub user_id : ℕ
  pub symbol : String
  pub direction : AlertDirection
  pub limit_micros : ℕ
  pub status : AlertStatus
  pub fired_micros : Option ℕ
  pub fired_at : Option ℕ
