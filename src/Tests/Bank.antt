-- ===== src/Tests/Bank.antt =====
-- A small bank (bank/schema.sql): three accounts whose history explains them, and what hangs on
-- them.
use agents_playground.Prelude.{
  ℕ, ◌+◌, ◌*◌, ◌%◌, Chars, codes, pos, String, [], ◌∷◌, none, refl, int_laws, arith,
}
use agents_playground.Db.{
  Db, Account, AccountKind, Entry, EntryKind, Payee, MoneyRequest, RequestStatus, Loan, LoanStatus,
  Card, CardStatus, Schedule, ScheduleStatus, Repeat, Coin, Holding, Quote, Side, Wallet,
}
use agents_playground.Wallet.{Hash, address_for}
use agents_playground.Trading.Coin.{IsSingle}
use agents_playground.Ledger.Booked.{IsBooked}
use agents_playground.Ledger.Covered.{IsCovered}
use agents_playground.Ledger.Conserved.{IsDistinct}

abbrev account : ℕ → String → ℕ → Account
account id number cents = record {
  id = id;
  user_id = id + 100;
  number = number;
  kind = AccountKind.checking;
  name = "Everyday";
  balance_cents = pos cents;
  created_at = 0;
}

abbrev pub alice : Account
alice = account 1 "PB-2000-0001" 10000

abbrev pub bob : Account
bob = account 2 "PB-2000-0002" 5000

abbrev pub carol : Account
carol = account 3 "PB-2000-0003" 0

abbrev opening : ℕ → ℕ → ℕ → Entry
opening id account_id cents = record {
  id = id;
  account_id = account_id;
  kind = EntryKind.opening;
  amount_cents = pos cents;
  balance_after_cents = pos cents;
  description = "Opening balance";
  memo = "";
  counterparty = "";
  transfer_id = none;
  created_at = 0;
}

-- Alice's payee, Bob's request to her, her pending loan, her card, and her rent.
abbrev pub power : Payee
power = record { id = 11; user_id = 101; name = "Power"; reference = "A-1"; deleted_at = none }

abbrev pub asked : MoneyRequest
asked = record {
  id = 12;
  requester_id = 102;
  to_account_id = 2;
  payer_id = 101;
  payer_account_number = "PB-2000-0001";
  amount_cents = 700;
  memo = "";
  status = RequestStatus.pending;
  transfer_id = none;
  answered_at = none;
}

abbrev pub car_loan : Loan
car_loan = record {
  id = 13;
  user_id = 101;
  account_id = 1;
  amount_cents = 900000;
  term_months = 12;
  apr_basis_points = pos 600;
  monthly_payment_cents = pos 77460;
  total_interest_cents = pos 29520;
  purpose = "A car";
  status = LoanStatus.pending;
  decision_note = "";
  decided_by = none;
  decided_at = none;
}

abbrev pub card : Card
card = record {
  id = 14;
  user_id = 101;
  account_id = 1;
  number = 9 ∷ 1 ∷ 2 ∷ 3 ∷ [];
  expires = "01/30";
  cvv = "123";
  status = CardStatus.active;
  frozen_by = none;
  limit_cents = 1000;
}

abbrev pub rent : Schedule
rent = record {
  id = 15;
  user_id = 101;
  account_id = 1;
  payee_id = 11;
  amount_cents = 4000;
  memo = "";
  repeat = Repeat.monthly;
  anchor_day = 31;
  next_due = record { year = 2025; month = 1; day = 31 };
  status = ScheduleStatus.active;
  runs = 0;
  last_run_on = none;
  last_result = none;
}

-- Two coins, who holds the first, a quote to buy it and one to sell it, and Bob's address.
abbrev btc : Coin
btc = record { symbol = "BTC"; name = "Bitcoin" }

abbrev eth : Coin
eth = record { symbol = "ETH"; name = "Ether" }

abbrev holding : ℕ → ℕ → ℕ → ℕ → Holding
holding id user_id atoms cost = record {
  id = id;
  user_id = user_id;
  symbol = "BTC";
  quantity_atoms = atoms;
  cost_cents = cost;
}

abbrev quote : ℕ → Side → ℕ → Quote
quote id side asked = record {
  id = id;
  user_id = 101;
  symbol = "BTC";
  side = side;
  asked = asked;
  price_micros = 50000000000;
  gross_cents = 997;
  fee_cents = 3;
  net_cents = 1000;
  filled_atoms = 19940;
  expires_at = 15005;
  used_at = none;
}

-- A hash that spreads its texts little, for addresses that are easy to compute.
abbrev pub hash : Hash
hash = record { sha256 = λ cs i. i * 7 + 3; user_text = λ id. (b'0' + id % 10) ∷ [] }

abbrev pub bob_address : Chars
bob_address = address_for hash 102 (codes "BTC")

abbrev bob_wallet : Wallet
bob_wallet = record { id = 51; user_id = 102; symbol = "BTC"; address = bob_address }

abbrev pub bank : Db
bank = record {
  accounts = alice ∷ bob ∷ carol ∷ [];
  transactions = opening 21 1 10000 ∷ opening 22 2 5000 ∷ [];
  transfers = [];
  notifications = [];
  payees = power ∷ [];
  bill_payments = [];
  requests = asked ∷ [];
  loans = car_loan ∷ [];
  cards = card ∷ [];
  card_charges = [];
  schedules = rent ∷ [];
  clocks = [];
  coins = btc ∷ eth ∷ [];
  holdings = holding 31 101 300000 12000 ∷ holding 32 102 5 1 ∷ [];
  quotes = quote 41 Side.buy 1000 ∷ quote 42 Side.sell 19940 ∷ [];
  trades = [];
  wallets = bob_wallet ∷ [];
  sends = [];
  swaps = [];
  orders = [];
  alerts = [];
  uuids = λ n. n + 1000;
  drawn = 0;
  ints = λ n. n * 7;
  rolled = 0;
  now = 5;
  real_today = record { year = 2025; month = 3; day = 1 };
}

pub bank-IsBooked : IsBooked bank
bank-IsBooked =
    ((omega int_laws, (omega int_laws, (refl, tt))), (omega int_laws, (omega int_laws, tt)))

pub bank-IsCovered : IsCovered bank
bank-IsCovered = (omega arith, (omega arith, (omega arith, tt)))

pub bank-IsDistinct : IsDistinct bank.accounts
bank-IsDistinct = (refl, (refl, (refl, tt)))

pub bank-IsSingle : IsSingle bank.holdings
bank-IsSingle = (refl, (refl, tt))
