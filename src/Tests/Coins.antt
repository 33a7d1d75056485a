-- ===== src/Tests/Coins.antt =====
-- Trading, wallets and addresses in the small bank (bank/trading.js, bank/wallet.js).
use agents_playground.Prelude.{
  Bool, ◌+◌, ◌*◌, ◌/◌, ◌≡◌, ◌≤◌, refl, true, false, some, [], ◌∷◌, arith, codes, upper,
}
use agents_playground.Db.{OnOk, Result, ok, err}
use agents_playground.Trading.{Market, Fill, fill_quote, format_atoms}
use agents_playground.Trading.Once.{fill_each, filled_once}
use agents_playground.Trading.Exchanged.{Exchanged, fill_quote-Exchanged}
use agents_playground.Wallet.{
  SendRequest, send, SwapRequest, swap, parse_quantity, parse_address, address_for, body_for,
}
use agents_playground.Wallet.Typed.{parse_quantity-format_atoms}
use agents_playground.Wallet.Checked.{parse_address-address_for}
use agents_playground.Wallet.Sends.{IsSent, send-IsSent}
use agents_playground.Wallet.Swapped.{HasSwapped, swap-HasSwapped}
use agents_playground.Tests.Bank.{bank, hash, bob_address, bank-IsDistinct, bank-IsSingle}

-- A bitcoin at $50,000, in exact arithmetic, and everyone's fee at its highest.
abbrev pub market : Market
market = record {
  price = λ key coin at trades. 50000000000;
  atoms_for_cents = λ cents micros. (cents * 1000000000000 + micros / 2) / micros;
  cents_for_atoms = λ atoms micros. (atoms * micros + 500000000000) / 1000000000000;
  share = λ cost part whole. (2 * cost * part + whole) / (2 * whole);
  discount = λ volume. 20;
}

abbrev pub buying : Fill
buying = record {
  user_id = 101;
  quote_id = some 41;
  account_id = 1;
  late_ok = false;
  at_ms = 15005;
}

abbrev selling : Fill
selling = record buying { quote_id = some 42 }

filled_once_example : (fill_each market 41 (buying ∷ selling ∷ buying ∷ []) bank).0 ≤ 1
filled_once_example = filled_once market 41 (buying ∷ selling ∷ buying ∷ []) bank (omega arith)

fill_quote-Exchanged_example : OnOk (Exchanged selling 42 bank) (fill_quote market selling bank)
fill_quote-Exchanged_example =
    fill_quote-Exchanged market selling 42 bank refl bank-IsDistinct bank-IsSingle

abbrev pub gift : SendRequest
gift = record {
  user_id = 101;
  user_key = 101;
  symbol = codes "btc";
  to_address = bob_address;
  quantity_atoms = 1000;
  memo = "";
  bad_address = false;
  at_ms = 5;
}

send-IsSent_example : OnOk (IsSent market gift bank) (send market hash gift bank)
send-IsSent_example = send-IsSent market hash gift bank bank-IsSingle

abbrev pub conversion : SwapRequest
conversion = record {
  user_id = 101;
  user_key = 101;
  from_symbol = codes "BTC";
  to_symbol = codes "eth";
  quantity_atoms = 20000;
  at_ms = 5;
}

swap-HasSwapped_example : OnOk (HasSwapped market conversion bank) (swap market conversion bank)
swap-HasSwapped_example = swap-HasSwapped market conversion bank bank-IsSingle

parse_quantity-format_atoms_example :
    parse_quantity (λ cs. 0) false (format_atoms 129000000) ≡ ok 129000000
parse_quantity-format_atoms_example = parse_quantity-format_atoms (λ cs. 0) 129000000

parse_address-address_for_example :
    parse_address hash (address_for hash 7 (codes "Eth"))
    ≡ ok (upper (codes "Eth"), body_for hash 7 (codes "Eth"))
parse_address-address_for_example = parse_address-address_for hash 7 (codes "Eth") refl

abbrev is_ok : {A : Type 0} → Result A → Bool
is_ok (ok a) = true
is_ok (err e) = false

-- They do succeed, and what they leave.
selling_ok : is_ok (fill_quote market selling bank).0 ≡ true
unfolding fill_quote
selling_ok = refl

gift_ok : is_ok (send market hash gift bank).0 ≡ true
unfolding send address_for
gift_ok = refl

conversion_ok : is_ok (swap market conversion bank).0 ≡ true
unfolding swap
conversion_ok = refl
