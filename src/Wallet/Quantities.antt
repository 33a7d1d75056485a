-- ===== src/Wallet/Quantities.antt =====
-- Typed amounts of coin: `parseQuantity` (bank/wallet.js). A double holds whole numbers exactly up to
-- 2^53; the numbers here are exact.
use agents_playground.Prelude.{
  ℕ, ◌+◌, ◌-◌, ◌*◌, Bool, true, false, not, [], ◌∷◌, ◌++◌, ◌==◌, ◌&&◌, leb, Chars, number_from,
  is_digit, all, is_empty, trim, length, if◌then◌else◌,
}
use agents_playground.Db.{Result, ok, err, Error}
use agents_playground.Trading.{atoms_per_coin, zeros}

-- `(\.\d{1,8})?$`
abbrev pub is_fraction : Chars → Bool
is_fraction [] = true
is_fraction (c ∷ cs) = c == b'.' && all is_digit cs && leb 1 (length cs) && leb (length cs) 8

-- `^\d*(\.\d{1,8})?$`
abbrev pub is_quantity : Chars → Bool
is_quantity [] = true
is_quantity (c ∷ cs) = if is_digit c then is_quantity cs else is_fraction (c ∷ cs)

-- The first two parts of `split(".")`, the second empty where there is none.
abbrev pub until_dot : Chars → Chars
until_dot [] = []
until_dot (c ∷ cs) = if c == b'.' then [] else c ∷ until_dot cs

abbrev pub after_dot : Chars → Chars
after_dot [] = []
after_dot (c ∷ cs) = if c == b'.' then until_dot cs else after_dot cs

-- `padEnd(width, "0")`
abbrev pub pad_end : ℕ → Chars → Chars
pad_end width cs = cs ++ zeros (width - length cs)

abbrev pub is_dot : Chars → Bool
is_dot [] = false
is_dot (c ∷ cs) = c == b'.' && is_empty cs

abbrev pub is_amount : Chars → Bool
is_amount value = is_quantity value && not (is_empty value) && not (is_dot value)

unfoldable pub atoms_of : Chars → ℕ
atoms_of value =
    number_from 0 (until_dot value) * atoms_per_coin + number_from 0 (pad_end 8 (after_dot value))

-- `by_float` is what the planted defect `bankCryptoFloat` computes where it is armed,
-- `Math.trunc(parseFloat(value) * ATOMS_PER_COIN)`.
unfoldable pub parse_quantity : (Chars → ℕ) → Bool → Chars → Result ℕ
unfolding atoms_of
parse_quantity by_float float_bug input =
    let value = trim input in
    if is_amount value
    then ok (if float_bug then by_float value else atoms_of value)
    else err Error.bad_amount
