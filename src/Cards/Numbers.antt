-- ===== src/Cards/Numbers.antt =====
-- A card's number, CVV and dates (bank/cards.js, `luhnCheckDigit` to `defaultLimit`). A text of
-- digits is the list of them.
use mathlib.Core.List.{reverse}
use agents_playground.Prelude.{
  ℕ, zero, suc, ◌+◌, ◌-◌, ◌*◌, ◌/◌, ◌%◌, ℤ, pos, negsuc, Bool, true, not, List, [], ◌∷◌, ◌++◌, leb,
  String, join, if◌then◌else◌,
}
use agents_playground.Db.{Action, pure, ◌>>=◌}
use agents_playground.Money.{digit, random_int}

-- The digits of a doubled digit, added.
unfoldable pub doubled : ℕ → ℕ
doubled d = if leb (d * 2) 9 then d * 2 else d * 2 - 9

-- The loop of `luhnCheckDigit`, over the digits from the last to the first.
unfoldable pub luhn_sum : Bool → List ℕ → ℕ
unfolding doubled
luhn_sum double [] = 0
luhn_sum double (d ∷ ds) = (if double then doubled d else d) + luhn_sum (not double) ds

unfoldable pub luhn_check_digit : List ℕ → ℕ
unfolding luhn_sum
luhn_check_digit digits = (10 - luhn_sum true (reverse digits) % 10) % 10

-- `while (body.length < 15) body += crypto.randomInt(0, 10)`, for as many digits as are missing.
unfoldable pub fill_digits : ℕ → List ℕ → Action (List ℕ)
fill_digits zero body = pure body
fill_digits (suc n) body = random_int 10 >>= λ d. fill_digits n (body ++ d ∷ [])

-- A 9, 14 random digits, and the check digit.
unfoldable pub new_card_number : Action (List ℕ)
unfolding fill_digits luhn_check_digit
new_card_number = fill_digits 14 (9 ∷ []) >>= λ body. pure (body ++ luhn_check_digit body ∷ [])

-- `String(n).padStart(3, "0")` of a number below 1,000, and the same with two digits below 100.
abbrev pub three_digits : ℕ → String
three_digits n = join (digit (n / 100 % 10)) (join (digit (n / 10 % 10)) (digit (n % 10)))

abbrev pub two_digits : ℕ → String
two_digits n = join (digit (n / 10 % 10)) (digit (n % 10))

unfoldable pub new_cvv : Action String
new_cvv = random_int 1000 >>= λ n. pure (three_digits n)

-- "MM/YY", three years after a year and a month index (0 is January).
unfoldable pub expiry_from : ℕ → ℕ → String
expiry_from year month = join (two_digits (month + 1)) (join "/" (two_digits ((year + 3) % 100)))

-- The digits as a card prints them, in groups of four with a space between.
abbrev pub digits_text : List ℕ → String
digits_text [] = ""
digits_text (d ∷ ds) = join (digit d) (digits_text ds)

unfoldable pub format_number : List ℕ → String
format_number (a ∷ b ∷ c ∷ d ∷ e ∷ ds) =
    join (digits_text (a ∷ b ∷ c ∷ d ∷ [])) (join " " (format_number (e ∷ ds)))
format_number ds = digits_text ds

-- A tenth of the balance in whole dollars, rounded down, as `Math.floor` does below zero too.
unfoldable pub default_limit : ℤ → ℤ
default_limit (pos n) = pos (n / 1000 * 100)
default_limit (negsuc n) = negsuc ((n / 1000 + 1) * 100 - 1)
