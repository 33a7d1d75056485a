-- ===== src/Trading/Amounts.antt =====
-- Amounts of coin as texts: `formatAtoms` (bank/trading.js).
use agents_playground.Prelude.{
  ℕ, zero, suc, ◌+◌, ◌-◌, ◌/◌, ◌%◌, [], ◌∷◌, ◌++◌, Chars, ◌==◌, ltb, if◌then◌else◌, length, String,
  join,
}
use agents_playground.Money.{digit}
use agents_playground.Trading.Rates.{atoms_per_coin}

-- The digits of a number in front of those already written, on fuel.
unfoldable pub digits_before : ℕ → ℕ → Chars → Chars
digits_before zero n cs = (b'0' + n % 10) ∷ cs
digits_before (suc fuel) n cs =
    let rest = digits_before fuel (n / 10) ((b'0' + n % 10) ∷ cs) in
    if ltb n 10 then (b'0' + n) ∷ cs else rest

-- `String(n)`
unfoldable pub decimal : ℕ → Chars
decimal n = digits_before n n []

abbrev pub zeros : ℕ → Chars
zeros zero = []
zeros (suc n) = b'0' ∷ zeros n

-- `padStart(width, "0")`
abbrev pub pad_start : ℕ → Chars → Chars
pad_start width cs = zeros (width - length cs) ++ cs

-- A character before a text without its last zeros.
abbrev pub before_zeros : ℕ → Chars → Chars
before_zeros c [] = if c == b'0' then [] else c ∷ []
before_zeros c (d ∷ ds) = c ∷ d ∷ ds

-- `replace(/0+$/, "")`
abbrev pub trim_zeros : Chars → Chars
trim_zeros [] = []
trim_zeros (c ∷ cs) = before_zeros c (trim_zeros cs)

abbrev pub with_fraction : Chars → Chars → Chars
with_fraction whole [] = whole
with_fraction whole (c ∷ cs) = whole ++ b'.' ∷ c ∷ cs

-- Never in exponent form, and never through a float.
unfoldable pub format_atoms : ℕ → Chars
format_atoms atoms =
    with_fraction (decimal (atoms / atoms_per_coin))
      (trim_zeros (pad_start 8 (decimal (atoms % atoms_per_coin))))

abbrev glyph : ℕ → String
glyph c = if c == b'.' then "." else digit (c - b'0')

-- What `formatAtoms` writes, in a message.
abbrev pub shown : Chars → String
shown [] = ""
shown (c ∷ cs) = join (glyph c) (shown cs)
