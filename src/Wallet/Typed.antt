-- ===== src/Wallet/Typed.antt =====
-- What `formatAtoms` writes, `parseQuantity` reads back (bank/trading.js, bank/wallet.js).
use agents_playground.Prelude.{
  ℕ, ◌+◌, ◌-◌, ◌*◌, ◌/◌, ◌%◌, ◌≤◌, ◌<◌, ◌≡◌, refl, sym, ap, ◌∙◌, true, false, not, [], ◌∷◌, ◌++◌,
  arith, Chars, number_from, is_digit, is_space, is_empty, all, trim, trim_start, trim_end, length,
  Bool,
}
use agents_playground.Db.{ok}
use agents_playground.Trading.{
  decimal, zeros, pad_start, trim_zeros, format_atoms, with_fraction, atoms_per_coin,
}
use agents_playground.Trading.Digits.{
  digits_before-value, digits_before-digits, digits_before-length, digits_before-written,
  all-append, all-zeros, zeros-value, length-zeros, trim_zeros-split, trim_zeros-digits,
}
use agents_playground.Wallet.Quantities.{
  is_fraction, is_quantity, until_dot, after_dot, pad_end, is_amount, atoms_of, parse_quantity,
}

-- No white space anywhere.
abbrev pub solid : ℕ → Bool
solid c = not (is_space c)

trim_end-solid : (cs : Chars) → all solid cs ≡ true → trim_end cs ≡ cs
trim_end-solid [] h = refl
trim_end-solid (c ∷ []) h = ground arith
trim_end-solid (c ∷ d ∷ ds) h = rw (trim_end-solid (d ∷ ds) (ground arith)) refl

trim_start-solid : (cs : Chars) → all solid cs ≡ true → trim_start cs ≡ cs
trim_start-solid [] h = refl
trim_start-solid (c ∷ cs) h = ground arith

pub trim-solid : (cs : Chars) → all solid cs ≡ true → trim cs ≡ cs
trim-solid cs h = rw (trim_start-solid cs h) (trim_end-solid cs h)

digits-solid : (cs : Chars) → all is_digit cs ≡ true → all solid cs ≡ true
digits-solid [] h = refl
digits-solid (c ∷ cs) h = ground (arith, digits-solid cs)

-- Digits, and digits with a fraction, are amounts whose two parts are what was written.
module _ (f : Chars) where
  whole-quantity :
      (w : Chars) → all is_digit w ≡ true → is_fraction f ≡ true → is_quantity (w ++ f) ≡ true
  whole-quantity [] d h = start f h
    where
      start : (f : Chars) → is_fraction f ≡ true → is_quantity f ≡ true
      start [] h = refl
      start (c ∷ cs) h = ground arith
  whole-quantity (c ∷ w) d h = ground (arith, whole-quantity w)

until_dot-whole : (w : Chars) → all is_digit w ≡ true → until_dot w ≡ w
until_dot-whole [] d = refl
until_dot-whole (c ∷ w) d = ground (arith, until_dot-whole w)

until_dot-fraction : (w f : Chars) → all is_digit w ≡ true → until_dot (w ++ b'.' ∷ f) ≡ w
until_dot-fraction [] f d = refl
until_dot-fraction (c ∷ w) f d = ground (arith, until_dot-fraction w f)

after_dot-whole : (w : Chars) → all is_digit w ≡ true → after_dot w ≡ []
after_dot-whole [] d = refl
after_dot-whole (c ∷ w) d = ground (arith, after_dot-whole w)

after_dot-fraction :
    (w f : Chars) → all is_digit w ≡ true → all is_digit f ≡ true → after_dot (w ++ b'.' ∷ f) ≡ f
after_dot-fraction [] f d e = until_dot-whole f e
after_dot-fraction (c ∷ w) f d e = ground (arith, after_dot-fraction w f)

digits_amount :
    (w f : Chars)
    → all is_digit w ≡ true
    → is_empty w ≡ false
    → is_fraction f ≡ true
    → is_amount (w ++ f) ≡ true
digits_amount [] f d e h = cc
digits_amount (c ∷ w) f d e h = ground (arith, whole-quantity f (c ∷ w) d h)

-- The number of a whole part and a fraction that was padded and trimmed.
atoms_of-whole :
    (w : Chars) → all is_digit w ≡ true → atoms_of w ≡ number_from 0 w * atoms_per_coin + 0
unfolding atoms_of
atoms_of-whole w d = rw (until_dot-whole w d, after_dot-whole w d) refl

atoms_of-fraction :
    (w f : Chars)
    → all is_digit w ≡ true
    → all is_digit f ≡ true
    → atoms_of (w ++ b'.' ∷ f) ≡ number_from 0 w * atoms_per_coin + number_from 0 (pad_end 8 f)
unfolding atoms_of
atoms_of-fraction w f d e = rw (until_dot-fraction w f d, after_dot-fraction w f d e) refl

pub decimal-digits : (n : ℕ) → all is_digit (decimal n) ≡ true
unfolding decimal
decimal-digits n = digits_before-digits n n [] (omega arith) refl

pub decimal-value : (n : ℕ) → number_from 0 (decimal n) ≡ n
unfolding decimal
decimal-value n = digits_before-value n n [] (omega arith)

decimal-written : (n : ℕ) → is_empty (decimal n) ≡ false
unfolding decimal
decimal-written n = digits_before-written n n []

-- The eight places of a part of a coin.
abbrev places : ℕ → Chars
places r = pad_start 8 (decimal r)

places-digits : (r : ℕ) → all is_digit (places r) ≡ true
places-digits r =
    all-append (zeros (8 - length (decimal r))) (decimal r) (all-zeros (8 - length (decimal r)))
      (decimal-digits r)

places-value : (r : ℕ) → number_from 0 (places r) ≡ r
places-value r = zeros-value (8 - length (decimal r)) (decimal r) ∙ decimal-value r

places-length : (r : ℕ) → r < atoms_per_coin → length (places r) ≡ 8
unfolding decimal
places-length r h =
    omega
      (arith, length-zeros (8 - length (decimal r)) (decimal r), digits_before-length r 7 r [] h)

-- The last zeros come back by padding.
places-padded : (r : ℕ) → r < atoms_per_coin → pad_end 8 (trim_zeros (places r)) ≡ places r
places-padded r h = sym (
    (trim_zeros-split (places r)).0
    ∙ ap (λ n. trim_zeros (places r) ++ zeros (n - length (trim_zeros (places r))))
        (places-length r h))

parsed :
    (by_float : Chars → ℕ) (v : Chars)
    → all solid v ≡ true
    → is_amount v ≡ true
    → parse_quantity by_float false v ≡ ok (atoms_of v)
unfolding parse_quantity
parsed by_float v s a = rw (trim-solid v s, a) refl

digits-quantity : (w : Chars) → all is_digit w ≡ true → is_quantity w ≡ true
digits-quantity [] d = refl
digits-quantity (c ∷ w) d = ground (arith, digits-quantity w)

whole_amount : (w : Chars) → all is_digit w ≡ true → is_empty w ≡ false → is_amount w ≡ true
whole_amount [] d e = cc
whole_amount (c ∷ w) d e = ground (arith, digits-quantity (c ∷ w) d)

with_dot-solid :
    (w f : Chars) → all is_digit w ≡ true → all is_digit f ≡ true → all solid (w ++ b'.' ∷ f) ≡ true
with_dot-solid [] f d e = ground (arith, digits-solid f e)
with_dot-solid (c ∷ w) f d e = ground (arith, with_dot-solid w f)

-- A whole part and the trimmed places of a rest below one coin.
read_back :
    (by_float : Chars → ℕ) (w t p : Chars) (n r : ℕ)
    → all is_digit w ≡ true
    → is_empty w ≡ false
    → all is_digit t ≡ true
    → length t ≤ 8
    → pad_end 8 t ≡ p
    → number_from 0 p ≡ r
    → number_from 0 w ≡ n
    → parse_quantity by_float false (with_fraction w t) ≡ ok (n * atoms_per_coin + r)
read_back by_float w [] p n r d e dt le padded rest whole =
    let nothing : 0 ≡ r = ap (number_from 0) padded ∙ rest in
    rw (parsed by_float w (digits-solid w d) (whole_amount w d e), atoms_of-whole w d, whole)
      (ap (λ k. ok (n * atoms_per_coin + k)) nothing)
read_back by_float w (c ∷ t) p n r d e dt le padded rest whole =
    rw
      (
        parsed by_float (w ++ b'.' ∷ c ∷ t) (with_dot-solid w (c ∷ t) d dt)
            (digits_amount w (b'.' ∷ c ∷ t) d e (ground arith)),
        atoms_of-fraction w (c ∷ t) d dt,
        padded,
        rest,
        whole,
      )
      refl

-- Reading an amount that was written exactly gives back the atoms, without the planted fault.
pub parse_quantity-format_atoms :
    (by_float : Chars → ℕ) (atoms : ℕ)
    → parse_quantity by_float false (format_atoms atoms) ≡ ok atoms
unfolding format_atoms
parse_quantity-format_atoms by_float atoms =
    let n = atoms / atoms_per_coin in
    let r = atoms % atoms_per_coin in
    let below : r < atoms_per_coin = omega arith in
    let split = trim_zeros-split (places r) in
    read_back by_float (decimal n) (trim_zeros (places r)) (places r) n r (decimal-digits n)
      (decimal-written n) (trim_zeros-digits (places r) (places-digits r))
      (omega (arith, split.1, places-length r below)) (places-padded r below) (places-value r)
      (decimal-value n)
    ∙ ap ok (omega arith)
