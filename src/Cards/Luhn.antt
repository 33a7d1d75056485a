-- ===== src/Cards/Luhn.antt =====
-- The check digit (bank/cards.js, `luhnCheckDigit`, `newCardNumber`).
use mathlib.Core.List.{reverse, reverse-append, reverse-cons, append_assoc}
use agents_playground.Prelude.{
  ℕ, zero, suc, ◌+◌, ◌-◌, ◌%◌, ◌<◌, ◌≡◌, ◌≢◌, ◌∙◌, refl, ap, Bool, true, false, not, List, [], ◌∷◌,
  ◌++◌, length, head?, some, arith, All,
}
use agents_playground.Db.{Db, Returns, Returns-map, Returns-bind, pure}
use agents_playground.Cards.Numbers.{
  doubled, luhn_sum, luhn_check_digit, fill_digits, new_card_number,
}

-- The test that a reader of card numbers makes: with every second digit doubled, from the one
-- before the last, the sum is a multiple of ten.
abbrev pub PassesLuhn : List ℕ → Type 0
PassesLuhn number = luhn_sum false (reverse number) % 10 ≡ 0

complement : (c s : ℕ) → c ≡ (10 - s % 10) % 10 → (c + s) % 10 ≡ 0
complement c s e = omega (arith, e)

luhn_check_digit_lem :
    (ds : List ℕ) → luhn_check_digit ds ≡ (10 - luhn_sum true (reverse ds) % 10) % 10
unfolding luhn_check_digit
luhn_check_digit_lem ds = refl

-- A number that ends in its check digit passes.
pub luhn_check_digit-PassesLuhn :
    (digits : List ℕ) → PassesLuhn (digits ++ luhn_check_digit digits ∷ [])
unfolding luhn_sum
luhn_check_digit-PassesLuhn digits = rw (reverse-append digits (luhn_check_digit digits ∷ [])) (
    complement (luhn_check_digit digits) (luhn_sum true (reverse digits))
      (luhn_check_digit_lem digits))

module _ (a b : ℕ) (small_a : a < 10) (small_b : b < 10) where
  luhn_sum-injective :
      (d : Bool) (us vs : List ℕ)
      → luhn_sum d (us ++ a ∷ vs) % 10 ≡ luhn_sum d (us ++ b ∷ vs) % 10
      → a ≡ b
  unfolding luhn_sum doubled
  luhn_sum-injective true [] vs e = ground (arith, small_a, small_b, e)
  luhn_sum-injective false [] vs e = ground (arith, small_a, small_b, e)
  luhn_sum-injective d (u ∷ us) vs e = luhn_sum-injective (not d) us vs (omega (arith, e))

  reversed_at : (xs ys : List ℕ) (c : ℕ) → reverse (xs ++ c ∷ ys) ≡ reverse ys ++ c ∷ reverse xs
  reversed_at xs ys c =
      reverse-append xs (c ∷ ys)
      ∙ ap (λ (l : List ℕ). l ++ reverse xs) (reverse-cons c ys)
      ∙ append_assoc (reverse ys) (c ∷ []) (reverse xs)

  -- Two numbers whose digits differ in exactly one place have different check digits.
  pub luhn_check_digit-detects :
      (xs ys : List ℕ) → a ≢ b → luhn_check_digit (xs ++ a ∷ ys) ≢ luhn_check_digit (xs ++ b ∷ ys)
  unfolding luhn_check_digit
  luhn_check_digit-detects xs ys ne e =
      let same : luhn_sum true (reverse (xs ++ a ∷ ys)) % 10
          ≡ luhn_sum true (reverse (xs ++ b ∷ ys)) % 10 =
        omega (arith, e) in
      ne (
        luhn_sum-injective true (reverse ys) (reverse xs)
          (rw (reversed_at xs ys a, reversed_at xs ys b) at same))

-- Sixteen digits, of which the first is a 9, that pass the test.
abbrev pub IsCardNumber : List ℕ → Type 0
IsCardNumber number =
    (length number ≡ 16) × (head? number ≡ some 9) × All (λ d. d < 10) number × PassesLuhn number

abbrev Fills : ℕ → List ℕ → List ℕ → Type 0
Fills n body full =
    (length full ≡ length body + n) × (head? full ≡ head? body) × All (λ d. d < 10) full

length-snoc : (b : List ℕ) (d : ℕ) → length (b ++ d ∷ []) ≡ suc (length b)
length-snoc [] d = refl
length-snoc (x ∷ b) d = omega (arith, length-snoc b d)

All-snoc : (b : List ℕ) (d : ℕ) → All (λ d. d < 10) b → d < 10 → All (λ d. d < 10) (b ++ d ∷ [])
All-snoc [] d h k = (k, tt)
All-snoc (x ∷ b) d h k = (h.0, All-snoc b d h.1 k)

fill_digits-Fills :
    (n b : ℕ) (bs : List ℕ) (db : Db)
    → All (λ d. d < 10) (b ∷ bs)
    → Returns (λ full _. Fills n (b ∷ bs) full) (fill_digits n (b ∷ bs) db)
unfolding fill_digits
fill_digits-Fills zero b bs db h = (omega arith, refl, h)
fill_digits-Fills (suc n) b bs db h =
    let d = db.ints db.rolled % 10 in
    Returns-map (λ full _. Fills n (b ∷ bs ++ d ∷ []) full) (λ full _. Fills (suc n) (b ∷ bs) full)
      (fill_digits n (b ∷ bs ++ d ∷ []) (record db { rolled = db.rolled + 1 }))
      (λ full _ k. (omega (arith, k.0, length-snoc bs d), k.1, k.2))
      (fill_digits-Fills n b (bs ++ d ∷ []) (record db { rolled = db.rolled + 1 })
        (All-snoc (b ∷ bs) d h (omega arith)))

head-append : (b : List ℕ) (x : ℕ) → 0 < length b → head? (b ++ x ∷ []) ≡ head? b
head-append [] x h = ground (arith, h)
head-append (y ∷ b) x h = refl

luhn_check_digit-small : (ds : List ℕ) → luhn_check_digit ds < 10
unfolding luhn_check_digit
luhn_check_digit-small ds = omega arith

-- Making a card number always succeeds, with sixteen digits, each below ten and the first a 9, that
-- pass the Luhn test.
pub new_card_number-IsCardNumber :
    (db : Db) → Returns (λ number _. IsCardNumber number) (new_card_number db)
unfolding new_card_number
new_card_number-IsCardNumber db =
    Returns-bind (λ body _. Fills 14 (9 ∷ []) body) (λ number _. IsCardNumber number)
      (fill_digits 14 (9 ∷ [])) (λ body. pure (body ++ luhn_check_digit body ∷ [])) db
      (fill_digits-Fills 14 9 [] db (omega arith, tt))
      (λ body _ (long, front, small).
        let x = luhn_check_digit body in
        (
          length-snoc body x ∙ omega (arith, long),
          head-append body x (omega (arith, long)) ∙ front,
          All-snoc body x small (luhn_check_digit-small body),
          luhn_check_digit-PassesLuhn body,
        ))
