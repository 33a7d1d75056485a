-- ===== src/Trading/Digits.antt =====
-- The texts that `formatAtoms` writes: their digits and what they stand for (bank/trading.js).
use agents_playground.Prelude.{
  ℕ, zero, suc, ◌+◌, ◌-◌, ◌*◌, ◌/◌, ◌%◌, ◌^◌, ◌≤◌, ◌<◌, ◌≡◌, refl, ap, true, false, [], ◌∷◌, ◌++◌,
  ◌==◌, arith, ltb, Chars, number_from, is_digit, is_empty, all, length, Bool-cases, inl, inr,
}
use agents_playground.Trading.Amounts.{digits_before, zeros, trim_zeros, before_zeros}

step_back : (n : ℕ) → n / 10 * 10 + (b'0' + n % 10 - b'0') ≡ n
step_back n = omega arith

pub digits_before-value :
    (fuel n : ℕ) (cs : Chars)
    → n ≤ fuel
    → number_from 0 (digits_before fuel n cs) ≡ number_from n cs
unfolding digits_before
digits_before-value zero n cs h = ap (λ k. number_from k cs) (omega arith)
digits_before-value (suc fuel) n cs h = elim (Bool-cases (ltb n 10)) [
  | inl small ↦ rw small (ap (λ k. number_from k cs) (omega arith))
  | inr large ↦
      rw (large, digits_before-value fuel (n / 10) ((b'0' + n % 10) ∷ cs) (ground arith))
        (ap (λ k. number_from k cs) (step_back n))
]

pub digits_before-digits :
    (fuel n : ℕ) (cs : Chars)
    → n ≤ fuel
    → all is_digit cs ≡ true
    → all is_digit (digits_before fuel n cs) ≡ true
unfolding digits_before
digits_before-digits zero n cs h d = ground arith
digits_before-digits (suc fuel) n cs h d = elim (Bool-cases (ltb n 10)) [
  | inl small ↦ ground (arith, small)
  | inr large ↦
      rw large
        (digits_before-digits fuel (n / 10) ((b'0' + n % 10) ∷ cs) (ground arith) (ground arith))
]

-- Under 10^(k+1), k+1 digits are enough, and under n+1 digits there is one at least.
pub digits_before-length :
    (fuel k n : ℕ) (cs : Chars)
    → n < 10 ^ suc k
    → length (digits_before fuel n cs) ≤ suc k + length cs
unfolding digits_before
digits_before-length zero k n cs h = omega arith
digits_before-length (suc fuel) zero n cs h = ground arith
digits_before-length (suc fuel) (suc k) n cs h = elim (Bool-cases (ltb n 10)) [
  | inl small ↦ rw small (omega arith)
  | inr large ↦
      rw large
        (omega (arith, digits_before-length fuel k (n / 10) ((b'0' + n % 10) ∷ cs) (omega arith)))
]

pub digits_before-written : (fuel n : ℕ) (cs : Chars) → is_empty (digits_before fuel n cs) ≡ false
unfolding digits_before
digits_before-written zero n cs = refl
digits_before-written (suc fuel) n cs = elim (Bool-cases (ltb n 10)) [
  | inl small ↦ rw small refl
  | inr large ↦ rw large (digits_before-written fuel (n / 10) ((b'0' + n % 10) ∷ cs))
]

pub all-append :
    (xs ys : Chars)
    → all is_digit xs ≡ true
    → all is_digit ys ≡ true
    → all is_digit (xs ++ ys) ≡ true
all-append [] ys h k = k
all-append (x ∷ xs) ys h k = ground (arith, all-append xs ys)

pub all-zeros : (k : ℕ) → all is_digit (zeros k) ≡ true
all-zeros zero = refl
all-zeros (suc k) = all-zeros k

pub zeros-value : (k : ℕ) (cs : Chars) → number_from 0 (zeros k ++ cs) ≡ number_from 0 cs
zeros-value zero cs = refl
zeros-value (suc k) cs = zeros-value k cs

pub length-zeros : (k : ℕ) (cs : Chars) → length (zeros k ++ cs) ≡ k + length cs
length-zeros zero cs = omega arith
length-zeros (suc k) cs = omega (arith, length-zeros k cs)

one_more :
    (c : ℕ) (cs t : Chars)
    → cs ≡ t ++ zeros (length cs - length t)
    → c ∷ cs ≡ c ∷ t ++ zeros (suc (length cs) - suc (length t))
one_more c cs t e =
    let n : suc (length cs) - suc (length t) ≡ length cs - length t = omega arith in
    rw n (ap (λ xs. c ∷ xs) e)

-- A text without its last zeros, and these.
before_zeros-split :
    (c : ℕ) (cs : Chars) (t : Chars)
    → cs ≡ t ++ zeros (length cs - length t)
    → length t ≤ length cs
    → (c ∷ cs ≡ before_zeros c t ++ zeros (suc (length cs) - length (before_zeros c t)))
      × (length (before_zeros c t) ≤ suc (length cs))
before_zeros-split c cs [] e le = elim (Bool-cases (c == b'0')) [
  | inl zero' ↦ rw zero' (
      let d : c ≡ b'0' = ground arith in
      let n : suc (length cs) - 0 ≡ suc (length cs - 0) = omega arith in
      (rw (d, n) (ap (λ xs. b'0' ∷ xs) e), omega arith))
  | inr other ↦ rw other (one_more c cs [] e, omega arith)
]
before_zeros-split c cs (d ∷ ds) e le = (one_more c cs (d ∷ ds) e, omega arith)

pub trim_zeros-split :
    (cs : Chars)
    → (cs ≡ trim_zeros cs ++ zeros (length cs - length (trim_zeros cs)))
      × (length (trim_zeros cs) ≤ length cs)
trim_zeros-split [] = (refl, omega arith)
trim_zeros-split (c ∷ cs) =
    before_zeros-split c cs (trim_zeros cs) (trim_zeros-split cs).0 (trim_zeros-split cs).1

before_zeros-digits :
    (c : ℕ) (t : Chars)
    → is_digit c ≡ true
    → all is_digit t ≡ true
    → all is_digit (before_zeros c t) ≡ true
before_zeros-digits c [] h k = ground arith
before_zeros-digits c (d ∷ ds) h k = ground arith

pub trim_zeros-digits : (cs : Chars) → all is_digit cs ≡ true → all is_digit (trim_zeros cs) ≡ true
trim_zeros-digits [] h = refl
trim_zeros-digits (c ∷ cs) h =
    before_zeros-digits c (trim_zeros cs) (ground arith) (trim_zeros-digits cs (ground arith))
