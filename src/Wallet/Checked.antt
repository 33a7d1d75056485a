-- ===== src/Wallet/Checked.antt =====
-- An address that was made is read back as its coin and its body (bank/wallet.js).
use agents_playground.Prelude.{
  ℕ, zero, suc, ◌+◌, ◌-◌, ◌/◌, ◌%◌, ◌≡◌, ◌≢◌, refl, sym, ap, ◌∙◌, Bool, true, false, [], ◌∷◌, ◌++◌,
  ◌==◌, arith, Chars, upper, lower, to_upper, to_lower, is_capital, all, chars_eq, length, take,
  drop, leb, ==_refl,
}
use agents_playground.Db.{ok}
use agents_playground.Wallet.Typed.{solid, trim-solid}
use agents_playground.Wallet.Addresses.{
  alphabet, prefix, body_length, checksum_length, Hash, nth, letter, encode_before, encode,
  checksum_for, checksum_value, body_digest, body_from, body_for, address_for, parse_address,
  check_parts, split_tail, is_member, is_word,
}

-- Letters of the alphabet.
abbrev in_alphabet : ℕ → Bool
in_alphabet = is_member alphabet

nth-all :
    (p : ℕ → Bool) (i : ℕ) (cs : Chars) → all p cs ≡ true → p b'0' ≡ true → p (nth i cs) ≡ true
nth-all p i [] h d = d
nth-all p zero (c ∷ cs) h d = ground arith
nth-all p (suc i) (c ∷ cs) h d = nth-all p i cs (ground arith) d

-- What is used of a letter: it is in the alphabet, no white space, and unchanged in upper case.
letter-in_alphabet : (n : ℕ) → in_alphabet (letter n) ≡ true
letter-in_alphabet n = nth-all in_alphabet (n % 32) alphabet refl refl

abbrev is_letter_of : ℕ → Bool
is_letter_of c = to_upper c == c

letter-solid : (n : ℕ) → solid (letter n) ≡ true
letter-solid n = nth-all solid (n % 32) alphabet refl refl

letter-kept : (n : ℕ) → is_letter_of (letter n) ≡ true
letter-kept n = nth-all is_letter_of (n % 32) alphabet refl refl

module _ (p : ℕ → Bool) (h : (n : ℕ) → p (letter n) ≡ true) where
  encode_before-all :
      (count left : ℕ) (out : Chars)
      → all p out ≡ true
      → all p (encode_before count left out) ≡ true
  encode_before-all zero left out a = a
  encode_before-all (suc count) left out a =
      encode_before-all count (left / 32) (letter left ∷ out) (rw (h left) a)

  body_from-all : (digest : ℕ → ℕ) (count i : ℕ) → all p (body_from digest count i) ≡ true
  body_from-all digest zero i = refl
  body_from-all digest (suc count) i = rw (h (digest i)) (body_from-all digest count (i + 1))

encode_before-length :
    (count left : ℕ) (out : Chars) → length (encode_before count left out) ≡ count + length out
encode_before-length zero left out = omega arith
encode_before-length (suc count) left out =
    omega (arith, encode_before-length count (left / 32) (letter left ∷ out))

body_from-length : (digest : ℕ → ℕ) (count i : ℕ) → length (body_from digest count i) ≡ count
body_from-length digest zero i = refl
body_from-length digest (suc count) i = ap suc (body_from-length digest count (i + 1))

-- Cutting a text where its parts meet.
take-length : (xs ys : Chars) → take (length xs) (xs ++ ys) ≡ xs
take-length [] ys = refl
take-length (x ∷ xs) ys = ap (λ zs. x ∷ zs) (take-length xs ys)

drop-length : (xs ys : Chars) → drop (length xs) (xs ++ ys) ≡ ys
drop-length [] ys = refl
drop-length (x ∷ xs) ys = drop-length xs ys

length-append : (xs ys : Chars) → length (xs ++ ys) ≡ length xs + length ys
length-append [] ys = omega arith
length-append (x ∷ xs) ys = omega (arith, length-append xs ys)

all-join :
    (p : ℕ → Bool) (xs ys : Chars) → all p xs ≡ true → all p ys ≡ true → all p (xs ++ ys) ≡ true
all-join p [] ys h k = k
all-join p (x ∷ xs) ys h k = ground (arith, all-join p xs ys)

chars_eq_refl : (cs : Chars) → chars_eq cs cs ≡ true
chars_eq_refl [] = refl
chars_eq_refl (c ∷ cs) = rw (==_refl c) (chars_eq_refl cs)

-- Case: a coin's symbol has letters only.
upper_idem : (cs : Chars) → upper (upper cs) ≡ upper cs
upper_idem [] = refl
upper_idem (c ∷ cs) = rw (upper_idem cs) (ap (λ d. d ∷ upper cs) (ground arith))

upper-kept : (cs : Chars) → all is_letter_of cs ≡ true → upper cs ≡ cs
upper-kept [] h = refl
upper-kept (c ∷ cs) h =
    let e : to_upper c ≡ c = ground arith in rw (e, upper-kept cs (ground arith)) refl

upper-lower : (cs : Chars) → all is_capital (upper cs) ≡ true → upper (lower cs) ≡ upper cs
upper-lower [] h = refl
upper-lower (c ∷ cs) h =
    let e : to_upper (to_lower c) ≡ to_upper c = ground arith in
    rw (e, upper-lower cs (ground arith)) refl

lower-solid : (cs : Chars) → all is_capital (upper cs) ≡ true → all solid (lower cs) ≡ true
lower-solid [] h = refl
lower-solid (c ∷ cs) h = ground (arith, lower-solid cs)

length-lower : (cs : Chars) → length (lower cs) ≡ length cs
length-lower [] = refl
length-lower (c ∷ cs) = ap suc (length-lower cs)

module _ (l b k : Chars) (bs : length b ≡ body_length) (ks : length k ≡ checksum_length) where
  -- What follows the prefix is cut where it was joined.
  tail_length : length (l ++ (b ++ k)) ≡ length l + 13
  tail_length = omega (arith, length-append l (b ++ k), length-append b k, bs, ks)

  tail_split : split_tail (l ++ (b ++ k)) ≡ (upper l, b, k)
  unfolding split_tail
  tail_split =
      let n : length (l ++ (b ++ k)) - 13 ≡ length l = omega (arith, tail_length) in
      rw (n, take-length l (b ++ k), drop-length l (b ++ k))
        (ap (λ (m : ℕ). (upper l, take m (b ++ k), drop m (b ++ k))) (sym bs)
          ∙ rw (take-length b k, drop-length b k) refl)

  tail_long : length l ≢ 0 → leb (length (l ++ (b ++ k))) 13 ≡ false
  tail_long some' = ground (arith, tail_length, some')

module _ (h : Hash) (user_id : ℕ) (symbol : Chars) where
  body-all :
      (p : ℕ → Bool) → ((n : ℕ) → p (letter n) ≡ true) → all p (body_for h user_id symbol) ≡ true
  unfolding body_for
  body-all p k = body_from-all p k (body_digest h user_id symbol) body_length 0

  body-length : length (body_for h user_id symbol) ≡ body_length
  unfolding body_for
  body-length = body_from-length (body_digest h user_id symbol) body_length 0

  checksum-all :
      (p : ℕ → Bool) (b : Chars)
      → ((n : ℕ) → p (letter n) ≡ true)
      → all p (checksum_for h symbol b) ≡ true
  unfolding checksum_for encode
  checksum-all p b k =
      encode_before-all p k checksum_length (checksum_value h symbol b % 32768) [] refl

  checksum-length : (b : Chars) → length (checksum_for h symbol b) ≡ checksum_length
  unfolding checksum_for encode
  checksum-length b = encode_before-length checksum_length (checksum_value h symbol b % 32768) []

  checksum-upper : (b : Chars) → checksum_for h (upper symbol) b ≡ checksum_for h symbol b
  unfolding checksum_for
  checksum-upper b = rw (upper_idem symbol) refl

checked :
    (h : Hash) (symbol b k : Chars)
    → is_word is_capital symbol ≡ true
    → is_word (is_member alphabet) b ≡ true
    → checksum_for h symbol b ≡ upper k
    → check_parts h (symbol, b, k) ≡ ok (symbol, b)
unfolding check_parts
checked h symbol b k s w e = rw (s, w, e, chars_eq_refl (upper k)) refl

letters_count :
    (symbol : Chars) → is_word is_capital (upper symbol) ≡ true → length (lower symbol) ≢ 0
letters_count [] h = λ _. cc
letters_count (c ∷ cs) h = λ e. ground (arith, e)

word_of :
    (b : Chars)
    → all (is_member alphabet) b ≡ true
    → length b ≡ body_length
    → is_word (is_member alphabet) b ≡ true
word_of [] h e = ground (arith, e)
word_of (c ∷ b) h e = h

parse_rest :
    (h : Hash) (r : Chars)
    → all solid r ≡ true
    → leb (length r) 13 ≡ false
    → parse_address h (prefix ++ r) ≡ check_parts h (split_tail r)
unfolding parse_address
parse_rest h r s long = rw (trim-solid (prefix ++ r) s, long) refl

-- A text of the prefix, a coin's letters, a body and the checksum of the two is accepted.
parsed_parts :
    (h : Hash) (symbol b : Chars)
    → is_word is_capital (upper symbol) ≡ true
    → all (is_member alphabet) b ≡ true
    → all solid b ≡ true
    → length b ≡ body_length
    → parse_address h (prefix ++ (lower symbol ++ (b ++ checksum_for h symbol b)))
      ≡ ok (upper symbol, b)
parsed_parts h symbol b letters word bare bs =
    let l = lower symbol in
    let k = checksum_for h symbol b in
    let ks = checksum-length h 0 symbol b in
    let rest : all solid (l ++ (b ++ k)) ≡ true =
      all-join solid l (b ++ k) (lower-solid symbol (ground arith))
        (all-join solid b k bare (checksum-all h 0 symbol solid b letter-solid)) in
    let kept : upper k ≡ k = upper-kept k (checksum-all h 0 symbol is_letter_of b letter-kept) in
    let some' : length l ≢ 0 = letters_count symbol letters in
    let cut : split_tail (l ++ (b ++ k)) ≡ (upper symbol, b, k) =
      tail_split l b k bs ks ∙ ap (λ s. (s, b, k)) (upper-lower symbol (ground arith)) in
    let agree : checksum_for h (upper symbol) b ≡ upper k =
      checksum-upper h 0 symbol b ∙ sym kept in
    parse_rest h (l ++ (b ++ k)) rest (tail_long l b k bs ks some')
    ∙ ap (check_parts h) cut
    ∙ checked h (upper symbol) b k letters (word_of b word bs) agree

-- Where a coin's symbol is letters only, the address made for a customer reads back as that coin
-- and the customer's body, whatever the hash.
pub parse_address-address_for :
    (h : Hash) (user_id : ℕ) (symbol : Chars)
    → is_word is_capital (upper symbol) ≡ true
    → parse_address h (address_for h user_id symbol) ≡ ok (upper symbol, body_for h user_id symbol)
unfolding address_for
parse_address-address_for h user_id symbol letters =
    parsed_parts h symbol (body_for h user_id symbol) letters
      (body-all h user_id symbol (is_member alphabet) letter-in_alphabet)
      (body-all h user_id symbol solid letter-solid) (body-length h user_id symbol)
