-- ===== src/History/Cursors.antt =====
-- Following the cursors shows the whole history once (bank/money.js, `transactionsAfter`).
use agents_playground.Prelude.{
  ℕ, zero, suc, ◌+◌, ◌≤◌, ◌<◌, ◌≡◌, refl, sym, ap, ◌∙◌, Bool, true, false, Option, none, some, List,
  [], ◌∷◌, ◌++◌, All, arith, length, take, drop, keep, ltb, Bool-cases, inl, inr, if◌then◌else◌,
}
use agents_playground.Db.{Entry}
use agents_playground.History.{
  Row, Filters, history, Cursor, cursor_of, is_older, is_newer, last_row, transactions_after,
}
use agents_playground.History.Sorted.{IsDescending, history-IsDescending}

-- Page after page from a cursor on, for so many requests at most.
unfoldable pub read_on : ℕ → ℕ → Filters → ℕ → Option Cursor → List Entry → List Row
unfolding transactions_after
read_on zero account_id f first after es = []
read_on (suc fuel) account_id f first after es =
    let p = transactions_after account_id f first after 0 es in
    let rest = read_on fuel account_id f first p.last es in
    if p.has_next_page then p.transactions ++ rest else p.transactions

keep-All : (p : Row → Bool) (rs : List Row) → All (λ s. p s ≡ true) rs → keep p rs ≡ rs
keep-All p [] h = refl
keep-All p (r ∷ rs) h = rw (h.0, keep-All p rs h.1) refl

not_older : (a b : Row) → is_newer a b ≡ true → is_newer b a ≡ false
not_older a b h = ground arith

not_older_self : (a : Row) → is_newer a a ≡ false
not_older_self a = ground arith

middle :
    (P : Row → Type 0) (before : List Row) (r : Row) (rest : List Row)
    → All P (before ++ r ∷ rest)
    → P r
middle P [] r rest h = h.0
middle P (b ∷ before) r rest h = middle P before r rest h.1

keep-every : (rs : List Row) → keep (is_older none) rs ≡ rs
keep-every [] = refl
keep-every (r ∷ rs) = ap (λ xs. r ∷ xs) (keep-every rs)

pub older_rest :
    (before : List Row) (r : Row) (rest : List Row)
    → IsDescending (before ++ r ∷ rest)
    → keep (is_older (some (cursor_of r))) (before ++ r ∷ rest) ≡ rest
older_rest [] r rest h = rw (not_older_self r) (keep-All (is_older (some (cursor_of r))) rest h.0)
older_rest (b ∷ before) r rest h =
    rw (not_older b r (middle (λ s. is_newer b s ≡ true) before r rest h.0))
      (older_rest before r rest h.1)

-- A page that is full ends with a row, and the rest follows it.
page-last :
    (first : ℕ) (r : Row) (rs : List Row)
    → suc first ≤ suc (length rs)
    → (before : List Row) × (l : Row) × (last_row (take (suc first) (r ∷ rs)) ≡ some l)
      × (r ∷ rs ≡ before ++ l ∷ drop (suc first) (r ∷ rs))
page-last zero r rs h = ([], r, refl, refl)
page-last (suc first) r [] h = absurd (omega arith)
page-last (suc first) r (s ∷ rs) h =
    let (before, l, last, cut) = page-last first s rs (omega arith) in
    (r ∷ before, l, last, ap (λ xs. r ∷ xs) cut)

take-take : (n : ℕ) (rs : List Row) → take n (take (n + 1) rs) ≡ take n rs
take-take zero rs = refl
take-take (suc n) [] = let e : suc n + 1 ≡ suc (n + 1) = omega arith in rw e refl
take-take (suc n) (r ∷ rs) =
    let e : suc n + 1 ≡ suc (n + 1) = omega arith in rw e (ap (λ xs. r ∷ xs) (take-take n rs))

more-take : (n : ℕ) (rs : List Row) → ltb n (length (take (n + 1) rs)) ≡ ltb n (length rs)
more-take zero [] = refl
more-take zero (r ∷ rs) = ground arith
more-take (suc n) [] = let e : suc n + 1 ≡ suc (n + 1) = omega arith in rw e refl
more-take (suc n) (r ∷ rs) =
    let e : suc n + 1 ≡ suc (n + 1) = omega arith in rw e (ground (arith, more-take n rs))

take-all : (n : ℕ) (rs : List Row) → length rs ≤ n → take n rs ≡ rs
take-all zero [] h = refl
take-all zero (r ∷ rs) h = absurd (omega arith)
take-all (suc n) [] h = refl
take-all (suc n) (r ∷ rs) h = ap (λ xs. r ∷ xs) (take-all n rs (omega arith))

take-drop : (n : ℕ) (rs : List Row) → take n rs ++ drop n rs ≡ rs
take-drop zero rs = refl
take-drop (suc n) [] = refl
take-drop (suc n) (r ∷ rs) = ap (λ xs. r ∷ xs) (take-drop n rs)

append_assoc : (xs ys zs : List Row) → (xs ++ ys) ++ zs ≡ xs ++ (ys ++ zs)
append_assoc [] ys zs = refl
append_assoc (x ∷ xs) ys zs = ap (λ ws. x ∷ ws) (append_assoc xs ys zs)

shorter : (n : ℕ) (rs : List Row) → n < length rs → suc (length (drop (suc n) rs)) ≤ length rs
shorter n [] h = absurd (omega arith)
shorter n (r ∷ rs) h = omega (arith, drop-le n rs)
  where
    drop-le : (n : ℕ) (rs : List Row) → length (drop n rs) ≤ length rs
    drop-le zero rs = omega arith
    drop-le (suc n) [] = omega arith
    drop-le (suc n) (r ∷ rs) = omega (arith, drop-le n rs)

module _ (account_id : ℕ) (f : Filters) (es : List Entry) (first : ℕ) where
  reads :
      (fuel : ℕ) (after : Option Cursor) (before rest : List Row)
      → history account_id f es ≡ before ++ rest
      → keep (is_older after) (history account_id f es) ≡ rest
      → length rest ≤ fuel
      → read_on fuel account_id f (suc first) after es ≡ rest
  unfolding read_on
  reads zero after before [] split older h = refl
  reads zero after before (r ∷ rest) split older h = absurd (omega arith)
  reads (suc fuel) after before [] split older h =
      let n = suc first in
      let none_left : ltb n 0 ≡ false = ground arith in
      rw (older, take-take n [], more-take n [], none_left) refl
  reads (suc fuel) after before (r ∷ rs) split older h =
      let n = suc first in
      let rest = r ∷ rs in
      elim (Bool-cases (ltb n (length rest))) [
        | inl more ↦
            let (upto, l, last, cut) = page-last first r rs (ground (arith, more)) in
            let left = drop n rest in
            let split' : history account_id f es ≡ (before ++ upto) ++ l ∷ left =
              split ∙ ap (λ xs. before ++ xs) cut ∙ sym (append_assoc before upto (l ∷ left)) in
            let older' : keep (is_older (some (cursor_of l))) (history account_id f es) ≡ left =
              (ap (λ xs. keep (is_older (some (cursor_of l))) xs) split')
              ∙ older_rest (before ++ upto) l left
                  (rw split' at (history-IsDescending account_id f es)) in
            let again =
              reads fuel (some (cursor_of l)) ((before ++ upto) ++ l ∷ []) left
                (split' ∙ sym (append_assoc (before ++ upto) (l ∷ []) left)) older'
                (omega (arith, shorter first rest (ground (arith, more)))) in
            rw (older, take-take n rest, more-take n rest, more, last, again) (take-drop n rest)
        | inr done ↦
            rw (older, take-take n rest, more-take n rest, done) (take-all n rest (ground arith))
      ]

-- With pages of at least one row, reading on from the last row of each page until there is no next
-- page, on fuel of at least the number of rows that the filter selects, ends with exactly those
-- rows, newest first.
pub read_on-history :
    (account_id : ℕ) (f : Filters) (es : List Entry) (first fuel : ℕ)
    → 1 ≤ first
    → length (history account_id f es) ≤ fuel
    → read_on fuel account_id f first none es ≡ history account_id f es
read_on-history account_id f es zero fuel some' h = absurd (omega arith)
read_on-history account_id f es (suc first) fuel some' h =
    reads account_id f es first fuel none [] (history account_id f es) refl
      (keep-every (history account_id f es)) h
