-- ===== src/History/Pages.antt =====
-- The numbered pages together are the whole history (bank/money.js, `listTransactions`).
use native.Mathlib.Nat.{div-add-mod', mod-lt, mul-le-mul_right}
use agents_playground.Prelude.{
  ◌<◌, ◌%◌, ℕ, zero, suc, ◌+◌, ◌-◌, ◌*◌, ◌/◌, ◌≤◌, ◌≡◌, refl, sym, ap, ◌∙◌, List, [], ◌∷◌, ◌++◌,
  arith, length, take, drop, max,
}
use agents_playground.Db.{Entry}
use agents_playground.History.{Row, Filters, history, list_transactions, pages_of}

-- The pages from a number on, for so many pages.
unfoldable pub pages_from : ℕ → Filters → ℕ → ℕ → ℕ → List Entry → List Row
unfolding list_transactions
pages_from account_id f size zero page es = []
pages_from account_id f size (suc count) page es =
    (list_transactions account_id f page size es).transactions
    ++ pages_from account_id f size count (page + 1) es

drop-drop : (m n : ℕ) (rs : List Row) → drop m (drop n rs) ≡ drop (n + m) rs
drop-drop m zero rs = let e : 0 + m ≡ m = omega arith in rw e refl
drop-drop zero (suc n) [] = let e : suc n + zero ≡ suc n = omega arith in rw e refl
drop-drop (suc m) (suc n) [] = let e : suc n + suc m ≡ suc (n + suc m) = omega arith in rw e refl
drop-drop m (suc n) (r ∷ rs) =
    let e : suc n + m ≡ suc (n + m) = omega arith in rw e (drop-drop m n rs)

take-drop : (n : ℕ) (rs : List Row) → take n rs ++ drop n rs ≡ rs
take-drop zero rs = refl
take-drop (suc n) [] = refl
take-drop (suc n) (r ∷ rs) = ap (λ xs. r ∷ xs) (take-drop n rs)

drop-all : (n : ℕ) (rs : List Row) → length rs ≤ n → drop n rs ≡ []
drop-all zero [] h = refl
drop-all zero (r ∷ rs) h = absurd (omega arith)
drop-all (suc n) [] h = refl
drop-all (suc n) (r ∷ rs) h = drop-all n rs (omega arith)

enough : (total size : ℕ) → 1 ≤ size → total ≤ (0 + pages_of total size) * size
enough total size h =
    let n = total + (size - 1) in
    let q = n / size in
    let whole : q * size + n % size ≡ n = div-add-mod' n size in
    let part : n % size < size = mod-lt n h in
    let most : q ≤ 0 + max 1 q = omega arith in
    let grown : q * size ≤ (0 + max 1 q) * size = mul-le-mul_right size most in
    omega (arith, whole, part, grown)

module _ (account_id : ℕ) (f : Filters) (size : ℕ) (es : List Entry) where
  pages_from-drop :
      (count page : ℕ)
      → length (history account_id f es) ≤ (page + count) * size
      → pages_from account_id f size count (page + 1) es
        ≡ drop (page * size) (history account_id f es)
  unfolding pages_from
  pages_from-drop zero page h =
      let rows = history account_id f es in
      ap (λ xs. xs) (rw (drop-all (page * size) rows (rw (e page) at h)) refl)
    where
      e : (page : ℕ) → page + 0 ≡ page
      e page = omega arith
  pages_from-drop (suc count) page h =
      let rows = history account_id f es in
      let here : page + 1 - 1 ≡ page = omega arith in
      let on : page * size + size ≡ (page + 1) * size = grind arith in
      let same : page + suc count ≡ page + 1 + count = omega arith in
      rw (here, pages_from-drop count (page + 1) (rw same at h))
        (ap (λ xs. take size (drop (page * size) rows) ++ xs)
            (rw on at (sym (drop-drop size (page * size) rows)))
          ∙ take-drop size (drop (page * size) rows))

  -- With pages of at least one row, the pages by number, from the first to the number of pages that
  -- it reports, joined are everything that the filter selects of an account's history, newest
  -- first, each row once.
  pub list_transactions-history :
      1 ≤ size
      → pages_from account_id f size (list_transactions account_id f 1 size es).total_pages 1 es
        ≡ history account_id f es
  unfolding list_transactions
  list_transactions-history h =
      let rows = history account_id f es in
      let start : 0 * size ≡ 0 = omega arith in
      pages_from-drop (pages_of (length rows) size) 0 (enough (length rows) size h)
      ∙ ap (λ n. drop n rows) start
