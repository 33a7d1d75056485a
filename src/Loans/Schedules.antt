-- ===== src/Loans/Schedules.antt =====
-- What a loan's schedule adds up to (bank/loans.js, `buildSchedule` and `quote`).
use agents_playground.Prelude.{
  ℕ, zero, suc, ◌+◌, ℤ, pos, ◌+ℤ◌, ◌≤ℤ◌, ◌≡◌, refl, ap, Bool, true, List, [], ◌∷◌, ◌==◌, ◌&&◌,
  arith, int_laws, length, Bool-cases, inl, inr,
}
use agents_playground.Loans.Terms.{
  Installment, installment, months_from, build_schedule, rate_for, min_apr_bp, max_apr_bp,
}

abbrev pub sum_of : (Installment → ℤ) → List Installment → ℤ
sum_of f [] = pos 0
sum_of f (x ∷ xs) = f x +ℤ sum_of f xs

-- The balance after the last row, or the given one where there is none.
abbrev pub last_balance : ℤ → List Installment → ℤ
last_balance b [] = b
last_balance b (x ∷ xs) = last_balance x.balance_cents xs

-- Each row starts from the balance before it: the payment splits into principal and interest, and
-- the principal comes off the balance.
abbrev pub IsChained : (ℤ → ℤ) → ℕ → ℤ → List Installment → Type 0
IsChained interest month balance [] = Unit
IsChained interest month balance (x ∷ xs) =
    (x.month ≡ month)
    × (x.interest_cents ≡ interest balance)
    × (x.payment_cents ≡ x.principal_cents +ℤ x.interest_cents)
    × (x.balance_cents +ℤ x.principal_cents ≡ balance)
    × IsChained interest (month + 1) x.balance_cents xs

module _ (interest : ℤ → ℤ) (payment : ℤ) (adjust : Bool) (term : ℕ) where
  months_from-IsChained :
      (left month : ℕ) (balance i p : ℤ)
      → IsChained interest month balance
          (months_from interest payment adjust term left month balance i p).schedule
  unfolding months_from
  months_from-IsChained zero month balance i p = tt
  months_from-IsChained (suc left) month balance i p =
      let row = installment interest payment adjust term month balance in
      (
        refl,
        refl,
        elim (Bool-cases (month == term && adjust)) [
          | inl s ↦ rw s refl
          | inr s ↦ rw s (omega int_laws)
        ],
        omega int_laws,
        months_from-IsChained left (month + 1) row.balance_cents (i +ℤ row.interest_cents)
            (p +ℤ row.payment_cents),
      )

  months_from-length :
      (left month : ℕ) (balance i p : ℤ)
      → length (months_from interest payment adjust term left month balance i p).schedule ≡ left
  unfolding months_from
  months_from-length zero month balance i p = refl
  months_from-length (suc left) month balance i p =
      let row = installment interest payment adjust term month balance in
      ap suc (
        months_from-length left (month + 1) row.balance_cents (i +ℤ row.interest_cents)
          (p +ℤ row.payment_cents))

  -- The totals are those of the rows.
  months_from-totals :
      (left month : ℕ) (balance i p : ℤ)
      → let s = months_from interest payment adjust term left month balance i p in
        (s.total_interest ≡ i +ℤ sum_of (λ x. x.interest_cents) s.schedule)
        × (s.total_repaid ≡ p +ℤ sum_of (λ x. x.payment_cents) s.schedule)
  unfolding months_from
  months_from-totals zero month balance i p = (omega int_laws, omega int_laws)
  months_from-totals (suc left) month balance i p =
      let row = installment interest payment adjust term month balance in
      let (a, b) =
        months_from-totals left (month + 1) row.balance_cents (i +ℤ row.interest_cents)
          (p +ℤ row.payment_cents) in
      (rw a (omega int_laws), rw b (omega int_laws))

  -- In the last month of a schedule that settles, nothing is left.
  months_from-settles :
      (left month : ℕ) (balance i p : ℤ)
      → adjust ≡ true
      → month + left ≡ term
      → last_balance balance
          (months_from interest payment adjust term (suc left) month balance i p).schedule
        ≡ pos 0
  unfolding months_from
  months_from-settles zero month balance i p settles e =
      let last : (month == term && adjust) ≡ true = ground arith in rw last (omega int_laws)
  months_from-settles (suc left) month balance i p settles e =
      let row = installment interest payment adjust term month balance in
      months_from-settles left (month + 1) row.balance_cents (i +ℤ row.interest_cents)
        (p +ℤ row.payment_cents) settles (omega arith)

-- In a chained schedule the principals are what the balance lost, and the payments are the
-- principals and the interest.
chained_sums :
    (interest : ℤ → ℤ) (month : ℕ) (balance : ℤ) (xs : List Installment)
    → IsChained interest month balance xs
    → (sum_of (λ x. x.principal_cents) xs +ℤ last_balance balance xs ≡ balance)
      × (sum_of (λ x. x.payment_cents) xs
          ≡ sum_of (λ x. x.principal_cents) xs +ℤ sum_of (λ x. x.interest_cents) xs)
chained_sums interest month balance [] h = (omega int_laws, omega int_laws)
chained_sums interest month balance (x ∷ xs) (m, i, pay, off, rest) =
    let (a, b) = chained_sums interest (month + 1) x.balance_cents xs rest in
    (grind (int_laws, a, off), rw (b, pay) (omega int_laws))

-- A schedule has one row for each month, numbered from 1; each row charges the interest on what is
-- still owed and lowers the balance by its principal; the totals are the sums of the rows; and what
-- is repaid and what is still owed at the end add up to the loan and the interest.
pub build_schedule_lem :
    (interest : ℤ → ℤ) (amount term : ℕ) (payment : ℤ) (adjust : Bool)
    → let s = build_schedule interest amount term payment adjust in
      (length s.schedule ≡ term)
      × IsChained interest 1 (pos amount) s.schedule
      × (s.total_interest ≡ sum_of (λ x. x.interest_cents) s.schedule)
      × (s.total_repaid ≡ sum_of (λ x. x.payment_cents) s.schedule)
      × (s.total_repaid +ℤ last_balance (pos amount) s.schedule ≡ pos amount +ℤ s.total_interest)
unfolding build_schedule
build_schedule_lem interest amount term payment adjust =
    let chain =
      months_from-IsChained interest payment adjust term term 1 (pos amount) (pos 0) (pos 0) in
    let (a, b) =
      months_from-totals interest payment adjust term term 1 (pos amount) (pos 0) (pos 0) in
    let (c, d) = chained_sums interest 1 (pos amount) _ chain in
    (
      months_from-length interest payment adjust term term 1 (pos amount) (pos 0) (pos 0),
      chain,
      rw a (omega int_laws),
      rw b (omega int_laws),
      rw (a, b, d) (grind (int_laws, c)),
    )

-- A schedule of at least one month that settles its last payment pays the loan off, whatever the
-- interest function and the payment: nothing is owed at the end, the principals add up to the loan,
-- and what is repaid is the loan and the interest.
pub build_schedule_settles :
    (interest : ℤ → ℤ) (amount term : ℕ) (payment : ℤ)
    → let s = build_schedule interest amount (suc term) payment true in
      (last_balance (pos amount) s.schedule ≡ pos 0)
      × (sum_of (λ x. x.principal_cents) s.schedule ≡ pos amount)
      × (s.total_repaid ≡ pos amount +ℤ s.total_interest)
unfolding build_schedule
build_schedule_settles interest amount term payment =
    let s =
      months_from interest payment true (suc term) (suc term) 1 (pos amount) (pos 0) (pos 0) in
    let chain =
      months_from-IsChained interest payment true (suc term) (suc term) 1 (pos amount) (pos 0)
        (pos 0) in
    let (a, b) =
      months_from-totals interest payment true (suc term) (suc term) 1 (pos amount) (pos 0)
        (pos 0) in
    let (c, d) = chained_sums interest 1 (pos amount) s.schedule chain in
    let z =
      months_from-settles interest payment true (suc term) term 1 (pos amount) (pos 0) (pos 0) refl
        (omega arith) in
    (z, grind (int_laws, c, z), rw (a, b, d) (grind (int_laws, c, z)))

-- The rate of every offer lies between 3.50% and 16.00%.
pub rate_bounds :
    (term discount exposure : ℕ)
    → (pos min_apr_bp ≤ℤ rate_for term discount exposure)
      × (rate_for term discount exposure ≤ℤ pos max_apr_bp)
unfolding rate_for
rate_bounds term discount exposure = ground arith
