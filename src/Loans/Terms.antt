-- ===== src/Loans/Terms.antt =====
-- The price of a loan (bank/loans.js): the rate, the payment and the month-by-month schedule. What
-- the source computes in floating point and rounds (the two adjustments of the rate, the payment,
-- and a month's interest on a balance) is given.
use agents_playground.Prelude.{
  ℕ, zero, suc, ◌+◌, ◌*◌, ℤ, pos, ◌+ℤ◌, ◌-ℤ◌, Bool, not, List, [], ◌∷◌, ◌==◌, ◌&&◌, if◌then◌else◌,
  ltb_ℤ,
}

abbrev pub base_bp : ℕ
base_bp = 420

abbrev pub term_bp_per_month : ℕ
term_bp_per_month = 6

abbrev pub min_apr_bp : ℕ
min_apr_bp = 350

abbrev pub max_apr_bp : ℕ
max_apr_bp = 1600

-- A value kept between low and high: `Math.min(high, Math.max(low, value))`.
abbrev pub clamp : ℤ → ℤ → ℤ → ℤ
clamp value low high =
    let raised = if ltb_ℤ value low then low else value in
    if ltb_ℤ high raised then high else raised

-- `rateFor`, from the rounded discount and exposure.
unfoldable pub rate_for : ℕ → ℕ → ℕ → ℤ
rate_for term_months discount_bp exposure_bp =
    clamp (pos (base_bp + term_months * term_bp_per_month) -ℤ pos discount_bp +ℤ pos exposure_bp)
      (pos min_apr_bp) (pos max_apr_bp)

-- One month of a schedule.
pub record Installment : Type 0 where
  pub month : ℕ
  pub payment_cents : ℤ
  pub principal_cents : ℤ
  pub interest_cents : ℤ
  pub balance_cents : ℤ

pub record Schedule : Type 0 where
  pub schedule : List Installment
  pub total_interest : ℤ
  pub total_repaid : ℤ

-- A month's installment. The last payment takes whatever is left, where `adjust_last` says so.
abbrev pub installment : (ℤ → ℤ) → ℤ → Bool → ℕ → ℕ → ℤ → Installment
installment interest payment adjust_last term month balance =
    let due = interest balance in
    let settles = month == term && adjust_last in
    let principal = if settles then balance else payment -ℤ due in
    record {
      month = month;
      payment_cents = if settles then balance +ℤ due else payment;
      principal_cents = principal;
      interest_cents = due;
      balance_cents = balance -ℤ principal;
    }

-- The loop of `buildSchedule` over the months that are left, with the totals so far.
unfoldable pub months_from : (ℤ → ℤ) → ℤ → Bool → ℕ → ℕ → ℕ → ℤ → ℤ → ℤ → Schedule
months_from interest payment adjust_last term zero month balance total_interest total_repaid =
    record { schedule = []; total_interest = total_interest; total_repaid = total_repaid }
months_from interest payment adjust_last term (suc left) month balance total_interest total_repaid =
    let row = installment interest payment adjust_last term month balance in
    let rest =
      months_from interest payment adjust_last term left (month + 1) row.balance_cents
        (total_interest +ℤ row.interest_cents) (total_repaid +ℤ row.payment_cents) in
    record {
      schedule = row ∷ rest.schedule;
      total_interest = rest.total_interest;
      total_repaid = rest.total_repaid;
    }

unfoldable pub build_schedule : (ℤ → ℤ) → ℕ → ℕ → ℤ → Bool → Schedule
unfolding months_from
build_schedule interest amount_cents term_months payment adjust_last =
    months_from interest payment adjust_last term_months term_months 1 (pos amount_cents) (pos 0)
      (pos 0)

-- What the floating-point part of `quote` yields for one ask.
pub record Pricing : Type 0 where
  pub discount_bp : ℕ
  pub exposure_bp : ℕ
  -- `Math.round(exact)` and `Math.floor(exact)` at a rate.
  pub rounded_payment : ℤ → ℤ
  pub floored_payment : ℤ → ℤ
  -- `Math.round(balance * rate)` at a rate.
  pub interest : ℤ → ℤ → ℤ

pub record Quote : Type 0 where
  pub amount_cents : ℕ
  pub term_months : ℕ
  pub apr_basis_points : ℤ
  pub monthly_payment_cents : ℤ
  pub total_interest_cents : ℤ
  pub total_repaid_cents : ℤ
  pub schedule : List Installment

-- INTENTIONAL DEFECT (bankLoanRounding): with the flag the payment loses its cents, and the last
-- month never settles.
unfoldable pub quote : Pricing → ℕ → ℕ → Bool → Quote
unfolding rate_for build_schedule
quote pricing amount_cents term_months rounding_bug =
    let apr = rate_for term_months pricing.discount_bp pricing.exposure_bp in
    let payment =
      if rounding_bug then pricing.floored_payment apr else pricing.rounded_payment apr in
    let built =
      build_schedule (pricing.interest apr) amount_cents term_months payment (not rounding_bug) in
    record {
      amount_cents = amount_cents;
      term_months = term_months;
      apr_basis_points = apr;
      monthly_payment_cents = payment;
      total_interest_cents = built.total_interest;
      total_repaid_cents = built.total_repaid;
      schedule = built.schedule;
    }
