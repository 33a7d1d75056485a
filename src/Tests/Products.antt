-- ===== src/Tests/Products.antt =====
-- Loans, cards, schedules and the two limiters on concrete inputs (bank/loans.js, bank/cards.js,
-- bank/schedule.js, test-runner/src/limiter.js).
use agents_playground.Prelude.{
  ℕ, ◌+◌, ◌-◌, ◌≤◌, ◌<◌, pos, ◌+ℤ◌, true, false, [], ◌∷◌, some, ◌≡◌, ◌≢◌, refl, arith, length,
}
use agents_playground.Db.{Db, Date, Repeat, Returns, ok, err, Error}
use agents_playground.Loans.{
  Decision, decide_loan, decide_work, disburse, record_decision, find_loan, decided,
}
use agents_playground.Loans.Terms.{build_schedule}
use agents_playground.Loans.Schedules.{
  build_schedule_lem, build_schedule_settles, last_balance, sum_of, IsChained,
}
use agents_playground.Loans.Deciding.{decide_all, decided_once, Outcome}
use agents_playground.Cards.{Purchase, charge, luhn_check_digit, new_card_number, spent_on}
use agents_playground.Cards.Spending.{charge-Within, Within, charge-Answered, Answered}
use agents_playground.Cards.Luhn.{
  luhn_check_digit-detects, new_card_number-IsCardNumber, IsCardNumber,
}
use agents_playground.Scheduling.{
  Texts, next_due, is_valid_date, day_number, business_day, offset_of,
}
use agents_playground.Scheduling.Days.{
  next_due-monthly, month_later, business_day-IsFirstWeekday, IsFirstWeekday,
}
use agents_playground.Scheduling.Offsets.{advance_together, advance_clock_together}
use agents_playground.Gate.{run, idle, arrive, finish}
use agents_playground.Gate.Fair.{IsFair, gate-IsFair}
use agents_playground.Limiter.{Settings, Bucket, Buckets, text, take}
use agents_playground.Limiter.Bounded.{take-size}
use agents_playground.Tests.Bank.{bank, bank-IsDistinct, card, car_loan}

abbrev approval : Decision
approval = record { loan_id = 13; decider_id = 1; approve = true; note = ""; short_id = λ _. "13" }

abbrev purchase : Purchase
purchase = record {
  user_id = 101;
  card_id = 14;
  last4 = 9 ∷ 1 ∷ 2 ∷ 3 ∷ [];
  merchant = "Books";
  amount_cents = 400;
  today = 9;
  per_charge_bug = false;
}

charge-Answered_example : Returns (Answered purchase card bank) (charge purchase bank)
charge-Answered_example = charge-Answered purchase card bank refl

card_unused : spent_on 14 9 [] ≤ 1000
unfolding spent_on
card_unused = omega arith

charge-Within_example : Within 14 9 card (charge purchase bank).1
charge-Within_example = charge-Within purchase bank refl 14 9 card (refl, card_unused)

luhn_check_digit-detects_example :
    luhn_check_digit (4 ∷ 1 ∷ 7 ∷ []) ≢ luhn_check_digit (4 ∷ 8 ∷ 7 ∷ [])
luhn_check_digit-detects_example =
    luhn_check_digit-detects 1 8 (omega arith) (omega arith) (4 ∷ []) (7 ∷ []) (omega arith)

new_card_number-IsCardNumber_example :
    Returns (λ number _. IsCardNumber number) (new_card_number bank)
new_card_number-IsCardNumber_example = new_card_number-IsCardNumber bank

abbrev pub texts : Texts
texts = record { id_text = λ _. "15"; date_text = λ _. "2025-01-31"; amount_text = λ _. "$40.00" }

abbrev january_31 : Date
january_31 = record { year = 2025; month = 1; day = 31 }

abbrev march_1 : Date
march_1 = record { year = 2025; month = 3; day = 1 }

is_valid_january_31 : is_valid_date january_31 ≡ some true
unfolding is_valid_date
is_valid_january_31 = refl

next_due-monthly_example :
    (next_due january_31 Repeat.monthly 31 false ≡ some (month_later january_31 31))
    × (is_valid_date (month_later january_31 31) ≡ some true)
    × (day_number january_31 < day_number (month_later january_31 31))
next_due-monthly_example =
    next_due-monthly january_31 31 is_valid_january_31 (omega arith) (omega arith) (omega arith)

business_day-IsFirstWeekday_example : IsFirstWeekday january_31 (business_day january_31)
business_day-IsFirstWeekday_example = business_day-IsFirstWeekday january_31 is_valid_january_31

bank-offset : (days : ℕ) → days ≤ 3660 → offset_of 101 bank + days ≤ 3660
unfolding offset_of
bank-offset days h = omega (arith, h)

advance_clock_together_example :
    Returns
      (λ _ d. offset_of 101 d ≡ offset_of 101 bank + 3000 + 2000)
      (advance_together 101 3000 2000 bank)
advance_clock_together_example =
    advance_clock_together 101 3000 2000 bank (bank-offset 3000 (omega arith))
      (bank-offset 2000 (omega arith))

gate-IsFair_example : IsFair 1 1 (run 1 1 (arrive 7 ∷ arrive 8 ∷ arrive 9 ∷ finish 7 ∷ []) idle)
gate-IsFair_example = gate-IsFair 1 1 (arrive 7 ∷ arrive 8 ∷ arrive 9 ∷ finish 7 ∷ [])

-- Two attempts at once, then one a minute, rounded up.
abbrev login : Settings
login = record {
  capacity = 120000;
  unit = 60000;
  refilled = λ tokens ms. tokens + ms + 1;
  wait_ms = λ tokens. 60000 - tokens;
  max_entries = 2;
}

abbrev spent : Bucket
spent = record { tokens = 20000; updated_at = 1000 }

-- Another key's bucket beside it.
abbrev buckets : Buckets
buckets = ("a", spent) ∷ ("b", record { tokens = 120000; updated_at = 0 }) ∷ []

take-size_example : length (take login 2000 (text "c") (("a", spent) ∷ ("b", spent) ∷ [])).0 ≤ 2
take-size_example =
    take-size login 2000 (text "c") (("a", spent) ∷ ("b", spent) ∷ []) (omega arith) (omega arith)

build_schedule_settles_example :
    let s = build_schedule (λ b. pos 0) 1000 3 (pos 300) true in
    (last_balance (pos 1000) s.schedule ≡ pos 0)
    × (sum_of (λ x. x.principal_cents) s.schedule ≡ pos 1000)
    × (s.total_repaid ≡ pos 1000 +ℤ s.total_interest)
build_schedule_settles_example = build_schedule_settles (λ b. pos 0) 1000 2 (pos 300)

build_schedule_lem_example :
    let s = build_schedule (λ b. pos 0) 1000 3 (pos 300) false in
    (length s.schedule ≡ 3)
    × IsChained (λ b. pos 0) 1 (pos 1000) s.schedule
    × (s.total_interest ≡ sum_of (λ x. x.interest_cents) s.schedule)
    × (s.total_repaid ≡ sum_of (λ x. x.payment_cents) s.schedule)
    × (s.total_repaid +ℤ last_balance (pos 1000) s.schedule ≡ pos 1000 +ℤ s.total_interest)
build_schedule_lem_example = build_schedule_lem (λ b. pos 0) 1000 3 (pos 300) false

abbrev rejection : Decision
rejection = record approval { approve = false; note = "No" }

abbrev after_approval : Db
after_approval = (decide_loan approval bank).1

approved_now : decide_loan approval bank ≡ (ok (some (decided approval 5 car_loan)), after_approval)
unfolding decide_loan decide_work disburse record_decision find_loan
approved_now = refl

decided_once_example :
    Outcome approval bank after_approval
    × (decide_loan approval (decide_all (rejection ∷ []) after_approval)
        ≡ (err Error.already_decided, decide_all (rejection ∷ []) after_approval))
decided_once_example =
    decided_once approval approval (rejection ∷ []) bank after_approval
      {a = some (decided approval 5 car_loan)} bank-IsDistinct refl approved_now
