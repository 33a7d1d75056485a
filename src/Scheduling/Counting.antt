-- ===== src/Scheduling/Counting.antt =====
-- The calendar counts days (bank/schedule.js, `addDays`).
use agents_playground.Prelude.{
  ℕ, zero, suc, ◌+◌, ◌-◌, ◌≤◌, ◌≡◌, refl, true, arith, ◌⊎◌, inl, inr, if◌then◌else◌,
}
use agents_playground.Db.{Date}
use agents_playground.Scheduling.Calendar.{
  is_leap, month_length, is_real_date, next_day, add_days, days_before, years_before, day_number,
}

pub leap_year : (y : ℕ) → years_before (suc y) ≡ years_before y + (if is_leap y then 366 else 365)
unfolding years_before is_leap
leap_year y = ground arith

next_day-valid : (d : Date) → is_real_date d ≡ true → is_real_date (next_day d) ≡ true
unfolding is_real_date next_day month_length
next_day-valid d h = ground arith

pub year_length : (y : ℕ) → days_before y 12 + 31 ≡ (if is_leap y then 366 else 365)
unfolding days_before month_length
year_length y = ground arith

days_before-suc : (y m : ℕ) → 1 ≤ m → days_before y (suc m) ≡ days_before y m + month_length y m
unfolding days_before
days_before-suc y zero h = absurd (omega (arith, h))
days_before-suc y (suc m) h = refl

pub days_before-next :
    (y m : ℕ) → 1 ≤ m → days_before y (m + 1) ≡ days_before y m + month_length y m
days_before-next y m h = let e : m + 1 ≡ suc m = omega arith in rw e (days_before-suc y m h)

pub days_before-january : (y : ℕ) → days_before y 1 ≡ 0
unfolding days_before
days_before-january y = refl

-- The three ways to the next day.
next_day-cases :
    (d : Date)
    → is_real_date d ≡ true
    → (next_day d ≡ record d { day = d.day + 1 })
      ⊎ ((next_day d ≡ record { year = d.year; month = d.month + 1; day = 1 })
          × (d.day ≡ month_length d.year d.month))
      ⊎ ((next_day d ≡ record { year = d.year + 1; month = 1; day = 1 })
          × (d.day ≡ 31)
          × (d.month ≡ 12))
unfolding is_real_date next_day month_length
next_day-cases d h = ground arith

pub valid_bounds : (d : Date) → is_real_date d ≡ true → (1 ≤ d.month) × (1 ≤ d.day)
unfolding is_real_date
valid_bounds d h = ground (arith, h)

pub days_sum :
    (y m n : ℕ)
    → day_number (record { year = y; month = m; day = n })
      ≡ years_before y + days_before y m + (n - 1)
unfolding day_number
days_sum y m n = refl

next_day-day_number :
    (d : Date) → is_real_date d ≡ true → day_number (next_day d) ≡ suc (day_number d)
next_day-day_number d h =
    let (m, n) = valid_bounds d h in
    let here = days_sum d.year d.month d.day in
    elim (next_day-cases d h) [
      | inl e ↦ rw e (omega (arith, here, days_sum d.year d.month (d.day + 1), n))
      | inr (inl (e, last)) ↦ rw e (
          omega (
            arith,
            here,
            n,
            last,
            days_sum d.year (d.month + 1) 1,
            days_before-next d.year d.month m,
          ))
      | inr (inr (e, last, december)) ↦ rw e (
          ground (
            arith,
            here,
            last,
            december,
            days_sum (d.year + 1) 1 1,
            days_before-january (d.year + 1),
            leap_year d.year,
            year_length d.year,
          ))
    ]

pub add_days-valid : (n : ℕ) (d : Date) → is_real_date d ≡ true → is_real_date (add_days n d) ≡ true
unfolding add_days
add_days-valid zero d h = h
add_days-valid (suc n) d h = add_days-valid n (next_day d) (next_day-valid d h)

-- Adding days to a real date, by months and leap years, counts that many days on from it in the
-- calendar.
pub add_days-day_number :
    (n : ℕ) (d : Date) → is_real_date d ≡ true → day_number (add_days n d) ≡ day_number d + n
unfolding add_days
add_days-day_number zero d h = omega arith
add_days-day_number (suc n) d h =
    omega (arith, add_days-day_number n (next_day d) (next_day-valid d h), next_day-day_number d h)
