-- ===== src/Scheduling/Days.antt =====
-- The calendar and the clock behave (bank/schedule.js, `businessDay`, `nextDue`, `advanceClock`).
use agents_playground.Prelude.{
  ℕ, zero, suc, ◌+◌, ◌-◌, ◌%◌, ◌≤◌, ◌<◌, ◌≡◌, ◌≢◌, refl, ap, Bool-cases, ◌∙◌, true, false, some,
  min, arith, ◌==◌, ◌⊎◌, inl, inr,
}
use agents_playground.Db.{Date, Repeat}
use agents_playground.Scheduling.Calendar.{
  month_length, days_in_month, is_real_date, is_valid_date, utc_year, next_day, add_days,
  day_number, day_of_week, business_day, year_after, month_after, utc, next_due,
}
use agents_playground.Scheduling.Counting.{
  leap_year, year_length, days_before-next, days_before-january, valid_bounds, days_sum,
  add_days-day_number,
}

==_sound : (a b : ℕ) → (a == b) ≡ true → a ≡ b
==_sound a b h = ground (arith, h)

==_apart : (a b : ℕ) → (a == b) ≡ false → a ≢ b
==_apart a b h = ground (arith, h)

-- A run day is a weekday, and the first one from the due date on.
abbrev pub IsFirstWeekday : Date → Date → Type 0
IsFirstWeekday d b =
    (1 ≤ day_of_week b)
    × (day_of_week b ≤ 5)
    × (((day_number b ≡ day_number d) × (1 ≤ day_of_week d) × (day_of_week d ≤ 5))
        ⊎ ((day_number b ≡ day_number d + 1) × (day_of_week d ≡ 0))
        ⊎ ((day_number b ≡ day_number d + 2) × (day_of_week d ≡ 6)))

day_of_week_lem : (d : Date) → day_of_week d ≡ (day_number d + 6) % 7
unfolding day_of_week
day_of_week_lem d = refl

business_day-cases :
    (d : Date)
    → ((business_day d ≡ add_days 2 d) × (day_of_week d ≡ 6))
      ⊎ ((business_day d ≡ add_days 1 d) × (day_of_week d ≡ 0))
      ⊎ ((business_day d ≡ d) × (day_of_week d ≢ 6) × (day_of_week d ≢ 0))
unfolding business_day
business_day-cases d = elim (Bool-cases (day_of_week d == 6)) [
  | inl u ↦ rw u (inl (refl, ==_sound (day_of_week d) 6 u))
  | inr u ↦ elim (Bool-cases (day_of_week d == 0)) [
    | inl v ↦ rw (u, v) (inr (inl (refl, ==_sound (day_of_week d) 0 v)))
    | inr v ↦
        rw (u, v) (inr (inr (refl, ==_apart (day_of_week d) 6 u, ==_apart (day_of_week d) 0 v)))
  ]
]

-- A date that is accepted is a day of the calendar, up to the year 9999.
valid-real : (d : Date) → is_valid_date d ≡ some true → (is_real_date d ≡ true) × (d.year ≤ 9999)
unfolding is_valid_date is_real_date
valid-real d h = ground (arith, h)

real-valid : (d : Date) → is_real_date d ≡ true → d.year ≤ 9999 → is_valid_date d ≡ some true
unfolding is_valid_date is_real_date month_length
real-valid d h le = ground (arith, h, le)

-- The run day of a date that is accepted is the first weekday from that date on: the date itself
-- from Monday to Friday, and the Monday after a Saturday or a Sunday.
pub business_day-IsFirstWeekday :
    (d : Date) → is_valid_date d ≡ some true → IsFirstWeekday d (business_day d)
business_day-IsFirstWeekday d valid =
    let (h, _) = valid-real d valid in
    let today = day_of_week_lem d in
    elim (business_day-cases d) [
      | inl (e, saturday) ↦ rw e (
          ground
            (arith, today, saturday, day_of_week_lem (add_days 2 d), add_days-day_number 2 d h))
      | inr (inl (e, sunday)) ↦
          rw e (
            ground
              (arith, today, sunday, day_of_week_lem (add_days 1 d), add_days-day_number 1 d h))
      | inr (inr (e, a, b)) ↦ rw e (ground (arith, today, a, b))
    ]

december : (y : ℕ) → month_length y 12 ≡ 31
unfolding month_length
december y = refl

next_day-within :
    (y m k : ℕ)
    → k < month_length y m
    → next_day (record { year = y; month = m; day = k })
      ≡ record { year = y; month = m; day = k + 1 }
unfolding next_day
next_day-within y m k h = ground (arith, h)

month_length-bounds : (y m : ℕ) → (28 ≤ month_length y m) × (month_length y m ≤ 31)
unfolding month_length
month_length-bounds y m = ground arith

valid_day :
    (d : Date) → is_real_date d ≡ true → (d.day ≤ month_length d.year d.month) × (d.month ≤ 12)
unfolding is_real_date
valid_day d h = ground (arith, h)

valid_month :
    (d : Date)
    → 1 ≤ d.month
    → d.month ≤ 12
    → 1 ≤ d.day
    → d.day ≤ month_length d.year d.month
    → is_real_date d ≡ true
unfolding is_real_date
valid_month d a b c e = ground (arith, a, b, c, e)

add_days-within :
    (n y m k : ℕ)
    → k + n ≤ month_length y m
    → add_days n (record { year = y; month = m; day = k })
      ≡ record { year = y; month = m; day = k + n }
unfolding add_days next_day
add_days-within zero y m k h = let e : k + 0 ≡ k = omega arith in rw e refl
add_days-within (suc n) y m k h =
    let e : next_day (record { year = y; month = m; day = k })
        ≡ record { year = y; month = m; day = k + 1 } =
      next_day-within y m k (omega (arith, h)) in
    let s : k + suc n ≡ (k + 1) + n = omega arith in
    rw (e, s) (add_days-within n y m (k + 1) (omega (arith, h)))

utc-within :
    (y m k : ℕ)
    → 1 ≤ k
    → k ≤ month_length y m
    → 100 ≤ y
    → utc y m k ≡ record { year = y; month = m; day = k }
utc-within y m k a b c =
    let same : utc_year y ≡ y = ground arith in
    let e : 1 + (k - 1) ≡ k = omega (arith, a) in
    rw same (rw e at (add_days-within (k - 1) y m 1 (omega (arith, a, b))))

-- The monthly repeat: the day that the schedule was made for, or the month's last.
abbrev pub month_later : Date → ℕ → Date
month_later d anchor = record {
  year = year_after d;
  month = month_after d;
  day = min anchor (month_length (year_after d) (month_after d));
}

next_due_clamped :
    (d : Date) (anchor : ℕ)
    → 100 ≤ year_after d
    → next_due d Repeat.monthly anchor false
      ≡ some (
          utc
            (year_after d)
            (month_after d)
            (min anchor (month_length (year_after d) (month_after d))))
unfolding next_due days_in_month
next_due_clamped d anchor late =
    let same : utc_year (year_after d) ≡ year_after d = ground arith in
    ap
      (λ y. some (utc (year_after d) (month_after d) (min anchor (month_length y (month_after d)))))
      same

next_month-starts :
    (d : Date)
    → is_real_date d ≡ true
    → day_number d < day_number (record { year = year_after d; month = month_after d; day = 1 })
next_month-starts d h =
    let (m1, d1) = valid_bounds d h in
    let (dd, m12) = valid_day d h in
    let here = days_sum d.year d.month d.day in
    elim (Bool-cases (d.month == 12)) [
      | inl u ↦
          (let e = ==_sound d.month 12 u in
            rw u (
              ground (
                arith,
                here,
                dd,
                d1,
                e,
                days_sum (d.year + 1) 1 1,
                days_before-january (d.year + 1),
                leap_year d.year,
                year_length d.year,
                december d.year,
              )))
      | inr u ↦ rw u (
          omega (
            arith,
            here,
            dd,
            d1,
            days_sum d.year (d.month + 1) 1,
            days_before-next d.year d.month m1,
          ))
    ]

-- For a date that is accepted and an anchor day from 1, where the following month is in the years
-- 100 to 9999, the monthly repeat without the planted fault is the anchor day of that month or its
-- last day, it is a date that is accepted, and it is later.
pub next_due-monthly :
    (d : Date) (anchor : ℕ)
    → is_valid_date d ≡ some true
    → 1 ≤ anchor
    → 100 ≤ year_after d
    → year_after d ≤ 9999
    → (next_due d Repeat.monthly anchor false ≡ some (month_later d anchor))
      × (is_valid_date (month_later d anchor) ≡ some true)
      × (day_number d < day_number (month_later d anchor))
next_due-monthly d anchor valid a from to =
    let (h, _) = valid-real d valid in
    let y = year_after d in
    let m = month_after d in
    let k = min anchor (month_length y m) in
    let dim = month_length-bounds y m in
    let (m1, d1) = valid_bounds d h in
    let (dd, m12) = valid_day d h in
    let k1 : 1 ≤ k = omega (arith, a, dim.0) in
    let kd : k ≤ month_length y m = omega arith in
    (
      next_due_clamped d anchor from ∙ ap some (utc-within y m k k1 kd from),
      real-valid (month_later d anchor)
          (valid_month (month_later d anchor) (ground (arith, m1)) (ground (arith, m1, m12)) k1 kd)
          to,
      omega (arith, next_month-starts d h, days_sum y m 1, days_sum y m k, k1),
    )
