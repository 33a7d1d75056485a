-- ===== src/Scheduling/Calendar.antt =====
-- Calendar arithmetic (bank/schedule.js, `isValidDate` to `nextDue`). A text `YYYY-MM-DD` is a
-- record of its three numbers, and the methods of JavaScript's `Date` count days in the proleptic
-- Gregorian calendar. A text has four digits for the year: past 9999-12-31 the source's text is cut
-- short and no date, while the model counts on; the theorems stop there.
use agents_playground.Prelude.{
  ℕ, zero, suc, ◌+◌, ◌-◌, ◌*◌, ◌/◌, ◌%◌, min, Bool, false, not, ◌&&◌, ◌||◌, ◌==◌, ltb, leb, Option,
  none, some, if◌then◌else◌,
}
use agents_playground.Db.{Date, Repeat}

unfoldable pub is_leap : ℕ → Bool
is_leap y = y % 4 == 0 && (not (y % 100 == 0) || y % 400 == 0)

-- How many days a month has; months count from 1.
unfoldable pub month_length : ℕ → ℕ → ℕ
unfolding is_leap
month_length y m =
    if m == 2
    then (if is_leap y then 29 else 28)
    else if (m == 4 || m == 6) || (m == 9 || m == 11)
    then 30
    else 31

-- `Date.UTC` takes the years 0 to 99 for 1900 to 1999.
abbrev pub utc_year : ℕ → ℕ
utc_year y = if ltb y 100 then 1900 + y else y

-- `daysInMonth`, which goes through `Date.UTC`.
unfoldable pub days_in_month : ℕ → ℕ → ℕ
unfolding month_length
days_in_month y m = month_length (utc_year y) m

-- A day of the calendar.
unfoldable pub is_real_date : Date → Bool
unfolding month_length
is_real_date d =
    (leb 1 d.month && leb d.month 12) && (leb 1 d.day && leb d.day (month_length d.year d.month))

-- `/^\d{4}-\d{2}-\d{2}$/`
abbrev pub has_shape : Date → Bool
has_shape d = leb d.year 9999 && (leb d.month 99 && leb d.day 99)

-- What `Date` parses: a day up to 31 that the month has not rolls over into the next one.
abbrev pub is_parsed : Date → Bool
is_parsed d = (leb 1 d.month && leb d.month 12) && (leb 1 d.day && leb d.day 31)

-- `isValidDate`, or nothing where it throws: `parseDate` asks for the text of an invalid `Date`.
unfoldable pub is_valid_date : Date → Option Bool
unfolding month_length
is_valid_date d =
    if not (has_shape d)
    then some false
    else if not (is_parsed d)
    then none
    else some (leb d.day (month_length d.year d.month))

unfoldable pub next_day : Date → Date
unfolding month_length
next_day d =
    if ltb d.day (month_length d.year d.month)
    then record d { day = d.day + 1 }
    else if ltb d.month 12
    then record { year = d.year; month = d.month + 1; day = 1 }
    else record { year = d.year + 1; month = 1; day = 1 }

-- `setUTCDate(getUTCDate() + days)`
unfoldable pub add_days : ℕ → Date → Date
unfolding next_day
add_days zero d = d
add_days (suc n) d = add_days n (next_day d)

-- The days of a year before a month, and from the first of January of the year 0.
unfoldable pub days_before : ℕ → ℕ → ℕ
unfolding month_length
days_before y zero = 0
days_before y (suc zero) = 0
days_before y (suc (suc m)) = days_before y (suc m) + month_length y (suc m)

unfoldable pub years_before : ℕ → ℕ
years_before y = 365 * y + (y + 3) / 4 + (y + 399) / 400 - (y + 99) / 100

unfoldable pub day_number : Date → ℕ
unfolding days_before years_before
day_number d = years_before d.year + days_before d.year d.month + (d.day - 1)

-- 0 Sunday … 6 Saturday; the first of January of the year 0 is a Saturday.
unfoldable pub day_of_week : Date → ℕ
unfolding day_number
day_of_week d = (day_number d + 6) % 7

-- A payment due on a Saturday or a Sunday runs on the Monday after.
unfoldable pub business_day : Date → Date
unfolding day_of_week add_days
business_day d =
    if day_of_week d == 6 then add_days 2 d else if day_of_week d == 0 then add_days 1 d else d

-- `Date.UTC(year, month, day)`, which rolls a day that does not exist over into the month after.
abbrev pub utc : ℕ → ℕ → ℕ → Date
utc y m d = add_days (d - 1) (record { year = utc_year y; month = m; day = 1 })

abbrev pub year_after : Date → ℕ
year_after d = if d.month == 12 then d.year + 1 else d.year

abbrev pub month_after : Date → ℕ
month_after d = if d.month == 12 then 1 else d.month + 1

-- The date after one for a repeat, or none; with `overflow_bug` the day is not clamped.
unfoldable pub next_due : Date → Repeat → ℕ → Bool → Option Date
unfolding add_days days_in_month
next_due d Repeat.weekly anchor overflow_bug = some (add_days 7 d)
next_due d Repeat.monthly anchor overflow_bug =
    let day =
      if overflow_bug then anchor else min anchor (days_in_month (year_after d) (month_after d)) in
    some (utc (year_after d) (month_after d) day)
next_due d Repeat.once anchor overflow_bug = none

-- The order of the texts.
abbrev pub date_leb : Date → Date → Bool
date_leb a b =
    ltb a.year b.year
    || (a.year == b.year && (ltb a.month b.month || (a.month == b.month && leb a.day b.day)))

abbrev pub same_date : Date → Date → Bool
same_date a b = a.year == b.year && (a.month == b.month && a.day == b.day)
