-- ===== src/Scheduling/Clocks.antt =====
-- The customer's clock (bank/schedule.js, `getClock`, `advanceClock`, `resetClock`).
use agents_playground.Prelude.{ℕ, ◌+◌, not, ◌∷◌, none, some, ◌==◌, ltb, first, keep, update_where}
use agents_playground.Db.{Db, Date, Clock, Error, Action, select, execute, throw_if, ◌>>=◌, ◌>>◌}
use agents_playground.Scheduling.Calendar.{add_days}

-- `MAX_OFFSET_DAYS`
abbrev pub max_offset_days : ℕ
max_offset_days = 3660

pub record ClockView : Type 0 where
  pub real_today : Date
  pub offset_days : ℕ
  pub today : Date

unfoldable pub offset_of : ℕ → Db → ℕ
offset_of user_id db = elim (first (λ (c : Clock). c.user_id == user_id) db.clocks) [
  | none ↦ 0
  | some c ↦ c.offset_days
]

unfoldable pub get_clock : ℕ → Db → ClockView
unfolding offset_of add_days
get_clock user_id db = record {
  real_today = db.real_today;
  offset_days = offset_of user_id db;
  today = add_days (offset_of user_id db) db.real_today;
}

abbrev pub later : ℕ → Clock → Clock
later days c = record c { offset_days = c.offset_days + days }

-- `INSERT … ON CONFLICT (user_id) DO UPDATE`
abbrev pub upsert_clock : ℕ → ℕ → Db → Db
upsert_clock user_id days db = record db {
  clocks = elim (first (λ (c : Clock). c.user_id == user_id) db.clocks) [
    | none ↦ record { user_id = user_id; offset_days = days } ∷ db.clocks
    | some _ ↦ update_where (λ c. c.user_id == user_id) (later days) db.clocks
  ];
}

-- The first part of `advanceClock`: up to ten years in all.
unfoldable pub check_clock : ℕ → ℕ → Action (Unit {0})
unfolding get_clock
check_clock user_id days = do
  clock ← select (get_clock user_id)
  throw_if (ltb max_offset_days (clock.offset_days + days)) Error.clock_too_far

-- The second part. No transaction is around the two: other calls may run in between.
unfoldable pub move_clock : ℕ → ℕ → Action ClockView
unfolding get_clock
move_clock user_id days = do execute (upsert_clock user_id days); select (get_clock user_id)

-- A call that nothing interrupts.
unfoldable pub advance_clock : ℕ → ℕ → Action ClockView
unfolding check_clock move_clock
advance_clock user_id days = check_clock user_id days >> move_clock user_id days

-- Back on the real date.
unfoldable pub reset_clock : ℕ → Action ClockView
unfolding get_clock
reset_clock user_id = do
  execute (λ db. record db { clocks = keep (λ c. not (c.user_id == user_id)) db.clocks })
  select (get_clock user_id)
