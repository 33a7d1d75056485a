-- ===== src/Scheduling/Saving.antt =====
-- Keeping schedules (bank/schedule.js, `createSchedule` to `cancelSchedule`).
use agents_playground.Prelude.{
  ℕ, String, Bool, true, false, List, [], ◌∷◌, ◌++◌, Option, none, some, ◌==◌, ◌&&◌, first, keep,
  update_where, if◌then◌else◌,
}
use agents_playground.Db.{
  Db, Account, Payee, Date, Repeat, Schedule, ScheduleStatus, Action, pure, select, execute,
  random_uuid, ◌>>=◌, ◌>>◌,
}
use agents_playground.Scheduling.Calendar.{date_leb}

-- A schedule with its payee and its account.
abbrev pub ScheduleView : Type 0
ScheduleView = Schedule × Payee × Account

abbrev pub is_active : Schedule → Bool
is_active s = elim s.status [
  | ScheduleStatus.active ↦ Bool.true
  | ScheduleStatus.done ↦ Bool.false
  | ScheduleStatus.failed ↦ Bool.false
  | ScheduleStatus.cancelled ↦ Bool.false
]

abbrev pub joined : Db → Schedule → Option ScheduleView
joined db s = elim (first (λ (p : Payee). p.id == s.payee_id) db.payees) [
  | none ↦ none
  | some p ↦ elim (first (λ (a : Account). a.id == s.account_id) db.accounts) [
    | none ↦ none
    | some a ↦ some (s, p, a)
  ]
]

abbrev pub joined_first : Db → Option Schedule → Option ScheduleView
joined_first db none = none
joined_first db (some s) = joined db s

abbrev pub joined_all : Db → List Schedule → List ScheduleView
joined_all db [] = []
joined_all db (s ∷ ss) = elim (joined db s) [
  | none ↦ joined_all db ss
  | some v ↦ v ∷ joined_all db ss
]

-- One of the customer's own schedules.
unfoldable pub find_schedule : ℕ → ℕ → Db → Option ScheduleView
find_schedule user_id id db =
    joined_first db (first (λ (s : Schedule). s.user_id == user_id && s.id == id) db.schedules)

-- The soonest first; among those of one date the order of the list stays.
abbrev pub insert_by_due : Schedule → List Schedule → List Schedule
insert_by_due s [] = s ∷ []
insert_by_due s (t ∷ ts) =
    if date_leb s.next_due t.next_due then s ∷ t ∷ ts else t ∷ insert_by_due s ts

abbrev pub sort_by_due : List Schedule → List Schedule
sort_by_due [] = []
sort_by_due (s ∷ ss) = insert_by_due s (sort_by_due ss)

abbrev pub is_over : Schedule → Bool
is_over s = if is_active s then false else true

-- Active ones first, then the finished ones, each by date and then the newest first.
unfoldable pub list_schedules : ℕ → Db → List ScheduleView
list_schedules user_id db =
    let own = keep (λ (s : Schedule). s.user_id == user_id) db.schedules in
    joined_all db (sort_by_due (keep is_active own) ++ sort_by_due (keep is_over own))

-- The argument of `createSchedule`; of the account and the payee the ids are read.
pub record NewSchedule : Type 0 where
  pub user_id : ℕ
  pub from_id : ℕ
  pub payee_id : ℕ
  pub amount_cents : ℕ
  pub memo : String
  pub repeat : Repeat
  pub first_due : Date

abbrev pub schedule_row : NewSchedule → ℕ → Schedule
schedule_row n id = record {
  id = id;
  user_id = n.user_id;
  account_id = n.from_id;
  payee_id = n.payee_id;
  amount_cents = n.amount_cents;
  memo = n.memo;
  repeat = n.repeat;
  anchor_day = n.first_due.day;
  next_due = n.first_due;
  status = ScheduleStatus.active;
  runs = 0;
  last_run_on = none;
  last_result = none;
}

unfoldable pub create_schedule : NewSchedule → Action (Option ScheduleView)
unfolding find_schedule
create_schedule n = do
  id ← random_uuid
  execute (λ db. record db { schedules = schedule_row n id ∷ db.schedules })
  select (find_schedule n.user_id id)

abbrev pub cancellable : ℕ → ℕ → Schedule → Bool
cancellable user_id id s = s.user_id == user_id && (s.id == id && is_active s)

abbrev pub cancelled : Schedule → Schedule
cancelled s = record s { status = ScheduleStatus.cancelled }

unfoldable pub cancel_schedule : ℕ → ℕ → Action (Option ScheduleView)
unfolding find_schedule
cancel_schedule user_id id = do
  found ← select (λ db. first (cancellable user_id id) db.schedules)
  execute
      (λ db. record db { schedules = update_where (cancellable user_id id) cancelled db.schedules })
  elim found [ none ↦ pure none | some _ ↦ select (find_schedule user_id id) ]
