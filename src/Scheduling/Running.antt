-- ===== src/Scheduling/Running.antt =====
-- Running what is due (bank/schedule.js, `runDue`, `runOne`).
use mathlib.Core.List.{reverse}
use agents_playground.Prelude.{
  ℕ, zero, suc, ◌+◌, pos, ◌-ℤ◌, String, join, text_eq, Bool, true, false, List, [], ◌∷◌, none, some,
  ◌==◌, ◌&&◌, first, keep, update_where, if◌then◌else◌,
}
use agents_playground.Db.{
  Date, Repeat, Schedule, ScheduleStatus, NoteKind, Link, Error, Action, pure, throw, select,
  execute, ◌>>=◌, ◌>>◌,
}
use agents_playground.Money.{catch}
use agents_playground.Notify.{Note, notify}
use agents_playground.Bills.{Bill, pay_bill}
use agents_playground.Scheduling.Calendar.{next_due, business_day, date_leb, same_date}
use agents_playground.Scheduling.Saving.{ScheduleView, is_active, joined_all, sort_by_due}

-- `MAX_RUNS_PER_SWEEP`
abbrev pub max_runs_per_sweep : ℕ
max_runs_per_sweep = 60

-- How the code writes an id, a date and an amount of cents in its texts.
pub record Texts : Type 0 where
  pub id_text : ℕ → String
  pub date_text : Date → String
  pub amount_text : ℕ → String

abbrev pub repeat_text : Repeat → String
repeat_text Repeat.once = "once"
repeat_text Repeat.weekly = "weekly"
repeat_text Repeat.monthly = "monthly"

-- Whether the run day has come.
abbrev pub has_come : Date → Schedule → Bool
has_come today s = date_leb (business_day s.next_due) today

-- A one-time payment is done or failed; a repeat stays active.
abbrev pub status_after : Repeat → Bool → ScheduleStatus
status_after Repeat.once paid = if paid then ScheduleStatus.done else ScheduleStatus.failed
status_after Repeat.weekly paid = ScheduleStatus.active
status_after Repeat.monthly paid = ScheduleStatus.active

-- `next ?? current.nextDue`
abbrev pub due_after : Schedule → Bool → Date
due_after s overflow_bug = elim (next_due s.next_due s.repeat s.anchor_day overflow_bug) [
  | none ↦ s.next_due
  | some d ↦ d
]

abbrev pub moved_on : Date → Bool → Bool → Schedule → Schedule → Schedule
moved_on today paid overflow_bug current row = record row {
  runs = row.runs + 1;
  last_run_on = some today;
  last_result = some paid;
  status = status_after current.repeat paid;
  next_due = due_after current overflow_bug;
}

-- The compare-and-set on the due date.
abbrev pub still_at : Schedule → Schedule → Bool
still_at current row =
    row.id == current.id && (is_active row && same_date row.next_due current.next_due)

-- `{ ...current, status, nextDue }`
abbrev pub renewed : Bool → Bool → Schedule → Schedule
renewed paid overflow_bug current = record current {
  status = status_after current.repeat paid;
  next_due = due_after current overflow_bug;
}

-- Whether the row was still there, and its new state.
unfoldable pub advance_row : Date → Bool → Bool → Schedule → Action Bool
unfolding business_day next_due
advance_row today paid overflow_bug current = do
  found ← select (λ db. first (still_at current) db.schedules)
  execute (λ db. record db {
    schedules =
        update_where (still_at current) (moved_on today paid overflow_bug current) db.schedules;
  })
  pure (elim found [ none ↦ Bool.false | some _ ↦ Bool.true ])

module _ (texts : Texts) where
  -- A key made of the schedule and its date.
  abbrev pub schedule_key : Schedule → String
  schedule_key s =
      join "scheduled:" (join (texts.id_text s.id) (join ":" (texts.date_text s.next_due)))

  abbrev pub bill_of : ℕ → ScheduleView → Bill
  bill_of user_id (s, p, a) = record {
    user_id = user_id;
    from_id = s.account_id;
    payee_id = s.payee_id;
    payee_name = p.name;
    payee_reference = p.reference;
    amount_cents = s.amount_cents;
    memo = if text_eq s.memo "" then join "Scheduled payment, " (repeat_text s.repeat) else s.memo;
    key = some (schedule_key s);
  }

  -- Not enough money skips this period; any other error stops the run.
  abbrev pub skip_unfunded : Error → Action Bool
  skip_unfunded Error.insufficient_funds = pure false
  skip_unfunded e = throw e

  unfoldable pub pay_period : ℕ → ScheduleView → Action Bool
  pay_period user_id v = catch (pay_bill (bill_of user_id v) >> pure true) skip_unfunded

  abbrev pub paid_note : ℕ → ScheduleView → Date → Note
  paid_note user_id (s, p, a) today = record {
    user_id = user_id;
    kind = NoteKind.scheduled_paid;
    title =
        join "Scheduled payment of "
          (join (texts.amount_text s.amount_cents) (join " to " (join p.name " was paid")));
    body = join "Due " (
        join (texts.date_text s.next_due)
          (join ", paid from " (join a.name (join " on " (join (texts.date_text today) ".")))));
    link = Link.page "/bank/bills";
    amount_cents = some (pos 0 -ℤ pos s.amount_cents);
  }

  abbrev pub skipped_note : ℕ → ScheduleView → Note
  skipped_note user_id (s, p, a) = record {
    user_id = user_id;
    kind = NoteKind.scheduled_failed;
    title =
        join "Scheduled payment of "
          (join (texts.amount_text s.amount_cents) (join " to " (join p.name " was not paid")));
    body = join "Due " (
        join (texts.date_text s.next_due) (
          join ": " (
            join a.name (
              join " did not hold "
                (join (texts.amount_text s.amount_cents) ". This payment was skipped.")))));
    link = Link.page "/bank/bills";
    amount_cents = none;
  }

  -- Tell the customer, and move the row on.
  unfoldable pub close_period : ℕ → Date → Bool → ScheduleView → Bool → Action (Bool × Bool)
  unfolding notify advance_row
  close_period user_id today overflow_bug v paid = do
    notify (if paid then paid_note user_id v today else skipped_note user_id v)
    moved ← advance_row today paid overflow_bug v.0
    pure (paid, moved)

  -- One turn of the loop. Whether the period was paid, and whether the row was still there.
  unfoldable pub run_period : ℕ → Date → Bool → ScheduleView → Action (Bool × Bool)
  unfolding pay_period close_period
  run_period user_id today overflow_bug v =
      pay_period user_id v >>= close_period user_id today overflow_bug v

  -- `if (result === "paid") paid += 1`
  abbrev pub counted : Bool → ℕ → ℕ
  counted paid n = if paid then suc n else n

  -- Another sweep that moved the row on ends the loop.
  abbrev pub go_on : (Bool → Action ℕ) → Bool × Bool → Action ℕ
  go_on next (paid, false) = pure 0
  go_on next (paid, true) = next paid >>= λ more. pure (counted paid more)

  -- The loop, with the turns that are left: how many periods were paid.
  unfoldable pub run_one : ℕ → ℕ → Date → Bool → ScheduleView → Action ℕ
  unfolding run_period business_day next_due
  run_one zero user_id today overflow_bug v = pure 0
  run_one (suc n) user_id today overflow_bug v =
      if is_active v.0 && has_come today v.0
      then run_period user_id today overflow_bug v
        >>= go_on
            (λ paid. run_one n user_id today overflow_bug (renewed paid overflow_bug v.0, v.1, v.2))
      else pure 0

  unfoldable pub run_each : List ScheduleView → ℕ → Date → Bool → Action ℕ
  unfolding run_one
  run_each [] user_id today overflow_bug = pure 0
  run_each (v ∷ vs) user_id today overflow_bug = do
    paid ← run_one max_runs_per_sweep user_id today overflow_bug v
    more ← run_each vs user_id today overflow_bug
    pure (paid + more)

  abbrev pub is_due : ℕ → Date → Schedule → Bool
  is_due user_id today s = s.user_id == user_id && (is_active s && has_come today s)

  -- Every schedule of this customer whose run day has come, the soonest first and then the oldest.
  unfoldable pub run_due : ℕ → Date → Bool → Action ℕ
  unfolding run_each business_day
  run_due user_id today overflow_bug = do
    due ←
        select
          (λ db. joined_all db (sort_by_due (reverse (keep (is_due user_id today) db.schedules))))
    run_each due user_id today overflow_bug
