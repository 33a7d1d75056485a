-- ===== src/Scheduling/Due.antt =====
-- What running the due payments does to the ledger (bank/schedule.js, `runDue`).
use mathlib.Core.List.{reverse}
use agents_playground.Prelude.{
  ℕ, zero, suc, ◌+◌, keep, ◌≡◌, refl, Bool, true, false, Bool-cases, inl, inr, List, [], ◌∷◌, ◌&&◌,
  arith,
}
use agents_playground.Db.{Keeps, Keeps-bind, Db, Date, Error, Action, ◌>>=◌, ◌>>◌, pure}
use agents_playground.Money.Keeping.{Keeps-catch}
use agents_playground.Notify.{notify}
use agents_playground.Bills.{Bill, pay_bill}
use agents_playground.Bills.Paying.{pay_bill-IsBooked, pay_bill-IsCovered}
use agents_playground.Ledger.Booked.{IsBooked}
use agents_playground.Ledger.Covered.{IsCovered}
use agents_playground.Scheduling.Saving.{ScheduleView, is_active, joined_all, sort_by_due}
use agents_playground.Scheduling.Running.{
  Texts, bill_of, skip_unfunded, pay_period, run_period, run_one, go_on, counted, close_period,
  is_due, has_come, advance_row, renewed, run_each, run_due, max_runs_per_sweep,
}

module _ (texts : Texts) (P : Db → Type 0) (pays : (b : Bill) → Keeps P (pay_bill b))
    (same : (db d : Db)
      → d.accounts ≡ db.accounts
      → d.transactions ≡ db.transactions
      → P db
      → P d) where
  skip_unfunded-Keeps : (e : Error) → Keeps P (skip_unfunded texts e)
  skip_unfunded-Keeps e db p = ground (arith, p)

  pay_period-Keeps : (u : ℕ) (v : ScheduleView) → Keeps P (pay_period texts u v)
  unfolding pay_period
  pay_period-Keeps u v =
      let b = bill_of texts u v in
      Keeps-catch P (pay_bill b >> pure true) (skip_unfunded texts)
        (Keeps-bind P (pay_bill b) (λ _. pure true) (pays b) (λ _ d p. p)) skip_unfunded-Keeps

  close_period-Keeps :
      (u : ℕ) (today : Date) (bug : Bool) (v : ScheduleView) (paid : Bool)
      → Keeps P (close_period texts u today bug v paid)
  unfolding close_period notify advance_row
  close_period-Keeps u today bug v paid db p =
      same db (close_period texts u today bug v paid db).1 refl refl p

  run_period-Keeps :
      (u : ℕ) (today : Date) (bug : Bool) (v : ScheduleView)
      → Keeps P (run_period texts u today bug v)
  unfolding run_period
  run_period-Keeps u today bug v =
      Keeps-bind P (pay_period texts u v) (close_period texts u today bug v) (pay_period-Keeps u v)
        (close_period-Keeps u today bug v)

  go_on-Keeps :
      (next : Bool → Action ℕ)
      → ((paid : Bool) → Keeps P (next paid))
      → (o : Bool × Bool) → Keeps P (go_on texts next o)
  go_on-Keeps next h (paid, false) = λ db p. p
  go_on-Keeps next h (paid, true) =
      Keeps-bind P (next paid) (λ more. pure (counted texts paid more)) (h paid) (λ _ d p. p)

  run_one-Keeps :
      (n u : ℕ) (today : Date) (bug : Bool) (v : ScheduleView)
      → Keeps P (run_one texts n u today bug v)
  unfolding run_one
  run_one-Keeps zero u today bug v = λ db p. p
  run_one-Keeps (suc n) u today bug v = elim (Bool-cases (is_active v.0 && has_come today v.0)) [
    | inl go ↦ rw go (
        Keeps-bind P (run_period texts u today bug v)
          (go_on texts (λ paid. run_one texts n u today bug (renewed paid bug v.0, v.1, v.2)))
          (run_period-Keeps u today bug v)
          (go_on-Keeps (λ paid. run_one texts n u today bug (renewed paid bug v.0, v.1, v.2))
            (λ paid. run_one-Keeps n u today bug (renewed paid bug v.0, v.1, v.2))))
    | inr stop ↦ rw stop (λ db p. p)
  ]

  run_each-Keeps :
      (vs : List ScheduleView) (u : ℕ) (today : Date) (bug : Bool)
      → Keeps P (run_each texts vs u today bug)
  unfolding run_each
  run_each-Keeps [] u today bug = λ db p. p
  run_each-Keeps (v ∷ vs) u today bug =
      Keeps-bind P (run_one texts max_runs_per_sweep u today bug v)
        (λ paid. run_each texts vs u today bug >>= λ more. pure (paid + more))
        (run_one-Keeps max_runs_per_sweep u today bug v)
        (λ paid.
          Keeps-bind P (run_each texts vs u today bug) (λ more. pure (paid + more))
            (run_each-Keeps vs u today bug) (λ _ d p. p))

  run_due-Keeps : (u : ℕ) (today : Date) (bug : Bool) → Keeps P (run_due texts u today bug)
  unfolding run_due
  run_due-Keeps u today bug db p =
      run_each-Keeps
        (joined_all db (sort_by_due (reverse (keep (is_due texts u today) db.schedules)))) u today
        bug db p

-- If the history explains every balance, it does after a sweep of due payments, whatever it pays,
-- skips or throws, however its texts are written.
pub run_due-IsBooked :
    (texts : Texts) (u : ℕ) (today : Date) (bug : Bool) (db : Db)
    → IsBooked db
    → IsBooked (run_due texts u today bug db).1
run_due-IsBooked texts u today bug db h =
    run_due-Keeps texts IsBooked pay_bill-IsBooked
      (λ db d accounts entries h. rw (accounts, entries) h) u today bug db h

-- Where no balance is below zero, none is after a sweep of due payments, whatever it pays, skips or
-- throws.
pub run_due-IsCovered :
    (texts : Texts) (u : ℕ) (today : Date) (bug : Bool) (db : Db)
    → IsCovered db
    → IsCovered (run_due texts u today bug db).1
run_due-IsCovered texts u today bug db h =
    run_due-Keeps texts IsCovered pay_bill-IsCovered (λ db d accounts entries h. rw accounts h) u
      today bug db h
