-- ===== src/Loans/Deciding.antt =====
-- Deciding a loan (bank/loans.js, `decideLoan`): once, with its money, and with the ledger kept.
use agents_playground.Prelude.{
  ℕ, pos, ◌+ℤ◌, ◌≡◌, refl, Bool, true, false, not, Option, none, some, Option-cases, List, [], ◌∷◌,
  ◌==◌, arith, int_laws, first, update_where, Bool-cases, inl, inr, if◌then◌else◌,
}
use agents_playground.Db.{
  Loan, Db, OnOk, OnOk-map, OnOk-bind, Error, ok, err, transaction, transaction-keeps,
  transaction-OnOk, Keeps, select,
}
use agents_playground.Money.{has_id, add_cents}
use agents_playground.Ledger.Booked.{IsBooked, credit-Books}
use agents_playground.Ledger.Covered.{IsCovered, credit-NoneBelow}
use agents_playground.Ledger.Conserved.{total, IsDistinct, total-add}
use agents_playground.Loans.{
  Decision, find_loan, is_undecided, disbursement_entry, decided, decide_work, decide_loan,
}
use agents_playground.Loans.Effects.{Disbursed, Decided, decide_work-Decided}

module _ (c : Decision) (db d : Db) (h : Decided c db d) where
  Decided-IsBooked : IsBooked db → IsBooked d
  Decided-IsBooked k =
      let (l, there, waits, m, moved, accounts, entries, _) = h in
      rw (accounts, entries)
        (elim (Bool-cases c.approve) [
          | inl a ↦
              (let (r, found, e) : Disbursed c l db m = simp a at moved in
                rw e (
                  credit-Books (disbursement_entry c l (add_cents l.amount_cents r).balance_cents)
                    (db.uuids db.drawn) db.now l.amount_cents db.transactions db.accounts found refl
                    refl k))
          | inr a ↦ (let e : m ≡ db = simp a at moved in rw e k)
        ])

  Decided-IsCovered : IsCovered db → IsCovered d
  Decided-IsCovered k =
      let (l, there, waits, m, moved, accounts, _, _) = h in
      rw accounts (elim (Bool-cases c.approve) [
        | inl a ↦
            (let (r, found, e) : Disbursed c l db m = simp a at moved in
              rw e (credit-NoneBelow (has_id l.account_id) l.amount_cents db.accounts k))
        | inr a ↦ (let e : m ≡ db = simp a at moved in rw e k)
      ])

  Decided-total :
      IsDistinct db.accounts
      → total d.accounts
        ≡ total db.accounts +ℤ (if c.approve then pos (h.0).amount_cents else pos 0)
  Decided-total k =
      let (l, there, waits, m, moved, accounts, _, _) = h in
      rw accounts (elim (Bool-cases c.approve) [
        | inl a ↦
            (let (r, found, e) : Disbursed c l db m = simp a at moved in
              simp a (rw (e, total-add l.account_id l.amount_cents db.accounts k found)))
        | inr a ↦ (let e : m ≡ db = simp a at moved in simp a (rw e (omega int_laws)))
      ])

-- If the history explains every balance, it does after a decision on a loan, whatever that answers
-- or throws.
pub decide_loan-IsBooked : (c : Decision) (db : Db) → IsBooked db → IsBooked (decide_loan c db).1
unfolding decide_loan
decide_loan-IsBooked c db h = ground (
  arith,
  transaction-keeps IsBooked (decide_work c) db (λ _. h)
      (OnOk-map (λ _ d. Decided c db d) (λ _ d. IsBooked d) (decide_work c db)
        (λ _ d k. Decided-IsBooked c db d k h) (decide_work-Decided c db)),
)

-- Where no balance is below zero, none is after a decision on a loan.
pub decide_loan-IsCovered : (c : Decision) (db : Db) → IsCovered db → IsCovered (decide_loan c db).1
unfolding decide_loan
decide_loan-IsCovered c db h = ground (
  arith,
  transaction-keeps IsCovered (decide_work c) db (λ _. h)
      (OnOk-map (λ _ d. Decided c db d) (λ _ d. IsCovered d) (decide_work c db)
        (λ _ d k. Decided-IsCovered c db d k h) (decide_work-Decided c db)),
)

found_decided :
    (c : Decision) (now : ℕ) (ls : List Loan) (l : Loan)
    → first (λ x. x.id == c.loan_id) ls ≡ some l
    → first (λ x. x.id == c.loan_id) (update_where (λ x. x.id == c.loan_id) (decided c now) ls)
      ≡ some (decided c now l)
found_decided c now [] l h = cc
found_decided c now (x ∷ ls) l h = ground (arith, found_decided c now ls l)

-- What a successful decision leaves: the bank's money has grown by the amount of an approved loan
-- and by nothing else, and the loan carries the decision.
abbrev pub Outcome : Decision → Db → Db → Type 0
Outcome c db d =
    (l : Loan) × (find_loan c.loan_id db ≡ some l)
    × (is_undecided l ≡ true)
    × (total d.accounts ≡ total db.accounts +ℤ (if c.approve then pos l.amount_cents else pos 0))
    × ((now : ℕ) × (find_loan c.loan_id d ≡ some (decided c now l)))

Decided-Outcome :
    (c : Decision) (db d : Db) → IsDistinct db.accounts → Decided c db d → Outcome c db d
unfolding find_loan
Decided-Outcome c db d k (l, there, waits, m, moved, accounts, entries, loans) = (
  l,
  there,
  waits,
  Decided-total c db d (l, there, waits, m, moved, accounts, entries, loans) k,
  (m.now, rw loans (found_decided c m.now db.loans l there)),
)

pub decide_loan-Outcome :
    (c : Decision) (db : Db)
    → IsDistinct db.accounts
    → OnOk (λ _ d. Outcome c db d) (decide_loan c db)
unfolding decide_loan
decide_loan-Outcome c db k =
    OnOk-bind (λ _ d. Outcome c db d) (λ _ d. Outcome c db d) (transaction (decide_work c))
      (λ _. select (find_loan c.loan_id)) db
      (transaction-OnOk (λ _ d. Outcome c db d) (decide_work c) db
        (OnOk-map (λ _ d. Decided c db d) (λ _ d. Outcome c db d) (decide_work c db)
          (λ _ d h. Decided-Outcome c db d k h) (decide_work-Decided c db)))
      (λ _ d h. h)

-- A loan that is no longer pending is not decided again: the call throws and changes nothing.
pub decide_loan_again :
    (c : Decision) (db : Db) {l : Loan}
    → find_loan c.loan_id db ≡ some l
    → is_undecided l ≡ false
    → decide_loan c db ≡ (err Error.already_decided, db)
unfolding decide_loan decide_work
decide_loan_again c db there late = ground (arith, there, late)

is_undecided-decided : (c : Decision) (now : ℕ) (l : Loan) → is_undecided (decided c now l) ≡ false
is_undecided-decided c now l = ground arith

-- The loan is there and no longer pending.
abbrev is_answered : Option Loan → Bool
is_answered none = false
is_answered (some l) = not (is_undecided l)

abbrev IsLate : ℕ → Db → Type 0
IsLate id d = is_answered (find_loan id d) ≡ true

marked-late :
    (id : ℕ) (c : Decision) (now : ℕ) (ls : List Loan)
    → is_answered (first (λ x. x.id == id) ls) ≡ true
    → is_answered
        (first (λ x. x.id == id) (update_where (λ x. x.id == c.loan_id) (decided c now) ls))
      ≡ true
marked-late id c now [] h = h
marked-late id c now (x ∷ ls) h =
    ground (arith, marked-late id c now ls, is_undecided-decided c now x)

decide_loan-IsLate : (id : ℕ) (c : Decision) → Keeps (IsLate id) (decide_loan c)
unfolding decide_loan find_loan
decide_loan-IsLate id c db h = ground (
  arith,
  transaction-keeps (IsLate id) (decide_work c) db (λ _. h)
      (OnOk-map (λ _ d. Decided c db d) (λ _ d. IsLate id d) (decide_work c db)
        (λ _ d (l, _, _, m, _, _, _, loans). rw loans (marked-late id c m.now db.loans h))
        (decide_work-Decided c db)),
)

-- Decisions one after another, whatever each answers or throws.
pub decide_all : List Decision → Db → Db
decide_all [] d = d
decide_all (c ∷ cs) d = decide_all cs (decide_loan c d).1

decide_all-IsLate :
    (id : ℕ) (cs : List Decision) (d : Db) → IsLate id d → IsLate id (decide_all cs d)
unfolding decide_all
decide_all-IsLate id [] d h = h
decide_all-IsLate id (c ∷ cs) d h =
    decide_all-IsLate id cs (decide_loan c d).1 (decide_loan-IsLate id c d h)

late_again :
    (c : Decision) (d : Db) → IsLate c.loan_id d → decide_loan c d ≡ (err Error.already_decided, d)
late_again c d h = elim (Option-cases (find_loan c.loan_id d)) [
  | inl missing ↦ (let e : is_answered none ≡ true = rw missing at h in cc)
  | inr (l, there) ↦
      (let e : is_answered (some l) ≡ true = rw there at h in
        decide_loan_again c d {l = l} there (ground (arith, e)))
]

-- Where account ids are distinct and a decision on a loan succeeded, the loan had been pending, the
-- total of all balances has grown by the amount of an approved loan and not at all by a rejection,
-- and after any more decisions, on any loans, a decision on that loan throws and changes nothing.
pub decided_once :
    (c c' : Decision) (cs : List Decision) (db d : Db) {a : Option Loan}
    → IsDistinct db.accounts
    → c'.loan_id ≡ c.loan_id
    → decide_loan c db ≡ (ok a, d)
    → Outcome c db d
      × (decide_loan c' (decide_all cs d) ≡ (err Error.already_decided, decide_all cs d))
decided_once c c' cs db d {a} k same done =
    let o : Outcome c db d = rw done at (decide_loan-Outcome c db k) in
    let (l, there, waits, sum, (now, found)) = o in
    let late : IsLate c.loan_id d = rw found (ground (arith, is_undecided-decided c now l)) in
    (o, late_again c' (decide_all cs d) (rw same (decide_all-IsLate c.loan_id cs d late)))
