-- ===== src/Loans/Effects.antt =====
-- What the transaction of a decision has done (bank/loans.js, `decideLoan`).
use mathlib.Core.Path.{subst}
use agents_playground.Prelude.{
  ◌+◌, ◌≡◌, refl, sym, ap, true, not, some, ◌∷◌, ◌==◌, arith, first, update_where, Option-cases,
  Bool-cases, inl, inr, if◌then◌else◌,
}
use agents_playground.Db.{
  Account, Loan, Db, OnOk, OnOk-bind, row_or_throw-OnOk, throw_if-OnOk, Error, ok, ◌>>◌, throw_if,
}
use agents_playground.Money.{has_id, add_cents, to_entry}
use agents_playground.Loans.{
  Decision, find_loan, is_undecided, disbursement_entry, disburse, disburse_if, decided,
  record_decision, decide_work,
}

-- The state after a disbursement to the row `r`.
abbrev disbursed : Decision → Loan → Account → Db → Db
disbursed c l r db = record db {
  accounts = update_where (has_id l.account_id) (add_cents l.amount_cents) db.accounts;
  transactions =
      to_entry (disbursement_entry c l (add_cents l.amount_cents r).balance_cents)
        (db.uuids db.drawn) db.now
      ∷ db.transactions;
  drawn = db.drawn + 1;
}

abbrev pub Disbursed : Decision → Loan → Db → Db → Type 0
Disbursed c l db d =
    (r : Account) × (first (has_id l.account_id) db.accounts ≡ some r) × (d ≡ disbursed c l r db)

disburse-Disbursed :
    (c : Decision) (l : Loan) (db : Db) → OnOk (λ _ d. Disbursed c l db d) (disburse c l db)
unfolding disburse
disburse-Disbursed c l db = elim (Option-cases (first (has_id l.account_id) db.accounts)) [
  | inl missing ↦ ground (arith, missing)
  | inr (r, there) ↦
      (let e : disburse c l db ≡ (ok tt, disbursed c l r db) = ground (arith, there) in
        subst (OnOk (λ _ d. Disbursed c l db d)) (sym e) (r, there, refl))
]

-- What a decision that succeeds has done: the loan waited; an approval paid it out, a rejection
-- moved nothing; and every row of the loan is marked.
abbrev pub Decided : Decision → Db → Db → Type 0
Decided c db d =
    (l : Loan) × (find_loan c.loan_id db ≡ some l)
    × (is_undecided l ≡ true)
    × (m : Db) × (if c.approve then Disbursed c l db m else m ≡ db)
    × (d.accounts ≡ m.accounts)
    × (d.transactions ≡ m.transactions)
    × (d.loans ≡ update_where (λ x. x.id == c.loan_id) (decided c m.now) db.loans)

disburse_if-moved :
    (c : Decision) (l : Loan) (db : Db)
    → OnOk (λ _ m. if c.approve then Disbursed c l db m else m ≡ db) (disburse_if c l db)
disburse_if-moved c l db = elim (Bool-cases c.approve) [
  | inl a ↦ simp a (disburse-Disbursed c l db)
  | inr a ↦ simp a
]

moved-loans :
    (c : Decision) (l : Loan) (db m : Db)
    → (if c.approve then Disbursed c l db m else m ≡ db)
    → m.loans ≡ db.loans
moved-loans c l db m h = elim (Bool-cases c.approve) [
  | inl a ↦ (let k : Disbursed c l db m = simp a at h in ap (λ (d : Db). d.loans) k.2)
  | inr a ↦ (let e : m ≡ db = simp a at h in ap (λ (d : Db). d.loans) e)
]

pub decide_work-Decided : (c : Decision) (db : Db) → OnOk (λ _ d. Decided c db d) (decide_work c db)
unfolding decide_work record_decision
decide_work-Decided c db =
    row_or_throw-OnOk (λ _ d. Decided c db d) (find_loan c.loan_id db)
      (λ l.
        throw_if (not (is_undecided l)) Error.already_decided
        >> (disburse_if c l >> record_decision c l))
      db
      (λ l there.
        throw_if-OnOk (λ _ d. Decided c db d) (not (is_undecided l)) Error.already_decided
          (disburse_if c l >> record_decision c l) db
          (λ waits.
            OnOk-bind (λ _ m. if c.approve then Disbursed c l db m else m ≡ db)
              (λ _ d. Decided c db d) (disburse_if c l) (λ _. record_decision c l) db
              (disburse_if-moved c l db)
              (λ _ m h. (
                l,
                there,
                ground (arith, waits),
                m,
                h,
                refl,
                refl,
                rw (moved-loans c l db m h) refl,
              ))))
