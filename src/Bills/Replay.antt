-- ===== src/Bills/Replay.antt =====
-- A repeated idempotency key returns the first payment (bank/bills.js, `payBill`).
use mathlib.Core.Path.{subst}
use agents_playground.Prelude.{
  ℕ, List, [], ◌≡◌, refl, sym, ap, ◌∙◌, String, truthy, Bool, true, false, Option, none, some,
  first, ◌∷◌, ◌==◌, arith, Option-cases, Bool-cases, inl, inr, text_eq, text_eq→eq, text_eq_refl,
  ==_refl, ==_iff,
}
use agents_playground.Db.{
  Db, OnOk, OnOk-map, ok, transaction-keeps, transaction-OnOk, BillPayment, Keeps, rollback,
}
use agents_playground.Bills.{
  Bill, PaymentView, BillAnswer, payment_row, pay_work, committed_payment, pay_bill, find_payment,
  find_payment_by_key, join_payee, same_bill_key,
}
use agents_playground.Bills.Paying.{Paid, pay_work-Paid}

-- The answer is what the key finds afterwards.
abbrev IsAnswer : Bill → BillAnswer → Db → Type 0
IsAnswer b a d = a.0 ≡ find_payment_by_key b.user_id (truthy b.key) d

found_by_key :
    (b : Bill) (id : ℕ) (db d : Db) (k : String)
    → truthy b.key ≡ some k
    → Paid b db id d
    → find_payment_by_key b.user_id (some k) d ≡ find_payment id d
unfolding find_payment find_payment_by_key
found_by_key b id db d k key (r, found, (accounts, entries, payments, _)) =
    rw payments (ground (arith, key, ==_refl b.user_id, ==_refl id, text_eq_refl k))

committed_payment-IsAnswer :
    (b : Bill) (db : Db) {k : String}
    → truthy b.key ≡ some k
    → OnOk (IsAnswer b) (committed_payment b db)
unfolding committed_payment
committed_payment-IsAnswer b db {k} key = ground (
  arith,
  key,
  transaction-OnOk (λ id d. find_payment_by_key b.user_id (some k) d ≡ find_payment id d)
      (pay_work b) db
      (OnOk-map (Paid b db) (λ id d. find_payment_by_key b.user_id (some k) d ≡ find_payment id d)
        (pay_work b db) (λ id d h. found_by_key b id db d k key h) (pay_work-Paid b db)),
)

pay_bill-IsAnswer :
    (b : Bill) (db : Db) {k : String} → truthy b.key ≡ some k → OnOk (IsAnswer b) (pay_bill b db)
unfolding pay_bill
pay_bill-IsAnswer b db key = ground (arith, committed_payment-IsAnswer b db key)

known_bill_key :
    (b : Bill) (d : Db) {p : PaymentView}
    → find_payment_by_key b.user_id (truthy b.key) d ≡ some p
    → pay_bill b d ≡ (ok (some p, true), d)
unfolding pay_bill
known_bill_key b d h = ground (arith, h)

-- What a key finds, kept.
abbrev Found : ℕ → String → PaymentView → Db → Type 0
Found u k v d = find_payment_by_key u (some k) d ≡ some v

join-same :
    (o : Option BillPayment) (db d : Db) → d.payees ≡ db.payees → join_payee o d ≡ join_payee o db
join-same none db d e = refl
join-same (some t) db d e = rw e refl

module _ (u : ℕ) (k : String) (v : PaymentView) where
  -- A new row has another key than one that is found.
  new_row-other :
      (b : Bill) (id now : ℕ) (db : Db)
      → Found u k v db
      → find_payment_by_key b.user_id (truthy b.key) db ≡ none
      → same_bill_key u k (payment_row b id now) ≡ false
  new_row-other b id now db found new = elim (Option-cases (truthy b.key)) [
    | inl unkeyed ↦ rw unkeyed (ground arith)
    | inr (k', keyed) ↦ rw keyed (elim (Bool-cases (text_eq k' k)) [
      | inr differ ↦ ground (arith, differ)
      | inl alike ↦ elim (Bool-cases (b.user_id == u)) [
        | inr other ↦ ground (arith, other)
        | inl own ↦
            (let e : k' ≡ k = text_eq→eq k' k alike in
              let e' : b.user_id ≡ u = (==_iff b.user_id u).0 own in
              let new' : find_payment_by_key u (some k) db ≡ none = rw (keyed, e, e') at new in cc)
      ]
    ])
  ]

  Paid-Found :
      (b : Bill) (db : Db) (id : ℕ) (d : Db)
      → find_payment_by_key b.user_id (truthy b.key) db ≡ none
      → Found u k v db
      → Paid b db id d
      → Found u k v d
  unfolding find_payment_by_key
  Paid-Found b db id d new found (r, _, (_, _, payments, payees)) =
      let other = new_row-other b id db.now db found new in
      let kept : first (same_bill_key u k) d.bill_payments
          ≡ first (same_bill_key u k) db.bill_payments =
        rw payments (ground (arith, other)) in
      ap (λ o. join_payee o d) kept
      ∙ join-same (first (same_bill_key u k) db.bill_payments) db d payees
      ∙ found

  rollback-Found : (db db' : Db) → Found u k v db → Found u k v (rollback db db')
  unfolding find_payment_by_key
  rollback-Found db db' found =
      join-same (first (same_bill_key u k) db.bill_payments) db (rollback db db') refl ∙ found

  committed_payment-Found :
      (b : Bill) (db : Db)
      → find_payment_by_key b.user_id (truthy b.key) db ≡ none
      → Found u k v db
      → Found u k v (committed_payment b db).1
  unfolding committed_payment
  committed_payment-Found b db new found = ground (
    arith,
    transaction-keeps (Found u k v) (pay_work b) db (λ db'. rollback-Found db db' found)
        (OnOk-map (Paid b db) (λ _ d. Found u k v d) (pay_work b db)
          (λ id d h. Paid-Found b db id d new found h) (pay_work-Paid b db)),
  )

  pay_bill-Found : (b : Bill) → Keeps (Found u k v) (pay_bill b)
  unfolding pay_bill
  pay_bill-Found b db found =
      elim (Option-cases (find_payment_by_key b.user_id (truthy b.key) db)) [
        | inl new ↦ ground (arith, new, found, committed_payment-Found b db new found)
        | inr (p, known) ↦
            subst (λ o. Found u k v o.1) (sym (known_bill_key b db {p = p} known)) found
      ]

-- Payments one after another, whatever each answers or throws.
pub pay_all : List Bill → Db → Db
pay_all [] d = d
pay_all (b ∷ bs) d = pay_all bs (pay_bill b d).1

pay_all-Found :
    (u : ℕ) (k : String) (v : PaymentView) (bs : List Bill) (d : Db)
    → Found u k v d
    → Found u k v (pay_all bs d)
unfolding pay_all
pay_all-Found u k v [] d found = found
pay_all-Found u k v (b ∷ bs) d found =
    pay_all-Found u k v bs (pay_bill b d).1 (pay_bill-Found u k v b d found)

-- Once a bill with a key was answered with its payment, then after any more payments of bills, by
-- anyone and with any key, whatever each answers or throws, a payment of that customer with that
-- key gets the same payment, marked as a replay, and changes nothing.
pub pay_bill_replay :
    (b b' : Bill) (bs : List Bill) (db d : Db) {p : PaymentView} {again : Bool} {k : String}
    → truthy b.key ≡ some k
    → pay_bill b db ≡ (ok (some p, again), d)
    → b'.user_id ≡ b.user_id
    → truthy b'.key ≡ some k
    → pay_bill b' (pay_all bs d) ≡ (ok (some p, true), pay_all bs d)
pay_bill_replay b b' bs db d {p} {again} {k} key done user key' =
    let answered : IsAnswer b (some p, again) d = rw done at (pay_bill-IsAnswer b db key) in
    let found : Found b.user_id k p d = rw key at (sym answered) in
    known_bill_key b' (pay_all bs d) (rw (user, key') (pay_all-Found b.user_id k p bs d found))
