-- ===== src/Bills/Payees.antt =====
-- Payees (bank/bills.js): the limit of twenty, and whose payee a customer can delete.
use agents_playground.Prelude.{
  ℕ, ◌≤◌, ◌≡◌, refl, String, Bool, true, false, not, none, some, List, [], ◌∷◌, ◌==◌, ◌&&◌, first,
  count, update_where, keep, arith,
}
use agents_playground.Db.{Payee, Db}
use agents_playground.Bills.{
  max_payees, kept_by, deletable, mark_deleted, add_payee, delete_payee, find_own_payee,
}

-- No customer has more than twenty payees that are not deleted.
abbrev pub WithinLimit : List Payee → Type 0
WithinLimit ps = (u : ℕ) → count (kept_by u) ps ≤ max_payees

-- If every customer has at most twenty payees that are not deleted, then so it is after adding one,
-- whether it is saved or refused.
pub add_payee-WithinLimit :
    (user_id : ℕ) (name reference : String) (db : Db)
    → WithinLimit db.payees
    → WithinLimit (add_payee user_id name reference db).1.payees
unfolding add_payee
add_payee-WithinLimit user_id name reference db h u = ground (arith, h u, h user_id)

count-delete :
    (user_id payee_id u now : ℕ) (any_owner : Bool) (ps : List Payee)
    → count (kept_by u) (update_where (deletable user_id payee_id any_owner) (mark_deleted now) ps)
      ≤ count (kept_by u) ps
count-delete user_id payee_id u now any_owner [] = omega arith
count-delete user_id payee_id u now any_owner (p ∷ ps) =
    ground (arith, count-delete user_id payee_id u now any_owner ps)

-- Deleting a payee keeps every customer within the limit.
pub delete_payee-WithinLimit :
    (user_id payee_id : ℕ) (any_owner : Bool) (db : Db)
    → WithinLimit db.payees
    → WithinLimit (delete_payee user_id payee_id any_owner db).1.payees
unfolding delete_payee
delete_payee-WithinLimit user_id payee_id any_owner db h u =
    omega (arith, h u, count-delete user_id payee_id u db.now any_owner db.payees)

-- The payees of the other customers.
abbrev pub others : ℕ → List Payee → List Payee
others user_id = keep (λ p. not (p.user_id == user_id))

others-update :
    (user_id payee_id now : ℕ) (ps : List Payee)
    → others user_id (update_where (deletable user_id payee_id false) (mark_deleted now) ps)
      ≡ others user_id ps
others-update user_id payee_id now [] = refl
others-update user_id payee_id now (p ∷ ps) = ground (arith, others-update user_id payee_id now ps)

gone :
    (user_id payee_id now : ℕ) (any_owner : Bool) (ps : List Payee)
    → first
        (λ p. p.id == payee_id && kept_by user_id p)
        (update_where (deletable user_id payee_id any_owner) (mark_deleted now) ps)
      ≡ none
gone user_id payee_id now any_owner [] = refl
gone user_id payee_id now any_owner (p ∷ ps) =
    ground (arith, gone user_id payee_id now any_owner ps)

-- Deleting a payee without the planted fault leaves the payees of all other customers as they were,
-- and afterwards the customer has no such payee.
pub delete_payee-own :
    (user_id payee_id : ℕ) (db : Db)
    → let d = (delete_payee user_id payee_id false db).1 in
      (others user_id d.payees ≡ others user_id db.payees)
      × (find_own_payee user_id payee_id d ≡ none)
unfolding delete_payee find_own_payee
delete_payee-own user_id payee_id db =
    (others-update user_id payee_id db.now db.payees, gone user_id payee_id db.now false db.payees)

-- INTENTIONAL DEFECT (bankPayeeIdor): the flag deletes the payee of anyone.
pub delete_payee_idor :
    (user_id owner payee_id : ℕ) (db : Db) {p : Payee}
    → find_own_payee owner payee_id db ≡ some p
    → find_own_payee owner payee_id (delete_payee user_id payee_id true db).1 ≡ none
unfolding delete_payee find_own_payee
delete_payee_idor user_id owner payee_id db h = gone_any owner payee_id db.now db.payees
  where
    gone_any :
        (u i now : ℕ) (ps : List Payee)
        → first
            (λ p. p.id == i && kept_by u p)
            (update_where (deletable user_id i true) (mark_deleted now) ps)
          ≡ none
    gone_any u i now [] = refl
    gone_any u i now (p ∷ ps) = ground (arith, gone_any u i now ps)
