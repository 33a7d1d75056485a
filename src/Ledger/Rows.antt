-- ===== src/Ledger/Rows.antt =====
-- The account rows that a move leaves: the two it names, and all the others (bank/money.js,
-- `moveMoney`).
use agents_playground.Prelude.{
  ℕ, ◌≡◌, ◌≢◌, refl, sym, ◌∙◌, ◌||◌, some, first, List, [], ◌∷◌, Bool, true, not, ◌&&◌, arith,
  update_where, keep, Bool-cases, inl, inr,
}
use agents_playground.Db.{Account}
use agents_playground.Money.{
  has_id, covers, add_cents, take_cents, Move, moved_accounts, takes, debited_accounts,
}

module _ (a : ℕ) where
  -- Of two rows with an id, a search by the id finds the first.
  guarded_first :
      (p : Account → Bool) (rs : List Account) (r : Account)
      → first (has_id a) rs ≡ some r
      → p r ≡ true
      → first (λ x. has_id a x && p x) rs ≡ some r
  guarded_first p [] r f h = cc
  guarded_first p (x ∷ rs) r f h = ground (arith, guarded_first p rs r)

module _ (a m : ℕ) where
  first-take_self :
      (p : Account → Bool) (rs : List Account) (r : Account)
      → first (has_id a) rs ≡ some r
      → p r ≡ true
      → first (has_id a) (update_where (λ x. has_id a x && p x) (take_cents m) rs)
        ≡ some (take_cents m r)
  first-take_self p [] r f h = cc
  first-take_self p (x ∷ rs) r f h = ground (arith, first-take_self p rs r)

  first-take_any :
      (rs : List Account) (r : Account)
      → first (has_id a) rs ≡ some r
      → first (has_id a) (update_where (has_id a) (take_cents m) rs) ≡ some (take_cents m r)
  first-take_any [] r f = cc
  first-take_any (x ∷ rs) r f = ground (arith, first-take_any rs r)

  first-add_self :
      (rs : List Account) (r : Account)
      → first (has_id a) rs ≡ some r
      → first (has_id a) (update_where (has_id a) (add_cents m) rs) ≡ some (add_cents m r)
  first-add_self [] r f = cc
  first-add_self (x ∷ rs) r f = ground (arith, first-add_self rs r)

  first-add_ne :
      (b : ℕ) (rs : List Account)
      → b ≢ a
      → first (has_id b) (update_where (has_id a) (add_cents m) rs) ≡ first (has_id b) rs
  first-add_ne b [] n = refl
  first-add_ne b (x ∷ rs) n = ground (arith, first-add_ne b rs n)

  first-take_ne :
      (p : Account → Bool) (b : ℕ) (rs : List Account)
      → b ≢ a
      → first (has_id b) (update_where (λ x. has_id a x && p x) (take_cents m) rs)
        ≡ first (has_id b) rs
  first-take_ne p b [] n = refl
  first-take_ne p b (x ∷ rs) n = ground (arith, first-take_ne p b rs n)

  first-take_any_ne :
      (b : ℕ) (rs : List Account)
      → b ≢ a
      → first (has_id b) (update_where (has_id a) (take_cents m) rs) ≡ first (has_id b) rs
  first-take_any_ne b [] n = refl
  first-take_any_ne b (x ∷ rs) n = ground (arith, first-take_any_ne b rs n)

-- The accounts that are neither of the two.
abbrev pub apart_from : ℕ → ℕ → List Account → List Account
apart_from a b rs = keep (λ x. not (has_id a x || has_id b x)) rs

module _ (a b m : ℕ) where
  apart_from-take_any :
      (rs : List Account)
      → apart_from a b (update_where (has_id a) (take_cents m) rs) ≡ apart_from a b rs
  apart_from-take_any [] = refl
  apart_from-take_any (x ∷ rs) = ground (arith, apart_from-take_any rs)

  apart_from-take :
      (p : Account → Bool) (rs : List Account)
      → apart_from a b (update_where (λ x. has_id a x && p x) (take_cents m) rs) ≡ apart_from a b rs
  apart_from-take p [] = refl
  apart_from-take p (x ∷ rs) = ground (arith, apart_from-take p rs)

  apart_from-add :
      (rs : List Account)
      → apart_from a b (update_where (has_id b) (add_cents m) rs) ≡ apart_from a b rs
  apart_from-add [] = refl
  apart_from-add (x ∷ rs) = ground (arith, apart_from-add rs)

abbrev others : Move → List Account → List Account
others m = apart_from m.from.id m.to.id

module _ (m : Move) where
  debited_accounts-ne :
      (b : ℕ) (rs : List Account)
      → b ≢ m.from.id
      → first (has_id b) (debited_accounts m rs) ≡ first (has_id b) rs
  debited_accounts-ne b rs n = elim (Bool-cases m.unchecked) [
    | inl u ↦ rw u (first-take_any_ne m.from.id m.amount_cents b rs n)
    | inr u ↦ rw u (first-take_ne m.from.id m.amount_cents (covers m.amount_cents) b rs n)
  ]

  others-debited : (rs : List Account) → others m (debited_accounts m rs) ≡ others m rs
  others-debited rs = elim (Bool-cases m.unchecked) [
    | inl u ↦ rw u (apart_from-take_any m.from.id m.to.id m.amount_cents rs)
    | inr u ↦ rw u (apart_from-take m.from.id m.to.id m.amount_cents (covers m.amount_cents) rs)
  ]

  -- A move touches no third account.
  pub others-moved : (rs : List Account) → others m (moved_accounts m rs) ≡ others m rs
  others-moved rs =
      apart_from-add m.from.id m.to.id m.amount_cents (debited_accounts m rs) ∙ others-debited rs

  module _ (rs : List Account) {r c : Account} (ne : m.from.id ≢ m.to.id)
      (allowed : m.unchecked || covers m.amount_cents r ≡ true)
      (source : first (has_id m.from.id) rs ≡ some r)
      (target : first (has_id m.to.id) rs ≡ some c) where
    pub takes_source : first (takes m) rs ≡ some r
    takes_source = elim (Bool-cases m.unchecked) [
      | inl u ↦ rw u source
      | inr u ↦ rw u (guarded_first m.from.id (covers m.amount_cents) rs r source (rw u at allowed))
    ]

    pub moved_source :
        first (has_id m.from.id) (moved_accounts m rs) ≡ some (take_cents m.amount_cents r)
    moved_source =
        first-add_ne m.to.id m.amount_cents m.from.id (debited_accounts m rs) ne
        ∙ elim (Bool-cases m.unchecked) [
          | inl u ↦ rw u (first-take_any m.from.id m.amount_cents rs r source)
          | inr u ↦ rw u (
              first-take_self m.from.id m.amount_cents (covers m.amount_cents) rs r source
                (rw u at allowed))
        ]

    pub credit_target : first (has_id m.to.id) (debited_accounts m rs) ≡ some c
    credit_target = debited_accounts-ne m.to.id rs (λ e. ne (sym e)) ∙ target

    pub moved_target :
        first (has_id m.to.id) (moved_accounts m rs) ≡ some (add_cents m.amount_cents c)
    moved_target = first-add_self m.to.id m.amount_cents (debited_accounts m rs) c credit_target
