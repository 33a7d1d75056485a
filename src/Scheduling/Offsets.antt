-- ===== src/Scheduling/Offsets.antt =====
-- The clock's bound, and how two calls at once pass it (bank/schedule.js, `advanceClock`).
use mathlib.Core.Path.{subst}
use agents_playground.Prelude.{
  ℕ, ◌+◌, ◌≤◌, ◌≡◌, refl, sym, ◌∙◌, false, ==_refl, List, [], ◌∷◌, none, some, ◌==◌, ltb, first,
  update_where, Bool-cases, Option-cases, inl, inr, arith,
}
use agents_playground.Db.{Db, Clock, Action, Returns, Error, ok, err, ◌>>=◌, ◌>>◌, >>=_ok}
use agents_playground.Scheduling.Clocks.{
  max_offset_days, offset_of, later, upsert_clock, get_clock, ClockView, check_clock, move_clock,
  advance_clock,
}

abbrev offset_in : ℕ → List Clock → ℕ
offset_in u cs = elim (first (λ (c : Clock). c.user_id == u) cs) [
  | none ↦ 0
  | some c ↦ c.offset_days
]

offset_of_lem : (u : ℕ) (db : Db) → offset_of u db ≡ offset_in u db.clocks
unfolding offset_of
offset_of_lem u db = refl

module _ (id days : ℕ) where
  -- Moving a clock leaves every other one.
  later-others :
      (u : ℕ) (cs : List Clock)
      → (id == u) ≡ false
      → offset_in u (update_where (λ c. c.user_id == id) (later days) cs) ≡ offset_in u cs
  later-others u [] e = refl
  later-others u (x ∷ cs) e = ground (arith, e, later-others u cs e)

  later-own :
      (cs : List Clock)
      → offset_in id (update_where (λ c. c.user_id == id) (later days) cs) ≤ offset_in id cs + days
  later-own [] = omega arith
  later-own (x ∷ cs) = ground (arith, later-own cs)

abbrev Bounded : ℕ → Db → Type 0
Bounded u d = offset_of u d ≤ max_offset_days

moved_clock :
    (u id days : ℕ) (db : Db)
    → offset_of id db + days ≤ max_offset_days
    → Bounded u db
    → Bounded u (upsert_clock id days db)
unfolding offset_of
moved_clock u id days db le h =
    elim (Option-cases (first (λ (c : Clock). c.user_id == id) db.clocks)) [
      | inl new' ↦ rw new' (ground (arith, le, h))
      | inr (c, there) ↦
          (let cs' = update_where (λ c. c.user_id == id) (later days) db.clocks in
            let after = offset_of_lem u (record db { clocks = cs' }) in
            rw there (elim (Bool-cases (id == u)) [
              | inl own ↦
                  (let e : id ≡ u = ground (arith, own) in
                    rw (sym e) (
                      omega (
                        arith,
                        offset_of_lem id (record db { clocks = cs' }),
                        offset_of_lem id db,
                        later-own id days db.clocks,
                        le,
                      )))
              | inr other ↦
                  omega
                    (arith, after, offset_of_lem u db, later-others id days u db.clocks other, h)
            ]))
    ]

later-exact :
    (u days : ℕ) (cs : List Clock) {c : Clock}
    → first (λ (x : Clock). x.user_id == u) cs ≡ some c
    → offset_in u (update_where (λ x. x.user_id == u) (later days) cs) ≡ offset_in u cs + days
later-exact u days [] e = cc
later-exact u days (x ∷ cs) {c} e = ground (arith, later-exact u days cs {c = c})

upsert_clock-offset :
    (u days : ℕ) (db : Db) → offset_of u (upsert_clock u days db) ≡ offset_of u db + days
unfolding offset_of
upsert_clock-offset u days db =
    elim (Option-cases (first (λ (c : Clock). c.user_id == u) db.clocks)) [
      | inl new' ↦ rw new' (ground (arith, ==_refl u))
      | inr (c, there) ↦
          (let cs' = update_where (λ c. c.user_id == u) (later days) db.clocks in
            let e : offset_in u cs' ≡ offset_in u db.clocks + days =
              later-exact u days db.clocks {c = c} there in
            rw there (offset_of_lem u (record db { clocks = cs' }) ∙ e))
    ]

check_clock_passes :
    (u days : ℕ) (db : Db)
    → offset_of u db + days ≤ max_offset_days
    → check_clock u days db ≡ (ok tt, db)
unfolding check_clock get_clock
check_clock_passes u days db le = ground (arith, le)

-- If a customer's clock is at most 3660 days ahead, it still is after anyone advances a clock in a
-- call that nothing interrupts, whether that succeeds or is refused.
pub advance_clock-Bounded :
    (u id days : ℕ) (db : Db)
    → offset_of u db ≤ max_offset_days
    → offset_of u (advance_clock id days db).1 ≤ max_offset_days
unfolding advance_clock check_clock move_clock get_clock
advance_clock-Bounded u id days db h =
    elim (Bool-cases (ltb max_offset_days (offset_of id db + days))) [
      | inl far ↦
          (let e : advance_clock id days db ≡ (err Error.clock_too_far, db) = ground (arith, far) in
            subst (λ o. offset_of u o.1 ≤ max_offset_days) (sym e) h)
      | inr near ↦
          (let le : offset_of id db + days ≤ max_offset_days = ground (arith, near) in
            let e : advance_clock id days db ≡ move_clock id days db =
              >>=_ok (check_clock id days) (λ _. move_clock id days)
                (check_clock_passes id days db le) in
            subst (λ o. offset_of u o.1 ≤ max_offset_days) (sym e) (moved_clock u id days db le h))
    ]

-- Two calls at once: both check before either writes.
pub advance_together : ℕ → ℕ → ℕ → Action ClockView
advance_together u a b =
    check_clock u a >> check_clock u b >> move_clock u a >>= λ _. move_clock u b

-- Two advances of one clock, each within the 3660 days from where it stands, that both check before
-- either writes both succeed, and move it by both numbers of days, however far that is.
pub advance_clock_together :
    (u a b : ℕ) (db : Db)
    → offset_of u db + a ≤ max_offset_days
    → offset_of u db + b ≤ max_offset_days
    → Returns (λ _ d. offset_of u d ≡ offset_of u db + a + b) (advance_together u a b db)
unfolding advance_together move_clock
advance_clock_together u a b db le le' =
    let d = upsert_clock u a db in
    let both : (check_clock u a >> check_clock u b) db ≡ (ok tt, db) =
      >>=_ok (check_clock u a) (λ _. check_clock u b) (check_clock_passes u a db le)
      ∙ check_clock_passes u b db le' in
    let moved : (check_clock u a >> check_clock u b >> move_clock u a) db
        ≡ (ok (get_clock u d), d) =
      >>=_ok (check_clock u a >> check_clock u b) (λ _. move_clock u a) both in
    let e : advance_together u a b db ≡ move_clock u b d =
      >>=_ok (check_clock u a >> check_clock u b >> move_clock u a) (λ _. move_clock u b) moved in
    subst (Returns (λ _ d'. offset_of u d' ≡ offset_of u db + a + b)) (sym e)
      (omega (arith, upsert_clock-offset u b d, upsert_clock-offset u a db))
