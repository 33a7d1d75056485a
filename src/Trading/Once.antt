-- ===== src/Trading/Once.antt =====
-- A quote is used at most once (bank/trading.js: the claim of `fillQuote`).
use agents_playground.Prelude.{
  ℕ, suc, ◌+◌, ◌≤◌, ◌≡◌, some, List, [], ◌∷◌, Bool, Option, ◌==◌, ◌&&◌, arith, first, count,
  update_where,
}
use agents_playground.Db.{Quote, Side, Db, Holding, OnOk, OnOk-map, Result, ok, err}
use agents_playground.Trading.Rates.{Market}
use agents_playground.Trading.Holdings.{find_holding}
use agents_playground.Trading.Filling.{Fill, Moved, is_claimable, is_unused, stamp_used}
use agents_playground.Trading.Fills.{fill_work, fill_by_id}
use agents_playground.Trading.Effects.{Sides, Filled, fill_work-Filled, claimed}

abbrev pub is_open : ℕ → Quote → Bool
is_open id q = q.id == id && is_unused q

-- How many rows of this id are unused: one at most, since the id is the primary key.
abbrev pub open_quotes : ℕ → Db → ℕ
open_quotes id db = count (is_open id) db.quotes

stamped_below :
    (user_id id now : ℕ) (qs : List Quote)
    → count (is_open id) (update_where (is_claimable user_id id) (stamp_used now) qs)
      ≤ count (is_open id) qs
stamped_below user_id id now [] = omega arith
stamped_below user_id id now (x ∷ qs) = ground (arith, stamped_below user_id id now qs)

stamped_counts :
    (user_id id now : ℕ) (qs : List Quote) (q : Quote)
    → first (is_claimable user_id id) qs ≡ some q
    → suc (count (is_open id) (update_where (is_claimable user_id id) (stamp_used now) qs))
      ≤ count (is_open id) qs
stamped_counts user_id id now [] q e = cc
stamped_counts user_id id now (x ∷ qs) q e =
    ground (arith, stamped_counts user_id id now qs q, stamped_below user_id id now qs)

Sides-quotes :
    (m : Market) (r : Fill) (q : Quote) (o : Option Holding) (s : Side) (db mid : Db)
    (moved : Moved)
    → Sides m r q o s db moved mid
    → mid.quotes ≡ db.quotes
Sides-quotes m r q o Side.buy db mid moved (_, _, _, _, _, _, _, same) = same
Sides-quotes m r q o Side.sell db mid moved (_, _, _, _, _, _, _, _, _, same) = same

fill_work-Fewer :
    (m : Market) (r : Fill) (id : ℕ) (db : Db)
    → OnOk (λ _ d. suc (open_quotes id d) ≤ open_quotes id db) (fill_work m r id db)
fill_work-Fewer m r id db =
    OnOk-map (Filled m r id db) (λ _ d. suc (open_quotes id d) ≤ open_quotes id db)
      (fill_work m r id db)
      (λ x d (q, found, (a, moved, mid, _, _, s, (_, _, _, _, _, _, same))).
        let q' = stamp_used db.now q in
        let o = find_holding r.user_id q'.symbol (claimed r id db) in
        rw (same, Sides-quotes m r q' o q'.side (claimed r id db) mid moved s)
          (stamped_counts r.user_id id db.now db.quotes q found))
      (fill_work-Filled m r id db)

abbrev succeeded : {A : Type 0} → Result A → ℕ
succeeded (ok a) = 1
succeeded (err e) = 0

-- Fills of one quote, one after another, each in its own transaction, and how many succeeded.
pub fill_each : Market → ℕ → List Fill → Db → ℕ × Db
fill_each m id [] db = (0, db)
fill_each m id (r ∷ rs) db =
    let (x, d) = fill_by_id m r (some id) db in
    let (n, d') = fill_each m id rs d in (succeeded x + n, d')

fill_by_id-open :
    (m : Market) (r : Fill) (id : ℕ) (db : Db)
    → succeeded (fill_by_id m r (some id) db).0 + open_quotes id (fill_by_id m r (some id) db).1
      ≤ open_quotes id db
unfolding fill_by_id
fill_by_id-open m r id db = ground (arith, fill_work-Fewer m r id db)

fill_each-open :
    (m : Market) (id : ℕ) (rs : List Fill) (db : Db)
    → (fill_each m id rs db).0 + open_quotes id (fill_each m id rs db).1 ≤ open_quotes id db
unfolding fill_each
fill_each-open m id [] db = omega arith
fill_each-open m id (r ∷ rs) db =
    omega (arith, fill_by_id-open m r id db, fill_each-open m id rs (fill_by_id m r (some id) db).1)

-- Where at most one row of a quote is unused, of any fills of it, by anyone, from any accounts and
-- at any times, at most one succeeds.
pub filled_once :
    (m : Market) (id : ℕ) (rs : List Fill) (db : Db)
    → open_quotes id db ≤ 1
    → (fill_each m id rs db).0 ≤ 1
filled_once m id rs db h = omega (arith, fill_each-open m id rs db)
