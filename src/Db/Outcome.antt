-- ===== src/Db/Outcome.antt =====
-- Postconditions of an operation on the database, and what a transaction makes of them.
use agents_playground.Prelude.{◌≡◌, refl, ap, Option, none, some, Bool, true, false}
use agents_playground.Db.Monad.{
  Error, row_or_throw, row_or, throw_if, ◌>>◌, ◌>>=◌, Db, Result, ok, err, Action, rollback, commit,
  transaction,
}

-- A step that succeeds hands its result and its state on.
pub >>=_ok :
    {A B : Type 0} (m : Action A) (f : A → Action B) {db d : Db} {a : A}
    → m db ≡ (ok a, d)
    → (m >>= f) db ≡ f a d
>>=_ok {A} {B} m f e =
    ap
      (λ (o : Result A × Db). elim o.0 as (λ _. Result B × Db) [
        | ok a ↦ f a o.1
        | err x ↦ (err x, o.1)
      ])
      e

-- What holds after work that succeeds.
abbrev pub OnOk : {A : Type 0} → (A → Db → Type 0) → Result A × Db → Type 0
OnOk P (ok a, db) = P a db
OnOk P (err e, db) = Unit

-- The rule of sequence.
pub OnOk-bind :
    {A B : Type 0} (Q : A → Db → Type 0) (P : B → Db → Type 0) (m : Action A) (f : A → Action B)
    (db : Db)
    → OnOk Q (m db)
    → ((a : A) (d : Db) → Q a d → OnOk P (f a d))
    → OnOk P ((m >>= f) db)
OnOk-bind {A} {B} Q P m f db h k = next (m db) h
  where
    next :
        (o : Result A × Db)
        → OnOk Q o
        → OnOk P (elim o.0 as (λ _. Result B × Db) [ ok a ↦ f a o.1 | err x ↦ (err x, o.1) ])
    next (ok a, d) q = k a d q
    next (err e, d) q = tt

-- After a row that must be there.
pub row_or_throw-OnOk :
    {A B : Type 0} (P : B → Db → Type 0) (o : Option A) (f : A → Action B) (db : Db)
    → ((a : A) → o ≡ some a → OnOk P (f a db))
    → OnOk P ((row_or_throw o >>= f) db)
row_or_throw-OnOk P none f db h = tt
row_or_throw-OnOk P (some a) f db h = h a refl

pub row_or-OnOk :
    {A B : Type 0} (P : B → Db → Type 0) (e : Error) (o : Option A) (f : A → Action B) (db : Db)
    → ((a : A) → o ≡ some a → OnOk P (f a db))
    → OnOk P ((row_or e o >>= f) db)
row_or-OnOk P e none f db h = tt
row_or-OnOk P e (some a) f db h = h a refl

-- After a check that may throw.
pub throw_if-OnOk :
    {B : Type 0} (P : B → Db → Type 0) (b : Bool) (e : Error) (m : Action B) (db : Db)
    → (b ≡ false → OnOk P (m db))
    → OnOk P ((throw_if b e >> m) db)
throw_if-OnOk P true e m db h = tt
throw_if-OnOk P false e m db h = h refl

-- The work succeeds, and this holds of what it leaves.
abbrev pub Returns : {A : Type 0} → (A → Db → Type 0) → Result A × Db → Type 0
Returns P (ok a, db) = P a db
Returns P (err e, db) = ⊥

pub OnOk-map :
    {A : Type 0} (P Q : A → Db → Type 0) (r : Result A × Db)
    → ((a : A) (d : Db) → P a d → Q a d)
    → OnOk P r
    → OnOk Q r
OnOk-map P Q (ok a, d) f h = f a d h
OnOk-map P Q (err e, d) f h = tt

pub Returns-map :
    {A : Type 0} (P Q : A → Db → Type 0) (r : Result A × Db)
    → ((a : A) (d : Db) → P a d → Q a d)
    → Returns P r
    → Returns Q r
Returns-map P Q (ok a, d) f h = f a d h
Returns-map P Q (err e, d) f h = absurd h

pub Returns-of_OnOk :
    {A : Type 0} (P : A → Db → Type 0) (r : Result A × Db)
    → Returns (λ _ _. Unit {0}) r
    → OnOk P r
    → Returns P r
Returns-of_OnOk P (ok a, d) h k = k
Returns-of_OnOk P (err e, d) h k = absurd h

pub transaction-Returns :
    {A : Type 0} (P : A → Db → Type 0) (m : Action A) (db : Db)
    → Returns P (m db)
    → Returns P (transaction m db)
transaction-Returns {A} P m db h = back (m db) h
  where
    back : (r : Result A × Db) → Returns P r → Returns P (r.0, commit db r.0 r.1)
    back (ok a, d) k = k
    back (err e, d) k = absurd k

commit-keeps :
    {A : Type 0} (P : Db → Type 0) (db : Db) (r : Result A) (db' : Db)
    → P (rollback db db')
    → OnOk (λ _ d. P d) (r, db')
    → P (commit db r db')
commit-keeps P db (ok a) db' h k = k
commit-keeps P db (err e) db' h k = h

-- Work that keeps a property of the state whenever it succeeds keeps it in a transaction always,
-- where the property does not read how many random values were drawn.
pub transaction-keeps :
    {A : Type 0} (P : Db → Type 0) (m : Action A) (db : Db)
    → ((db' : Db) → P (rollback db db'))
    → OnOk (λ _ d. P d) (m db)
    → P (transaction m db).1
transaction-keeps P m db back after = commit-keeps P db (m db).0 (m db).1 (back (m db).1) after

pub transaction-OnOk :
    {A : Type 0} (P : A → Db → Type 0) (m : Action A) (db : Db)
    → OnOk P (m db)
    → OnOk P (transaction m db)
transaction-OnOk {A} P m db h = back (m db) h
  where
    back : (r : Result A × Db) → OnOk P r → OnOk P (r.0, commit db r.0 r.1)
    back (ok a, d) k = k
    back (err e, d) k = tt

-- The rule of sequence for work that succeeds.
pub Returns-bind :
    {A B : Type 0} (Q : A → Db → Type 0) (P : B → Db → Type 0) (m : Action A) (f : A → Action B)
    (db : Db)
    → Returns Q (m db)
    → ((a : A) (d : Db) → Q a d → Returns P (f a d))
    → Returns P ((m >>= f) db)
Returns-bind {A} {B} Q P m f db h k = next (m db) h
  where
    next :
        (o : Result A × Db)
        → Returns Q o
        → Returns P (elim o.0 as (λ _. Result B × Db) [ ok a ↦ f a o.1 | err x ↦ (err x, o.1) ])
    next (ok a, d) q = k a d q
    next (err e, d) q = absurd q

pub OnOk-of_Returns :
    {A : Type 0} (P : A → Db → Type 0) (r : Result A × Db) → Returns P r → OnOk P r
OnOk-of_Returns P (ok a, d) h = h
OnOk-of_Returns P (err e, d) h = tt

-- The work keeps a property of the state, whether it succeeds or throws.
abbrev pub Keeps : (Db → Type 0) → {A : Type 0} → Action A → Type 0
Keeps P m = (db : Db) → P db → P (m db).1

module _ (P : Db → Type 0) where
  pub Keeps-bind :
      {A B : Type 0} (m : Action A) (f : A → Action B)
      → Keeps P m
      → ((a : A) → Keeps P (f a))
      → Keeps P (m >>= f)
  Keeps-bind {A} {B} m f h k db p = next (m db) (h db p)
    where
      next :
          (o : Result A × Db)
          → P o.1
          → P (elim o.0 as (λ _. Result B × Db) [ ok a ↦ f a o.1 | err x ↦ (err x, o.1) ]).1
      next (ok a, d) q = k a d q
      next (err e, d) q = q

  pub Keeps-throw_if :
      {B : Type 0} (b : Bool) (e : Error) (m : Action B) → Keeps P m → Keeps P (throw_if b e >> m)
  Keeps-throw_if true e m h db p = p
  Keeps-throw_if false e m h db p = h db p

  pub Keeps-row_or :
      {A B : Type 0} (e : Error) (o : Db → Option A) (f : A → Action B)
      → ((a : A) → Keeps P (f a))
      → Keeps P ((λ db. row_or e (o db) db) >>= f)
  Keeps-row_or {A} {B} e o f h db p = split (o db)
    where
      split : (x : Option A) → P ((row_or e x >>= f) db).1
      split none = p
      split (some a) = h a db p
