-- ===== src/Money/Keeping.antt =====
-- `try … catch` keeps what the work and the handler keep (the uses of bank/money.js and others).
use agents_playground.Db.{Db, Error, Action, Result, ok, err, Keeps}
use agents_playground.Money.Transfer.{catch}

module _ (P : Db → Type 0) where
  pub Keeps-catch :
      {A : Type 0} (m : Action A) (f : Error → Action A)
      → Keeps P m
      → ((e : Error) → Keeps P (f e))
      → Keeps P (catch m f)
  Keeps-catch {A} m f h k db p = next (m db) (h db p)
    where
      next :
          (o : Result A × Db)
          → P o.1
          → P (elim o.0 as (λ _. Result A × Db) [ ok a ↦ (ok a, o.1) | err e ↦ f e o.1 ]).1
      next (ok a, d) q = q
      next (err e, d) q = k e d q
