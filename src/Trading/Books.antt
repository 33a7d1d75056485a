-- ===== src/Trading/Books.antt =====
-- A filled quote keeps the ledger (bank/trading.js, `fillQuote`).
use agents_playground.Prelude.{ℕ, ◌≡◌, refl, Option, none, some}
use agents_playground.Db.{Account, Holding, Quote, Side, Db, OnOk-map, transaction-keeps}
use agents_playground.Money.{has_id}
use agents_playground.Ledger.Booked.{IsBooked, credit-Books, debit-Books}
use agents_playground.Ledger.Covered.{IsCovered, credit-NoneBelow, debit-NoneBelow}
use agents_playground.Trading.Rates.{Market}
use agents_playground.Trading.Holdings.{find_holding}
use agents_playground.Trading.Filling.{Fill, Moved, trade_entry, stamp_used}
use agents_playground.Trading.Fills.{fill_work, fill_by_id, fill_quote, Receipt}
use agents_playground.Trading.Effects.{Sides, Recorded, Filled, fill_work-Filled, claimed}

Sides-IsBooked :
    (m : Market) (r : Fill) (q : Quote) (o : Option Holding) (s : Side) (db mid d : Db)
    (moved : Moved) (x : Receipt) (a : Account)
    → q.side ≡ s
    → Sides m r q o s db moved mid
    → Recorded r q a moved mid x d
    → IsBooked db
    → IsBooked d
Sides-IsBooked m r q o Side.buy db mid d moved x a side (b, _, found, paid, accounts, _, entries, _)
      (id, _, history, _, same, _, _) h =
    rw (history, same, accounts, entries)
      (debit-Books (trade_entry r q moved.0) id mid.now q.net_cents db.transactions db.accounts
        found (rw side refl) (rw paid refl) h)
Sides-IsBooked m r q o Side.sell db mid d moved x a side
      (b, _, found, _, _, paid, accounts, _, entries, _) (id, _, history, _, same, _, _) h =
    rw (history, same, accounts, entries)
      (credit-Books (trade_entry r q moved.0) id mid.now q.net_cents db.transactions db.accounts
        found (rw side refl) (rw paid refl) h)

Sides-IsCovered :
    (m : Market) (r : Fill) (q : Quote) (o : Option Holding) (s : Side) (db mid d : Db)
    (moved : Moved) (x : Receipt) (a : Account)
    → Sides m r q o s db moved mid
    → Recorded r q a moved mid x d
    → IsCovered db
    → IsCovered d
Sides-IsCovered m r q o Side.buy db mid d moved x a (b, _, found, paid, accounts, _, _, _)
      (id, _, history, _, same, _, _) h =
    rw (same, accounts) (debit-NoneBelow (has_id r.account_id) q.net_cents db.accounts h)
Sides-IsCovered m r q o Side.sell db mid d moved x a (b, _, found, _, _, paid, accounts, _, _, _)
      (id, _, history, _, same, _, _) h =
    rw (same, accounts) (credit-NoneBelow (has_id r.account_id) q.net_cents db.accounts h)

module _ (m : Market) (r : Fill) (db : Db) where
  fill_by_id-IsBooked : (o : Option ℕ) → IsBooked db → IsBooked (fill_by_id m r o db).1
  unfolding fill_by_id
  fill_by_id-IsBooked none h = h
  fill_by_id-IsBooked (some id) h =
      transaction-keeps IsBooked (fill_work m r id) db (λ _. h)
        (OnOk-map (Filled m r id db) (λ _ d. IsBooked d) (fill_work m r id db)
          (λ x d (q, _, (a, moved, mid, _, _, s, k)).
            let q' = stamp_used db.now q in
            let o = find_holding r.user_id q'.symbol (claimed r id db) in
            Sides-IsBooked m r q' o q'.side (claimed r id db) mid d moved x a refl s k h)
          (fill_work-Filled m r id db))

  fill_by_id-IsCovered : (o : Option ℕ) → IsCovered db → IsCovered (fill_by_id m r o db).1
  unfolding fill_by_id
  fill_by_id-IsCovered none h = h
  fill_by_id-IsCovered (some id) h =
      transaction-keeps IsCovered (fill_work m r id) db (λ _. h)
        (OnOk-map (Filled m r id db) (λ _ d. IsCovered d) (fill_work m r id db)
          (λ x d (q, _, (a, moved, mid, _, _, s, k)).
            let q' = stamp_used db.now q in
            let o = find_holding r.user_id q'.symbol (claimed r id db) in
            Sides-IsCovered m r q' o q'.side (claimed r id db) mid d moved x a s k h)
          (fill_work-Filled m r id db))

  -- If the history explains every balance, it does after filling a quote, whatever that answers or
  -- throws.
  pub fill_quote-IsBooked : IsBooked db → IsBooked (fill_quote m r db).1
  unfolding fill_quote
  fill_quote-IsBooked h = fill_by_id-IsBooked r.quote_id h

  -- Where no balance is below zero, none is after filling a quote.
  pub fill_quote-IsCovered : IsCovered db → IsCovered (fill_quote m r db).1
  unfolding fill_quote
  fill_quote-IsCovered h = fill_by_id-IsCovered r.quote_id h
