-- ===== src/Trading/Exchanged.antt =====
-- What a filled quote exchanges (bank/trading.js, `fillQuote`).
use agents_playground.Prelude.{
  ℕ, ◌+◌, ◌≤◌, ◌≡◌, refl, pos, ◌+ℤ◌, ◌-ℤ◌, String, text_eq, text_eq_refl, ==_refl, false, true,
  some, List, ◌&&◌, ◌==◌, arith, first,
}
use agents_playground.Db.{Account, Holding, Quote, Side, Db, OnOk, OnOk-map, transaction-OnOk}
use agents_playground.Money.{covers}
use agents_playground.Ledger.Conserved.{total, IsDistinct, total-take, total-add}
use agents_playground.Trading.Rates.{Market}
use agents_playground.Trading.Holdings.{find_holding}
use agents_playground.Trading.Coin.{IsSingle, coin_of, coin_total, put_rows-total, taken_rows-total}
use agents_playground.Trading.Holders.{
  holders, put, take_from, holders-put_rows, holders-taken_rows,
}
use agents_playground.Trading.Filling.{Fill, Moved, is_claimable, stamp_used}
use agents_playground.Trading.Fills.{is_late, fill_work, fill_quote, Receipt}
use agents_playground.Trading.Effects.{Sides, Recorded, Filled, fill_work-Filled, claimed}

-- The money that left the accounts bought the coin, for the customer; or the coin that left paid it.
abbrev pub Exchange : ℕ → String → ℕ → ℕ → Side → List Account → List Holding → Db → Type 0
Exchange user_id symbol net atoms Side.buy rs hs d =
    (total d.accounts ≡ total rs -ℤ pos net)
    × (holders d.holdings ≡ put (holders hs) user_id symbol atoms)
    × (coin_total symbol d.holdings ≡ coin_total symbol hs + atoms)
Exchange user_id symbol net atoms Side.sell rs hs d =
    (total d.accounts ≡ total rs +ℤ pos net)
    × (atoms ≤ coin_of user_id symbol hs)
    × (holders d.holdings ≡ take_from (holders hs) user_id symbol atoms)
    × (coin_total symbol d.holdings + atoms ≡ coin_total symbol hs)

-- A quote that was unused and in time is what was exchanged, and what the receipt says.
abbrev pub Exchanged : Fill → ℕ → Db → Receipt → Db → Type 0
Exchanged r id db x d =
    (q : Quote) × (first (is_claimable r.user_id id) db.quotes ≡ some q)
    × (is_late r q ≡ false)
    × (x.net_cents ≡ q.net_cents)
    × (x.quantity_atoms ≡ q.filled_atoms)
    × Exchange r.user_id q.symbol q.net_cents q.filled_atoms q.side db.accounts db.holdings d

is_counted : (user_id : ℕ) (symbol : String) → (user_id == user_id && text_eq symbol symbol) ≡ true
is_counted user_id symbol = ground (arith, ==_refl user_id, text_eq_refl symbol)

Sides-Exchange :
    (m : Market) (r : Fill) (q : Quote) (s : Side) (db mid d : Db) (moved : Moved) (x : Receipt)
    (a : Account)
    → IsDistinct db.accounts
    → IsSingle db.holdings
    → Sides m r q (find_holding r.user_id q.symbol db) s db moved mid
    → Recorded r q a moved mid x d
    → Exchange r.user_id q.symbol q.net_cents q.filled_atoms s db.accounts db.holdings d
unfolding find_holding
Sides-Exchange m r q Side.buy db mid d moved x a ids single
      (b, new, found, _, accounts, holdings, _, _) (_, _, _, _, kept, hs, _) =
    (
      rw (kept, accounts)
          (total-take (covers q.net_cents) r.account_id q.net_cents db.accounts ids found),
      rw (hs, holdings)
          (holders-put_rows r.user_id q.symbol q.filled_atoms q.net_cents new db.holdings single),
      rw (hs, holdings)
          (put_rows-total r.user_id q.symbol (λ u s. text_eq s q.symbol) q.filled_atoms q.net_cents
            new db.holdings (text_eq_refl q.symbol) single),
    )
Sides-Exchange m r q Side.sell db mid d moved x a ids single
      (b, h, found, there, enough, _, accounts, holdings, _, _) (_, _, _, _, kept, hs, _) =
    let cost = m.share h.cost_cents q.filled_atoms h.quantity_atoms in
    (
      rw (kept, accounts) (total-add r.account_id q.net_cents db.accounts ids found),
      omega (
        arith,
        taken_rows-total r.user_id q.symbol (λ u s. u == r.user_id && text_eq s q.symbol)
            q.filled_atoms cost db.holdings {h = h} (is_counted r.user_id q.symbol) single there
            enough,
      ),
      rw (hs, holdings)
          (holders-taken_rows r.user_id q.symbol q.filled_atoms cost db.holdings {h = h} single
            there enough),
      rw (hs, holdings)
          (taken_rows-total r.user_id q.symbol (λ u s. text_eq s q.symbol) q.filled_atoms cost
            db.holdings (text_eq_refl q.symbol) single there enough),
    )

fill_work-Exchanged :
    (m : Market) (r : Fill) (id : ℕ) (db : Db)
    → IsDistinct db.accounts
    → IsSingle db.holdings
    → OnOk (Exchanged r id db) (fill_work m r id db)
fill_work-Exchanged m r id db ids single =
    OnOk-map (Filled m r id db) (Exchanged r id db) (fill_work m r id db)
      (λ x d (q, found, (a, moved, mid, fresh, _, s, k)).
        let (_, _, _, receipt, _, _, _) = k in
        let q' = stamp_used db.now q in
        (
          q,
          found,
          fresh,
          rw receipt refl,
          rw receipt refl,
          Sides-Exchange m r q' q.side (claimed r id db) mid d moved x a ids single s k,
        ))
      (fill_work-Filled m r id db)

-- With distinct account ids and one holding for each customer and coin, a fill that succeeds is of
-- an unused quote of that customer, in time unless the planted fault lets it be late: a buy takes
-- its net price from the balances and puts its coin to the customer's, a sell takes the coin, which
-- was there, and adds the price, no other coin changes, and the receipt names these amounts.
pub fill_quote-Exchanged :
    (m : Market) (r : Fill) (id : ℕ) (db : Db)
    → r.quote_id ≡ some id
    → IsDistinct db.accounts
    → IsSingle db.holdings
    → OnOk (Exchanged r id db) (fill_quote m r db)
unfolding fill_quote
fill_quote-Exchanged m r id db named ids single =
    rw (named, OnOk)
      (transaction-OnOk (Exchanged r id db) (fill_work m r id) db
        (fill_work-Exchanged m r id db ids single))
