-- ===== src/Trading/Effects.antt =====
-- What filling a quote has done when it succeeds (bank/trading.js, `fillQuote`).
use mathlib.Core.Path.{subst}
use agents_playground.Prelude.{
  sym, ℕ, ◌+◌, ◌≤◌, ◌≡◌, refl, false, Option, none, some, Option-cases, Bool-cases, inl, inr, ◌∷◌,
  ◌&&◌, first, update_where, ltb, arith,
}
use agents_playground.Db.{
  Account, Holding, Quote, Side, Db, Error, OnOk, OnOk-bind, OnOk-map, throw_if-OnOk, row_or-OnOk,
  ◌>>=◌, ok,
}
use agents_playground.Money.{credit, has_id, covers, take_cents, add_cents, to_entry}
use agents_playground.Trading.Rates.{Market}
use agents_playground.Trading.Holdings.{find_holding, keeps_checks}
use agents_playground.Trading.Coin.{put_rows, taken_rows}
use agents_playground.Trading.Filling.{
  Fill, Moved, is_claimable, stamp_used, claim_quote, buy_coin, sell_coin, trade_sides, trade_entry,
}
use agents_playground.Trading.Fills.{
  is_own, is_late, own_account, fill_from, record_trade, fill_claimed, fill_work, Receipt,
  to_receipt,
}

-- Which row the debit found, and the state after a buy's money and coin have moved.
abbrev pub Bought : Fill → Quote → Option Holding → Db → Moved → Db → Type 0
Bought r q o db moved d =
    (a : Account) × (id : ℕ) × (first (λ x. has_id r.account_id x && covers q.net_cents x)
        db.accounts
      ≡ some a)
    × (moved ≡ ((take_cents q.net_cents a).balance_cents, 0))
    × (d.accounts
        ≡ update_where (λ x. has_id r.account_id x && covers q.net_cents x) (take_cents q.net_cents)
            db.accounts)
    × (d.holdings ≡ put_rows r.user_id q.symbol q.filled_atoms q.net_cents id o db.holdings)
    × (d.transactions ≡ db.transactions)
    × (d.quotes ≡ db.quotes)

-- The same of a sell, with the holding that was there.
abbrev pub Sold : Market → Fill → Quote → Option Holding → Db → Moved → Db → Type 0
Sold m r q o db moved d =
    (a : Account) × (h : Holding) × (first (has_id r.account_id) db.accounts ≡ some a)
    × (o ≡ some h)
    × (q.filled_atoms ≤ h.quantity_atoms)
    × (moved ≡ (
      (add_cents q.net_cents a).balance_cents,
      m.share h.cost_cents q.filled_atoms h.quantity_atoms,
    ))
    × (d.accounts ≡ update_where (has_id r.account_id) (add_cents q.net_cents) db.accounts)
    × (d.holdings
        ≡ taken_rows r.user_id q.symbol q.filled_atoms
            (m.share h.cost_cents q.filled_atoms h.quantity_atoms) db.holdings)
    × (d.transactions ≡ db.transactions)
    × (d.quotes ≡ db.quotes)

buy_coin-Bought :
    (r : Fill) (q : Quote) (o : Option Holding) (db : Db)
    → OnOk (Bought r q o db) (buy_coin r q o db)
unfolding buy_coin
buy_coin-Bought r q none db =
    elim (Option-cases (first (λ x. has_id r.account_id x && covers q.net_cents x) db.accounts)) [
      | inl broke ↦ rw broke tt
      | inr (a, found) ↦ rw found (a, db.uuids db.drawn, found, refl, refl, refl, refl, refl)
    ]
buy_coin-Bought r q (some h) db =
    elim (Option-cases (first (λ x. has_id r.account_id x && covers q.net_cents x) db.accounts)) [
      | inl broke ↦ rw broke tt
      | inr (a, found) ↦ rw found (a, 0, found, refl, refl, refl, refl, refl)
    ]

abbrev sold : Market → Fill → Quote → Holding → Db → Db
sold m r q h db = record db {
  accounts = update_where (has_id r.account_id) (add_cents q.net_cents) db.accounts;
  holdings =
      taken_rows r.user_id q.symbol q.filled_atoms
        (m.share h.cost_cents q.filled_atoms h.quantity_atoms) db.holdings;
}

abbrev proceeds : Market → Fill → Quote → Holding → Account → Moved
proceeds m r q h a =
    ((add_cents q.net_cents a).balance_cents, m.share h.cost_cents q.filled_atoms h.quantity_atoms)

sell_coin-Sold :
    (m : Market) (r : Fill) (q : Quote) (o : Option Holding) (db : Db)
    → OnOk (Sold m r q o db) (sell_coin m r q o db)
unfolding sell_coin credit
sell_coin-Sold m r q none db = tt
sell_coin-Sold m r q (some h) db =
    let cost = m.share h.cost_cents q.filled_atoms h.quantity_atoms in
    elim (Bool-cases (ltb h.quantity_atoms q.filled_atoms)) [
      | inl short ↦ rw short tt
      | inr enough ↦ elim (Bool-cases (keeps_checks q.filled_atoms cost h)) [
        | inl kept ↦ elim (Option-cases (first (has_id r.account_id) db.accounts)) [
          | inl missing ↦ ground (arith, enough, kept, missing)
          | inr (a, found) ↦
              let e : sell_coin m r q (some h) db ≡ (ok (proceeds m r q h a), sold m r q h db) =
                ground (arith, enough, kept, found) in
              subst (OnOk (Sold m r q (some h) db)) (sym e)
                (a, h, found, refl, ground (arith, enough), refl, refl, refl, refl, refl)
        ]
        | inr below ↦ ground (arith, enough, below)
      ]
    ]

abbrev pub Sides : Market → Fill → Quote → Option Holding → Side → Db → Moved → Db → Type 0
Sides m r q o Side.buy = Bought r q o
Sides m r q o Side.sell = Sold m r q o

trade_sides-Sides :
    (m : Market) (r : Fill) (q : Quote) (o : Option Holding) (s : Side) (db : Db)
    → OnOk (Sides m r q o s db) (trade_sides m r q o s db)
unfolding trade_sides
trade_sides-Sides m r q o Side.buy db = buy_coin-Bought r q o db
trade_sides-Sides m r q o Side.sell db = sell_coin-Sold m r q o db

-- What the records add.
abbrev pub Recorded : Fill → Quote → Account → Moved → Db → Receipt → Db → Type 0
Recorded r q a moved db x d =
    (id : ℕ) × (t : ℕ) × (d.transactions
      ≡ to_entry (trade_entry r q moved.0) id db.now ∷ db.transactions)
    × (x ≡ to_receipt q a moved t)
    × (d.accounts ≡ db.accounts)
    × (d.holdings ≡ db.holdings)
    × (d.quotes ≡ db.quotes)

record_trade-Recorded :
    (r : Fill) (q : Quote) (a : Account) (moved : Moved) (db : Db)
    → OnOk (Recorded r q a moved db) (record_trade r q a moved db)
unfolding record_trade
record_trade-Recorded r q a moved db =
    (db.uuids db.drawn, db.uuids (db.drawn + 1), refl, refl, refl, refl, refl)

-- Money and coin moved, then recorded.
abbrev pub Traded : Market → Fill → Quote → Db → Receipt → Db → Type 0
Traded m r q db x d =
    (a : Account) × (moved : Moved) × (mid : Db) × (is_late r q ≡ false)
    × (first (is_own r) db.accounts ≡ some a)
    × Sides m r q (find_holding r.user_id q.symbol db) q.side db moved mid
    × Recorded r q a moved mid x d

fill_from-Traded :
    (m : Market) (r : Fill) (q : Quote) (a : Account) (db : Db)
    → is_late r q ≡ false
    → first (is_own r) db.accounts ≡ some a
    → OnOk (Traded m r q db) (fill_from m r q a db)
unfolding fill_from
fill_from-Traded m r q a db fresh own =
    let o = find_holding r.user_id q.symbol db in
    OnOk-bind (Sides m r q o q.side db) (Traded m r q db) (trade_sides m r q o q.side)
      (record_trade r q a) db (trade_sides-Sides m r q o q.side db)
      (λ moved mid s.
        OnOk-map (Recorded r q a moved mid) (Traded m r q db) (record_trade r q a moved mid)
          (λ x d k. (a, moved, mid, fresh, own, s, k)) (record_trade-Recorded r q a moved mid))

pub fill_claimed-Traded :
    (m : Market) (r : Fill) (q : Quote) (db : Db) → OnOk (Traded m r q db) (fill_claimed m r q db)
unfolding fill_claimed
fill_claimed-Traded m r q db =
    throw_if-OnOk (Traded m r q db) (is_late r q) Error.quote_expired
      (own_account r >>= fill_from m r q) db
      (λ fresh.
        row_or-OnOk (Traded m r q db) Error.quote_not_found (first (is_own r) db.accounts)
          (fill_from m r q) db (λ a own. fill_from-Traded m r q a db fresh own))

abbrev pub claimed : Fill → ℕ → Db → Db
claimed r id db = record db {
  quotes = update_where (is_claimable r.user_id id) (stamp_used db.now) db.quotes;
}

abbrev pub Claimed : Fill → ℕ → Db → Quote → Db → Type 0
Claimed r id db q' d =
    (q : Quote) × (first (is_claimable r.user_id id) db.quotes ≡ some q)
    × (q' ≡ stamp_used db.now q)
    × (d ≡ claimed r id db)

claim_quote-Claimed :
    (r : Fill) (id : ℕ) (db : Db) → OnOk (Claimed r id db) (claim_quote r.user_id id db)
unfolding claim_quote
claim_quote-Claimed r id db = elim (Option-cases (first (is_claimable r.user_id id) db.quotes)) [
  | inl gone ↦ ground (arith, gone)
  | inr (q, found) ↦
      let e : claim_quote r.user_id id db ≡ (ok (stamp_used db.now q), claimed r id db) =
        ground (arith, found) in
      subst (OnOk (Claimed r id db)) (sym e) (q, found, refl, refl)
]

-- The claim and the trade: which unused quote it was.
abbrev pub Filled : Market → Fill → ℕ → Db → Receipt → Db → Type 0
Filled m r id db x d =
    (q : Quote) × (first (is_claimable r.user_id id) db.quotes ≡ some q)
    × Traded m r (stamp_used db.now q) (claimed r id db) x d

pub fill_work-Filled :
    (m : Market) (r : Fill) (id : ℕ) (db : Db) → OnOk (Filled m r id db) (fill_work m r id db)
unfolding fill_work
fill_work-Filled m r id db =
    OnOk-bind (Claimed r id db) (Filled m r id db) (claim_quote r.user_id id) (fill_claimed m r) db
      (claim_quote-Claimed r id db)
      (λ q' d (q, found, e, s).
        rw (e, s)
          (OnOk-map (Traded m r (stamp_used db.now q) (claimed r id db)) (Filled m r id db) _
            (λ x d' k. (q, found, k))
            (fill_claimed-Traded m r (stamp_used db.now q) (claimed r id db))))
