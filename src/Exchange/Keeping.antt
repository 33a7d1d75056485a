-- ===== src/Exchange/Keeping.antt =====
-- What the balances and their history have in common before and after a fill, they have before and
-- after a sweep (bank/exchange.js).
use agents_playground.Prelude.{
  ℕ, ◌+◌, refl, codes, Option, none, some, List, [], ◌∷◌, ◌==◌, ◌||◌, leb, first, trim, Chars,
  Bool-cases, Option-cases, inl, inr,
}
use agents_playground.Db.{
  Coin, Side, Quote, Order, Trade, Alert, FailReason, Db, Error, Action, pure, Keeps, Keeps-bind,
  Keeps-throw_if, Keeps-row_or, throw_if, ◌>>=◌, ◌>>◌,
}
use agents_playground.Coins.{find_coin, is_called}
use agents_playground.Money.Keeping.{Keeps-catch}
use agents_playground.Trading.{
  Market, QuoteRequest, QuoteAmounts, buy_amounts, sell_amounts, lacks, priced, quote_row,
  insert_quote, save_quote, to_quote_view, find_holding, quote_at, quote_coin, quote_trade,
  fee_basis_points_for, Fill, fill_quote,
}
use agents_playground.Wallet.Sent.{SameMoney}
use agents_playground.Exchange.Orders.{crosses, is_armed_alert}
use agents_playground.Exchange.Filling.{
  Sweeper, claim_order, close_order, fill_quoted, fill_of, quote_request, place_order, fail_order,
  fail_reason, fill_if_claimed, fill_order, fire_alert,
}
use agents_playground.Exchange.Sweeping.{
  price_of, fill_if_crossed, try_order, reached, fire_if_reached, try_alert, to_count, count_each,
  open_orders, armed_alerts, sweep,
}

-- Work that touches no balance and no history.
abbrev IsAside : {A : Type 0} → Action A → Type 0
IsAside m = (db : Db) → SameMoney (m db).1 db

insert_quote-Keeps : (start : Db) (q : Quote) → Keeps (λ d. SameMoney d start) (insert_quote q)
unfolding insert_quote
insert_quote-Keeps start q db p = elim (Bool-cases (q.filled_atoms == 0 || q.price_micros == 0)) [
  | inl broken ↦ rw broken p
  | inr fine ↦ rw fine p
]

module _ (m : Market) (r : QuoteRequest) (start : Db) where
  save_quote-Keeps :
      (coin : Coin) (price points : ℕ) (a : QuoteAmounts)
      → Keeps (λ d. SameMoney d start) (save_quote r coin price points a)
  unfolding save_quote
  save_quote-Keeps coin price points a db p =
      let q = quote_row r coin price a (db.uuids db.drawn) in
      Keeps-bind (λ d. SameMoney d start) (insert_quote q)
        (λ _. pure (to_quote_view r.fee_hidden q coin points)) (insert_quote-Keeps start q)
        (λ _ d k. k) (record db { drawn = db.drawn + 1 }) p

  priced-Keeps :
      (coin : Coin) (price points : ℕ) (s : Side)
      → Keeps (λ d. SameMoney d start) (priced m r coin price points s)
  unfolding priced
  priced-Keeps coin price points Side.buy db p =
      Keeps-throw_if (λ d. SameMoney d start)
        (leb (buy_amounts m price points r.asked).filled_atoms 0) Error.quote_not_found
        (pure (buy_amounts m price points r.asked)) (λ d k. k) db p
  priced-Keeps coin price points Side.sell db p =
      Keeps-throw_if (λ d. SameMoney d start)
        (lacks r.asked (find_holding r.user_id coin.symbol db)) Error.not_enough_coin
        (throw_if (leb (sell_amounts m price points r.asked).net_cents 0) Error.quote_not_found
          >> pure (sell_amounts m price points r.asked))
        (Keeps-throw_if (λ d. SameMoney d start)
          (leb (sell_amounts m price points r.asked).net_cents 0) Error.quote_not_found
          (pure (sell_amounts m price points r.asked)) (λ d k. k))
        db p

  quote_trade-Keeps : Keeps (λ d. SameMoney d start) (quote_trade m r)
  unfolding quote_trade find_coin quote_coin quote_at
  quote_trade-Keeps =
      Keeps-row_or (λ d. SameMoney d start) Error.unknown_coin
        (λ db. first (is_called (trim r.symbol)) db.coins) (quote_coin m r)
        (λ coin db.
          let price = m.price r.user_key coin r.at_ms db.trades in
          let points = fee_basis_points_for m r.user_id db in
          Keeps-bind (λ d. SameMoney d start) (priced m r coin price points r.side)
            (save_quote r coin price points) (priced-Keeps coin price points r.side)
            (save_quote-Keeps coin price points) db)

fail_order-IsAside :
    (s : Sweeper) (o : Order) (e : Error) (reason : Option FailReason)
    → IsAside (fail_order s o e reason)
unfolding fail_order
fail_order-IsAside s o e none db = (refl, refl)
fail_order-IsAside s o e (some reason) db = (refl, refl)

fire_alert-IsAside : (s : Sweeper) (a : Alert) (price : ℕ) → IsAside (fire_alert s a price)
unfolding fire_alert
fire_alert-IsAside s a price db =
    elim (Option-cases (first (is_armed_alert s.user_id a.id) db.alerts)) [
      | inl gone ↦ rw gone (refl, refl)
      | inr (c, there) ↦ rw there (refl, refl)
    ]

-- A property that the balances and their history decide, and that a fill keeps.
module _ (P : Db → Type 0) (same : (db d : Db) → SameMoney d db → P db → P d) where
  aside-Keeps : {A : Type 0} (w : Action A) → IsAside w → Keeps P w
  aside-Keeps w h db p = same db (w db).1 (h db) p

  count_each-Keeps :
      {A : Type 0} (f : A → Action ℕ) (xs : List A)
      → ((x : A) → Keeps P (f x))
      → Keeps P (count_each f xs)
  count_each-Keeps f [] h db p = p
  count_each-Keeps f (x ∷ xs) h db p =
      Keeps-bind P (f x) (λ n. count_each f xs >>= λ more. pure (n + more)) (h x)
        (λ n.
          Keeps-bind P (count_each f xs) (λ more. pure (n + more)) (count_each-Keeps f xs h)
            (λ more d k. k))
        db p

  module _ (m : Market) (fills : (r : Fill) → Keeps P (fill_quote m r)) (s : Sweeper) where
    place_order-Keeps : (o : Order) → Keeps P (place_order m s o)
    unfolding place_order fill_quoted close_order
    place_order-Keeps o =
        Keeps-bind P (quote_trade m (quote_request s o)) (fill_quoted m s o)
          (aside-Keeps (quote_trade m (quote_request s o))
            (λ db. quote_trade-Keeps m (quote_request s o) db db (refl, refl)))
          (λ q.
            Keeps-bind P (fill_quote m (fill_of s o q)) (close_order s o q) (fills (fill_of s o q))
              (λ x. aside-Keeps (close_order s o q x) (λ db. (refl, refl))))

    fill_if_claimed-Keeps : (o : Order) (c : Option Order) → Keeps P (fill_if_claimed m s o c)
    fill_if_claimed-Keeps o none db p = p
    fill_if_claimed-Keeps o (some c) db p =
        Keeps-catch P (place_order m s o) (λ e. fail_order s o e (fail_reason o.side e))
          (place_order-Keeps o)
          (λ e.
            aside-Keeps (fail_order s o e (fail_reason o.side e))
              (fail_order-IsAside s o e (fail_reason o.side e)))
          db p

    fill_order-Keeps : (o : Order) (price : ℕ) → Keeps P (fill_order m s o price)
    unfolding fill_order claim_order
    fill_order-Keeps o price =
        Keeps-bind P (claim_order s o price) (fill_if_claimed m s o)
          (aside-Keeps (claim_order s o price) (λ db. (refl, refl))) (fill_if_claimed-Keeps o)

    fill_if_crossed-Keeps : (o : Order) (price : ℕ) → Keeps P (fill_if_crossed m s o price)
    unfolding fill_if_crossed
    fill_if_crossed-Keeps o price db p =
        elim (Bool-cases (crosses o.side price o.limit_micros s.inverted)) [
          | inl yes' ↦ rw yes' (fill_order-Keeps o price db p)
          | inr no' ↦ rw no' p
        ]

    fire_if_reached-Keeps : (a : Alert) (price : ℕ) → Keeps P (fire_if_reached s a price)
    unfolding fire_if_reached
    fire_if_reached-Keeps a price db p =
        elim (Bool-cases (reached a.direction price a.limit_micros)) [
          | inl yes' ↦
              rw yes' (aside-Keeps (fire_alert s a price) (fire_alert-IsAside s a price) db p)
          | inr no' ↦ rw no' p
        ]

    price_of-IsAside : (trades : List Trade) (symbol : Chars) → IsAside (price_of m s trades symbol)
    unfolding price_of find_coin
    price_of-IsAside trades symbol db =
        Keeps-row_or (λ d. SameMoney d db) Error.unknown_coin
          (λ db. first (is_called (trim symbol)) db.coins)
          (λ coin. pure (m.price s.user_key coin s.at_ms trades)) (λ coin d k. k) db (refl, refl)

    try_order-Keeps : (trades : List Trade) (o : Order) → Keeps P (try_order m s trades o)
    unfolding try_order
    try_order-Keeps trades o =
        Keeps-bind P (price_of m s trades (codes o.symbol))
          (λ price. fill_if_crossed m s o price >>= λ filled. pure (to_count filled))
          (aside-Keeps (price_of m s trades (codes o.symbol))
            (price_of-IsAside trades (codes o.symbol)))
          (λ price.
            Keeps-bind P (fill_if_crossed m s o price) (λ filled. pure (to_count filled))
              (fill_if_crossed-Keeps o price) (λ filled d k. k))

    try_alert-Keeps : (trades : List Trade) (a : Alert) → Keeps P (try_alert m s trades a)
    unfolding try_alert
    try_alert-Keeps trades a =
        Keeps-bind P (price_of m s trades (codes a.symbol))
          (λ price. fire_if_reached s a price >>= λ fired. pure (to_count fired))
          (aside-Keeps (price_of m s trades (codes a.symbol))
            (price_of-IsAside trades (codes a.symbol)))
          (λ price.
            Keeps-bind P (fire_if_reached s a price) (λ fired. pure (to_count fired))
              (fire_if_reached-Keeps a price) (λ fired d k. k))

    pub sweep-Keeps : Keeps P (sweep m s)
    unfolding sweep
    sweep-Keeps db =
        let trades = db.trades in
        let alerts = armed_alerts s.user_id db in
        Keeps-bind P (count_each (try_order m s trades) (open_orders s.user_id db))
          (λ filled. count_each (try_alert m s trades) alerts >>= λ fired. pure (filled, fired))
          (count_each-Keeps (try_order m s trades) (open_orders s.user_id db)
            (try_order-Keeps trades))
          (λ filled.
            Keeps-bind P (count_each (try_alert m s trades) alerts) (λ fired. pure (filled, fired))
              (count_each-Keeps (try_alert m s trades) alerts (try_alert-Keeps trades))
              (λ fired d k. k))
          db
