-- ===== src/Wallet/Aside.antt =====
-- Sends and swaps leave every balance and its history alone (bank/wallet.js).
use agents_playground.Prelude.{
  ℕ, ◌+◌, refl, Chars, codes, arith, Option, none, some, first, trim, chars_eq, upper, leb,
  Bool-cases, inl, inr,
}
use agents_playground.Db.{
  Coin, Wallet, Db, Error, Action, Result, ok, err, OnOk, OnOk-map, OnOk-bind, Keeps, Keeps-bind,
  Keeps-throw_if, Keeps-row_or, transaction, transaction-keeps, select, ◌>>=◌, ◌>>◌,
}
use agents_playground.Coins.{find_coin, is_called}
use agents_playground.Trading.{Market, find_holding, put_coin}
use agents_playground.Wallet.Addresses.{Hash, parse_address}
use agents_playground.Wallet.Owners.{find_owner}
use agents_playground.Wallet.Sending.{
  SendRequest, fee_atoms_for, check_address, check_owner, take_share, deliver, record_send,
  send_work, send_coin, send_priced, send_to_owner, send, same_coin_or_throw,
}
use agents_playground.Wallet.Swapping.{
  SwapRequest, SwapTerms, swap_terms, preview_swap, record_swap, put_and_record, swap_work, swap_on,
  swap,
}
use agents_playground.Wallet.Sent.{
  Shared, take_share-Shared, SameMoney, Delivered, deliver-Delivered, Noted, record_send-Noted,
}
use agents_playground.Wallet.Swapped.{Put, put_coin-Put, record_swap-SameMoney}

module _ (m : Market) (r : SendRequest) (coin : Coin) (price : ℕ) (owner : Option Wallet)
    (db : Db) where
  send_work-SameMoney : OnOk (λ _ d. SameMoney d db) (send_work m r coin price owner db)
  unfolding send_work
  send_work-SameMoney =
      let fee = fee_atoms_for m price in
      let o = find_holding r.user_id coin.symbol db in
      let all' = r.quantity_atoms + fee in
      OnOk-bind (Shared r.user_id coin.symbol all' o db) (λ _ d. SameMoney d db)
        (take_share m r.user_id coin.symbol all' o)
        (λ _. deliver m r coin price owner >> record_send r coin fee owner) db
        (take_share-Shared m r.user_id coin.symbol all' o db)
        (λ cost d1 (_, _, _, e).
          OnOk-bind (λ _ d. Delivered m r coin price owner d1 d) (λ _ d. SameMoney d db)
            (deliver m r coin price owner) (λ _. record_send r coin fee owner) d1
            (deliver-Delivered m r coin price owner d1)
            (λ _ d2 (_, _, (as', es)).
              OnOk-map (Noted r coin fee owner d2) (λ _ d. SameMoney d db)
                (record_send r coin fee owner d2)
                (λ x d (_, _, _, (as2, es2)). (rw (as2, as', e) refl, rw (es2, es, e) refl))
                (record_send-Noted r coin fee owner d2)))

module _ (m : Market) (r : SwapRequest) (t : SwapTerms) (db : Db) where
  swap_work-SameMoney : OnOk (λ _ d. SameMoney d db) (swap_work m r t db)
  unfolding swap_work put_and_record
  swap_work-SameMoney =
      let u = r.user_id in
      let a = t.from.symbol in
      let b = t.to.symbol in
      let o = find_holding u a db in
      OnOk-bind (Shared u a r.quantity_atoms o db) (λ _ d. SameMoney d db)
        (take_share m u a r.quantity_atoms o) (put_and_record r t) db
        (take_share-Shared m u a r.quantity_atoms o db)
        (λ cost d1 (_, _, _, e).
          let target = find_holding u b d1 in
          OnOk-bind (λ _ d. Put u b t.to_atoms cost d1 d) (λ _ d. SameMoney d db)
            (put_coin u b t.to_atoms cost target) (λ _. record_swap r t cost) d1
            (put_coin-Put u b t.to_atoms cost target d1 refl)
            (λ _ d2 (_, _, (as', es)).
              OnOk-map (λ _ d. SameMoney d d2) (λ _ d. SameMoney d db) (record_swap r t cost d2)
                (λ x d (as2, es2). (rw (as2, as', e) refl, rw (es2, es, e) refl))
                (record_swap-SameMoney r t cost d2)))

-- A property of the balances and their history survives both, whatever they answer or throw.
module _ (P : Db → Type 0) (same : (db d : Db) → SameMoney d db → P db → P d) where
  committed-Keeps :
      {A : Type 0} (w : Action A)
      → ((db : Db) → OnOk (λ _ d. SameMoney d db) (w db))
      → Keeps P (transaction w)
  committed-Keeps w h db p =
      same db (transaction w db).1
        (transaction-keeps (λ d. SameMoney d db) w db (λ _. (refl, refl)) (h db)) p

  same_coin-Keeps :
      (coin : Coin) (address : Result (Chars × Chars)) → Keeps P (same_coin_or_throw coin address)
  same_coin-Keeps coin (err e) db p = p
  same_coin-Keeps coin (ok (symbol, body)) db p =
      elim (Bool-cases (chars_eq symbol (codes coin.symbol))) [
        | inl yes' ↦ rw yes' p
        | inr no' ↦ rw no' p
      ]

  check_address-Keeps :
      (h : Hash) (r : SendRequest) (coin : Coin) → Keeps P (check_address h r coin)
  unfolding check_address
  check_address-Keeps h r coin db p = elim (Bool-cases r.bad_address) [
    | inl armed ↦ rw armed p
    | inr safe ↦ rw safe (same_coin-Keeps coin (parse_address h r.to_address) db p)
  ]

  check_owner-Keeps : (r : SendRequest) (o : Option Wallet) → Keeps P (check_owner r o)
  unfolding check_owner
  check_owner-Keeps r none db p = ground (arith, p)
  check_owner-Keeps r (some w) db p = ground (arith, p)

  pub send-Keeps : (m : Market) (h : Hash) (r : SendRequest) → Keeps P (send m h r)
  unfolding send find_coin send_coin send_to_owner send_priced
  send-Keeps m h r =
      Keeps-row_or P Error.unknown_coin (λ db. first (is_called (trim r.symbol)) db.coins)
        (send_coin m h r)
        (λ coin.
          Keeps-bind P (check_address h r coin)
            (λ _. select (find_owner (trim r.to_address)) >>= send_to_owner m r coin)
            (check_address-Keeps h r coin)
            (λ _ db.
              let owner = find_owner (trim r.to_address) db in
              Keeps-bind P (check_owner r owner) (λ _. send_priced m r coin owner)
                (check_owner-Keeps r owner)
                (λ _ d.
                  committed-Keeps
                    (send_work m r coin (m.price r.user_key coin r.at_ms d.trades) owner)
                    (send_work-SameMoney m r coin (m.price r.user_key coin r.at_ms d.trades) owner)
                    d)
                db))

  swap_on-Keeps : (m : Market) (r : SwapRequest) (t : SwapTerms) → Keeps P (swap_on m r t)
  unfolding swap_on
  swap_on-Keeps m r t =
      Keeps-throw_if P (leb t.to_atoms 0) Error.not_enough_coin (transaction (swap_work m r t))
        (committed-Keeps (swap_work m r t) (swap_work-SameMoney m r t))

  preview_swap-Keeps : (m : Market) (r : SwapRequest) → Keeps P (preview_swap m r)
  unfolding preview_swap find_coin
  preview_swap-Keeps m r =
      Keeps-throw_if P (chars_eq (upper r.from_symbol) (upper r.to_symbol)) Error.same_coin
        (find_coin r.from_symbol >>= λ from.
          find_coin r.to_symbol >>= λ to. select (swap_terms m r from to))
        (Keeps-row_or P Error.unknown_coin (λ db. first (is_called (trim r.from_symbol)) db.coins)
          (λ from. find_coin r.to_symbol >>= λ to. select (swap_terms m r from to))
          (λ from.
            Keeps-row_or P Error.unknown_coin (λ db. first (is_called (trim r.to_symbol)) db.coins)
              (λ to. select (swap_terms m r from to)) (λ to d p. p)))

  pub swap-Keeps : (m : Market) (r : SwapRequest) → Keeps P (swap m r)
  unfolding swap
  swap-Keeps m r =
      Keeps-bind P (preview_swap m r) (swap_on m r) (preview_swap-Keeps m r) (swap_on-Keeps m r)
