-- ===== src/Wallet/Sends.antt =====
-- The whole of a send, from the coin's name to the record (bank/wallet.js, `send`).
use agents_playground.Prelude.{
  ℕ, ◌+◌, ◌≡◌, ◌⊎◌, inl, inr, refl, true, Option, none, some, arith, first, Bool-cases, trim, Chars,
  chars_eq, codes,
}
use agents_playground.Db.{
  Coin, Wallet, Db, Error, Result, ok, err, OnOk, OnOk-map, OnOk-bind, transaction-OnOk,
  row_or-OnOk, select, ◌>>=◌, ◌>>◌,
}
use agents_playground.Coins.{find_coin, is_called}
use agents_playground.Trading.{Market, find_holding}
use agents_playground.Trading.Coin.{IsSingle}
use agents_playground.Wallet.Addresses.{Hash, parse_address}
use agents_playground.Wallet.Owners.{find_owner}
use agents_playground.Wallet.Sending.{
  SendRequest, SendView, fee_atoms_for, check_address, check_owner, take_share, deliver,
  record_send, send_work, send_coin, send_priced, send_to_owner, send, is_owned, same_coin_or_throw,
}
use agents_playground.Wallet.Sent.{
  Shared, take_share-Shared, Delivered, deliver-Delivered, Noted, record_send-Noted,
}
use agents_playground.Wallet.Conserved.{Sent, of_other, delivered-Sent}

-- The receipt names the fee and whether the coin was delivered.
abbrev pub Receipted : ℕ → Option Wallet → SendView → Type 0
Receipted fee owner x = (x.fee_atoms ≡ fee) × (x.delivered ≡ is_owned owner)

abbrev pub IsSend : Market → SendRequest → Coin → ℕ → Option Wallet → Db → SendView → Db → Type 0
IsSend m r coin price owner db x d =
    Receipted (fee_atoms_for m price) owner x
    × Sent r coin.symbol (fee_atoms_for m price) owner db d

send_work-IsSend :
    (m : Market) (r : SendRequest) (coin : Coin) (price : ℕ) (owner : Option Wallet) (db : Db)
    → IsSingle db.holdings
    → of_other r.user_id owner ≡ true
    → OnOk (IsSend m r coin price owner db) (send_work m r coin price owner db)
unfolding send_work find_holding
send_work-IsSend m r coin price owner db single other =
    let fee = fee_atoms_for m price in
    let all' = r.quantity_atoms + fee in
    let o = find_holding r.user_id coin.symbol db in
    OnOk-bind (Shared r.user_id coin.symbol all' o db) (IsSend m r coin price owner db)
      (take_share m r.user_id coin.symbol all' o)
      (λ _. deliver m r coin price owner >> record_send r coin fee owner) db
      (take_share-Shared m r.user_id coin.symbol all' o db)
      (λ cost d1 (h, there, enough, e).
        OnOk-bind (λ _ d. Delivered m r coin price owner d1 d) (IsSend m r coin price owner db)
          (deliver m r coin price owner) (λ _. record_send r coin fee owner) d1
          (deliver-Delivered m r coin price owner d1)
          (λ _ d2 (id, rows, (as', es)).
            OnOk-map (Noted r coin fee owner d2) (IsSend m r coin price owner db)
              (record_send r coin fee owner d2)
              (λ x d (n, view, same, (as2, es2)). (
                rw view (refl, refl),
                delivered-Sent m r coin price fee id cost owner db.holdings {h = h} db d refl other
                    single there enough (rw (same, rows, e) refl)
                    (rw (as2, as', e) refl, rw (es2, es, e) refl),
              ))
              (record_send-Noted r coin fee owner d2)))

same_coin-same :
    (coin : Coin) (x : Result (Chars × Chars)) (db : Db)
    → OnOk (λ _ d. d ≡ db) (same_coin_or_throw coin x db)
same_coin-same coin (err e) db = tt
same_coin-same coin (ok (symbol, body)) db =
    elim (Bool-cases (chars_eq symbol (codes coin.symbol))) [
      | inl same ↦ rw same refl
      | inr other ↦ rw other tt
    ]

-- A check leaves the state, and an owner that passes is someone else.
check_address-same :
    (h : Hash) (r : SendRequest) (coin : Coin) (db : Db)
    → OnOk (λ _ d. d ≡ db) (check_address h r coin db)
unfolding check_address
check_address-same h r coin db = elim (Bool-cases r.bad_address) [
  | inl armed ↦ rw armed refl
  | inr safe ↦ rw safe (same_coin-same coin (parse_address h r.to_address) db)
]

abbrev Passed : SendRequest → Option Wallet → Db → Unit {0} → Db → Type 0
Passed r owner db _ d =
    (d ≡ db)
    × (of_other r.user_id owner ≡ true)
    × ((r.bad_address ≡ true) ⊎ (is_owned owner ≡ true))

check_owner-other :
    (r : SendRequest) (owner : Option Wallet) (db : Db)
    → OnOk (Passed r owner db) (check_owner r owner db)
unfolding check_owner
check_owner-other r none db = ground arith
check_owner-other r (some w) db = ground arith

-- The coin that the request names, the price it has, and the send; without the planted fault it was
-- delivered.
abbrev pub IsDelivered : SendRequest → SendView → Type 0
IsDelivered r x = (r.bad_address ≡ true) ⊎ (x.delivered ≡ true)

abbrev pub HasSent : Market → SendRequest → Coin → Db → SendView → Db → Type 0
HasSent m r coin db x d =
    IsDelivered r x
    × IsSend m r coin (m.price r.user_key coin r.at_ms db.trades)
        (find_owner (trim r.to_address) db) db x d

send_to_owner-HasSent :
    (m : Market) (r : SendRequest) (coin : Coin) (db : Db)
    → IsSingle db.holdings
    → OnOk (HasSent m r coin db) (send_to_owner m r coin (find_owner (trim r.to_address) db) db)
unfolding send_to_owner send_priced
send_to_owner-HasSent m r coin db single =
    let owner = find_owner (trim r.to_address) db in
    let price = m.price r.user_key coin r.at_ms db.trades in
    OnOk-bind (Passed r owner db) (HasSent m r coin db) (check_owner r owner)
      (λ _. send_priced m r coin owner) db (check_owner-other r owner db)
      (λ _ d (e, other, known). rw e (
        transaction-OnOk (HasSent m r coin db) (send_work m r coin price owner) db (
          OnOk-map (IsSend m r coin price owner db) (HasSent m r coin db)
            (send_work m r coin price owner db)
            (λ x d' ((fee, shown'), s). (rw shown' known, ((fee, shown'), s)))
            (send_work-IsSend m r coin price owner db single other))))

send_coin-HasSent :
    (m : Market) (h : Hash) (r : SendRequest) (coin : Coin) (db : Db)
    → IsSingle db.holdings
    → OnOk (HasSent m r coin db) (send_coin m h r coin db)
unfolding send_coin
send_coin-HasSent m h r coin db single =
    OnOk-bind (λ _ d. d ≡ db) (HasSent m r coin db) (check_address h r coin)
      (λ _. select (find_owner (trim r.to_address)) >>= send_to_owner m r coin) db
      (check_address-same h r coin db) (λ _ d e. rw e (send_to_owner-HasSent m r coin db single))

abbrev pub IsSent : Market → SendRequest → Db → SendView → Db → Type 0
IsSent m r db x d =
    (coin : Coin) × (first (is_called (trim r.symbol)) db.coins ≡ some coin)
    × HasSent m r coin db x d

-- With one holding for each customer and coin, a send that succeeds takes the amount and the fee at
-- the sender's price from the sender's coin, which was there, puts the amount to the recipient's,
-- and changes no other; of that coin nothing is lost but the fee and, under the planted fault, what
-- goes to an address that nobody holds; without the fault it is delivered. Balances and their
-- history stay as they were.
pub send-IsSent :
    (m : Market) (h : Hash) (r : SendRequest) (db : Db)
    → IsSingle db.holdings
    → OnOk (IsSent m r db) (send m h r db)
unfolding send find_coin
send-IsSent m h r db single =
    row_or-OnOk (IsSent m r db) Error.unknown_coin (first (is_called (trim r.symbol)) db.coins)
      (send_coin m h r) db
      (λ coin named.
        OnOk-map (HasSent m r coin db) (IsSent m r db) (send_coin m h r coin db)
          (λ x d k. (coin, named, k)) (send_coin-HasSent m h r coin db single))
