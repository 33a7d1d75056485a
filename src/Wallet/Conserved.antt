-- ===== src/Wallet/Conserved.antt =====
-- A send conserves coin but for its fee (bank/wallet.js, `send`).
use agents_playground.Prelude.{
  ℕ, ◌+◌, ◌≤◌, ◌≡◌, refl, String, text_eq, text_eq_refl, ==_refl, Bool, true, false, not, Option,
  none, some, List, ◌==◌, ◌&&◌, arith, first,
}
use agents_playground.Db.{Coin, Holding, Wallet, Db}
use agents_playground.Trading.{Market, is_of}
use agents_playground.Trading.Coin.{
  IsSingle, coin_of, coin_total, taken_rows, put_rows-total, taken_rows-total, taken-IsSingle,
}
use agents_playground.Trading.Holders.{
  Holders, holders, put, take_from, holders-put_rows, holders-taken_rows,
}
use agents_playground.Wallet.Sending.{SendRequest}
use agents_playground.Wallet.Sent.{SameMoney, delivered_rows}

-- What nobody holds any more: the fee, and what was sent to an address that nobody holds.
abbrev pub lost : ℕ → ℕ → Option Wallet → ℕ
lost fee quantity none = fee + quantity
lost fee quantity (some w) = fee

-- A send as it looks from outside: coin leaves the sender and reaches the owner of the address.
abbrev pub sent : Holders → ℕ → String → ℕ → ℕ → Option Wallet → Holders
sent f user_id symbol fee quantity none = take_from f user_id symbol (quantity + fee)
sent f user_id symbol fee quantity (some w) =
    put (take_from f user_id symbol (quantity + fee)) w.user_id symbol quantity

abbrev pub Sent : SendRequest → String → ℕ → Option Wallet → Db → Db → Type 0
Sent r symbol fee owner db d =
    (r.quantity_atoms + fee ≤ coin_of r.user_id symbol db.holdings)
    × (holders d.holdings ≡ sent (holders db.holdings) r.user_id symbol fee r.quantity_atoms owner)
    × (coin_total symbol d.holdings + lost fee r.quantity_atoms owner
        ≡ coin_total symbol db.holdings)
    × SameMoney d db

abbrev pub of_other : ℕ → Option Wallet → Bool
of_other user_id none = true
of_other user_id (some w) = not (w.user_id == user_id)

module _ (u : ℕ) (symbol : String) where
  counted : (u == u && text_eq symbol symbol) ≡ true
  counted = ground (arith, ==_refl u, text_eq_refl symbol)

  uncounted : (v : ℕ) → (u == v) ≡ false → (u == v && text_eq symbol symbol) ≡ false
  uncounted v e = ground arith

pub delivered-Sent :
    (m : Market) (r : SendRequest) (coin : Coin) (price fee id cost : ℕ) (owner : Option Wallet)
    (hs : List Holding) {h : Holding} (db d : Db)
    → db.holdings ≡ hs
    → of_other r.user_id owner ≡ true
    → IsSingle hs
    → first (is_of r.user_id coin.symbol) hs ≡ some h
    → r.quantity_atoms + fee ≤ h.quantity_atoms
    → d.holdings
      ≡ delivered_rows m r coin price owner id
          (taken_rows r.user_id coin.symbol (r.quantity_atoms + fee) cost hs)
    → SameMoney d db
    → Sent r coin.symbol fee owner db d
delivered-Sent m r coin price fee id cost none hs {h} db d same other single there enough rows
      money =
    let s = coin.symbol in
    let all' = r.quantity_atoms + fee in
    (
      rw same (
          omega (
            arith,
            taken_rows-total r.user_id s (λ v t. v == r.user_id && text_eq t s) all' cost hs {h = h}
                (counted r.user_id s) single there enough,
          )),
      rw (same, rows) (holders-taken_rows r.user_id s all' cost hs {h = h} single there enough),
      rw (same, rows)
          (omega (
            arith,
            taken_rows-total r.user_id s (λ v t. text_eq t s) all' cost hs {h = h} (text_eq_refl s)
                single there enough,
          )),
      money,
    )
delivered-Sent m r coin price fee id cost (some w) hs {h} db d same other single there enough rows
      money =
    let s = coin.symbol in
    let q = r.quantity_atoms in
    let mid = taken_rows r.user_id s (q + fee) cost hs in
    let landed = m.cents_for_atoms q price in
    let kept : IsSingle mid = taken-IsSingle (is_of r.user_id s) (q + fee) cost hs single in
    let mine = λ (v : ℕ) (t : String). v == r.user_id && text_eq t s in
    let total' = λ (v : ℕ) (t : String). text_eq t s in
    (
      rw same (
          omega (
            arith,
            taken_rows-total r.user_id s mine (q + fee) cost hs {h = h} (counted r.user_id s) single
                there enough,
          )),
      rw
          (
            same,
            rows,
            holders-put_rows w.user_id s q landed id mid kept,
            holders-taken_rows r.user_id s (q + fee) cost hs {h = h} single there enough,
          )
          refl,
      rw (same, rows, put_rows-total w.user_id s total' q landed id mid (text_eq_refl s) kept)
          (omega (
            arith,
            taken_rows-total r.user_id s total' (q + fee) cost hs {h = h} (text_eq_refl s) single
                there enough,
          )),
      money,
    )
