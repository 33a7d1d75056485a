-- ===== src/Trading/Holders.antt =====
-- The abstract view of the holdings (bank/trading.js, bank/wallet.js): how much of each coin each
-- customer has, without rows, their order, their ids and what they cost.
use agents_playground.Prelude.{
  ℕ, ◌+◌, ◌-◌, ◌≤◌, ◌≡◌, refl, String, text_eq, Bool, some, List, ◌==◌, ◌&&◌, arith, first,
  if◌then◌else◌, Bool-cases, inl, inr,
}
use agents_playground.Db.{Holding}
use agents_playground.Trading.Holdings.{is_of}
use agents_playground.Trading.Coin.{
  IsSingle, coin_of, put_rows, taken_rows, put_rows-total, put_rows-others, taken_rows-total,
  taken_rows-others,
}

abbrev pub Holders : Type 0
Holders = ℕ → String → ℕ

abbrev pub holders : List Holding → Holders
holders hs = λ u s. coin_of u s hs

-- Coin arrives at a customer, and leaves one.
abbrev pub put : Holders → ℕ → String → ℕ → Holders
put f user_id symbol atoms =
    λ u s. if user_id == u && text_eq symbol s then f u s + atoms else f u s

abbrev pub take_from : Holders → ℕ → String → ℕ → Holders
take_from f user_id symbol atoms =
    λ u s. if user_id == u && text_eq symbol s then f u s - atoms else f u s

module _ (user_id : ℕ) (symbol : String) (atoms cost : ℕ) where
  abbrev counts : ℕ → String → ℕ → String → Bool
  counts u s v t = v == u && text_eq t s

  put_at :
      (id : ℕ) (hs : List Holding) (u : ℕ) (s : String)
      → IsSingle hs
      → coin_of u s (put_rows user_id symbol atoms cost id (first (is_of user_id symbol) hs) hs)
        ≡ put (holders hs) user_id symbol atoms u s
  put_at id hs u s single = elim (Bool-cases (counts u s user_id symbol)) [
    | inl mine ↦
        rw (mine, put_rows-total user_id symbol (counts u s) atoms cost id hs mine single) refl
    | inr other ↦
        rw
          (
            other,
            put_rows-others user_id symbol (counts u s) atoms cost id
                (first (is_of user_id symbol) hs) hs other,
          )
          refl
  ]

  taken_at :
      (hs : List Holding) {h : Holding} (u : ℕ) (s : String)
      → IsSingle hs
      → first (is_of user_id symbol) hs ≡ some h
      → atoms ≤ h.quantity_atoms
      → coin_of u s (taken_rows user_id symbol atoms cost hs)
        ≡ take_from (holders hs) user_id symbol atoms u s
  taken_at hs {h} u s single there enough = elim (Bool-cases (counts u s user_id symbol)) [
    | inl mine ↦ rw mine (
        omega (
          arith,
          taken_rows-total user_id symbol (counts u s) atoms cost hs {h = h} mine single there
              enough,
        ))
    | inr other ↦ rw (other, taken_rows-others user_id symbol (counts u s) atoms cost hs other) refl
  ]

  pub holders-put_rows :
      (id : ℕ) (hs : List Holding)
      → IsSingle hs
      → holders (put_rows user_id symbol atoms cost id (first (is_of user_id symbol) hs) hs)
        ≡ put (holders hs) user_id symbol atoms
  holders-put_rows id hs single = λ i u s. put_at id hs u s single i

  pub holders-taken_rows :
      (hs : List Holding) {h : Holding}
      → IsSingle hs
      → first (is_of user_id symbol) hs ≡ some h
      → atoms ≤ h.quantity_atoms
      → holders (taken_rows user_id symbol atoms cost hs)
        ≡ take_from (holders hs) user_id symbol atoms
  holders-taken_rows hs {h} single there enough =
      λ i u s. taken_at hs {h = h} u s single there enough i
