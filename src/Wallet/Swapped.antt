-- ===== src/Wallet/Swapped.antt =====
-- What a swap does to the coin (bank/wallet.js, `swap`).
use agents_playground.Prelude.{
  ℕ, ◌+◌, ◌≤◌, ◌≡◌, refl, String, text_eq, text_eq→eq, text_eq_refl, ==_refl, List, Bool, true,
  false, Option, none, some, ◌==◌, ◌&&◌, arith, first, Bool-cases, inl, inr, leb, chars_eq, upper,
  trim, Chars,
}
use agents_playground.Db.{
  Coin, Holding, Swap, Db, Error, OnOk, OnOk-map, OnOk-bind, throw_if-OnOk, transaction-OnOk,
  transaction, row_or-OnOk, ◌>>=◌, select,
}
use agents_playground.Coins.{find_coin, is_called}
use agents_playground.Trading.{Market, find_holding, put_coin, is_of}
use agents_playground.Trading.Coin.{
  IsSingle, atoms_by, coin_of, coin_total, put_rows, taken_rows, put_rows-total, put_rows-others,
  taken_rows-total, taken_rows-others, taken-IsSingle,
}
use agents_playground.Trading.Holders.{
  holders, put, take_from, holders-put_rows, holders-taken_rows,
}
use agents_playground.Wallet.Sending.{take_share}
use agents_playground.Wallet.Swapping.{
  SwapRequest, SwapTerms, swap_terms, preview_swap, record_swap, breaks_checks, put_and_record,
  swap_work, swap_on, swap,
}
use agents_playground.Wallet.Sent.{Shared, take_share-Shared, SameMoney}

abbrev pub Put : ℕ → String → ℕ → ℕ → Db → Db → Type 0
Put user_id symbol atoms cost db d =
    (id : ℕ) × (d.holdings
      ≡ put_rows user_id symbol atoms cost id (find_holding user_id symbol db) db.holdings)
    × SameMoney d db

pub put_coin-Put :
    (user_id : ℕ) (symbol : String) (atoms cost : ℕ) (o : Option Holding) (db : Db)
    → find_holding user_id symbol db ≡ o
    → OnOk (λ _ d. Put user_id symbol atoms cost db d) (put_coin user_id symbol atoms cost o db)
unfolding put_coin
put_coin-Put user_id symbol atoms cost none db e = (db.uuids db.drawn, rw e refl, (refl, refl))
put_coin-Put user_id symbol atoms cost (some h) db e = (0, rw e refl, (refl, refl))

abbrev Noted : SwapRequest → SwapTerms → ℕ → Db → Swap → Db → Type 0
Noted r t cost db x d =
    (text_eq t.from.symbol t.to.symbol ≡ false)
    × (d.holdings ≡ db.holdings)
    × ((x.from_atoms ≡ r.quantity_atoms) × (x.to_atoms ≡ t.to_atoms))
    × SameMoney d db

record_swap-Noted :
    (r : SwapRequest) (t : SwapTerms) (cost : ℕ) (db : Db)
    → OnOk (Noted r t cost db) (record_swap r t cost db)
unfolding record_swap
record_swap-Noted r t cost db = elim (Bool-cases (breaks_checks r t)) [
  | inl broken ↦ rw broken tt
  | inr fine ↦ rw fine (ground (arith, fine), refl, (refl, refl), (refl, refl))
]

pub record_swap-SameMoney :
    (r : SwapRequest) (t : SwapTerms) (cost : ℕ) (db : Db)
    → OnOk (λ _ d. SameMoney d db) (record_swap r t cost db)
record_swap-SameMoney r t cost db =
    OnOk-map (Noted r t cost db) (λ _ d. SameMoney d db) (record_swap r t cost db)
      (λ x d (_, _, _, same). same) (record_swap-Noted r t cost db)

-- The customer's coin of the one kind became coin of the other.
abbrev pub Swapped : SwapRequest → SwapTerms → Db → Swap → Db → Type 0
Swapped r t db x d =
    ((x.from_atoms ≡ r.quantity_atoms) × (x.to_atoms ≡ t.to_atoms))
    × (r.quantity_atoms ≤ coin_of r.user_id t.from.symbol db.holdings)
    × (holders d.holdings
        ≡ put (take_from (holders db.holdings) r.user_id t.from.symbol r.quantity_atoms) r.user_id
            t.to.symbol t.to_atoms)
    × (coin_total t.from.symbol d.holdings + r.quantity_atoms
        ≡ coin_total t.from.symbol db.holdings)
    × (coin_total t.to.symbol d.holdings ≡ coin_total t.to.symbol db.holdings + t.to_atoms)
    × SameMoney d db

text_ne_sym : (a b : String) → text_eq a b ≡ false → text_eq b a ≡ false
text_ne_sym a b e = elim (Bool-cases (text_eq b a)) [
  | inl same ↦
      (let s : b ≡ a = text_eq→eq b a same in
        let e' : text_eq a a ≡ false = rw s at e in
        let f : text_eq a a ≡ true = text_eq_refl a in cc)
  | inr other ↦ other
]

-- The sums of coin after coin `a` was taken and coin `b` was put.
module _ (u : ℕ) (a b : String) (q n cost cost' id : ℕ) (hs : List Holding) (h : Holding) where
  abbrev swapped_rows : List Holding
  swapped_rows =
      let mid = taken_rows u a q cost hs in put_rows u b n cost' id (first (is_of u b) mid) mid

  module _ (p : ℕ → String → Bool) where
    from_total :
        p u a ≡ true
        → p u b ≡ false
        → IsSingle hs
        → first (is_of u a) hs ≡ some h
        → q ≤ h.quantity_atoms
        → atoms_by p swapped_rows + q ≡ atoms_by p hs
    from_total counted other single there enough =
        let mid = taken_rows u a q cost hs in
        rw (put_rows-others u b p n cost' id (first (is_of u b) mid) mid other)
          (taken_rows-total u a p q cost hs {h = h} counted single there enough)

    to_total :
        p u b ≡ true → p u a ≡ false → IsSingle hs → atoms_by p swapped_rows ≡ atoms_by p hs + n
    to_total counted other single =
        let mid = taken_rows u a q cost hs in
        rw
          (
            put_rows-total u b p n cost' id mid counted
                (taken-IsSingle (is_of u a) q cost hs single),
            taken_rows-others u a p q cost hs other,
          )
          refl

rows-Swapped :
    (r : SwapRequest) (t : SwapTerms) (cost id : ℕ) (db : Db) (x : Swap) (d : Db) {h : Holding}
    → IsSingle db.holdings
    → first (is_of r.user_id t.from.symbol) db.holdings ≡ some h
    → r.quantity_atoms ≤ h.quantity_atoms
    → text_eq t.from.symbol t.to.symbol ≡ false
    → d.holdings
      ≡ swapped_rows r.user_id t.from.symbol t.to.symbol r.quantity_atoms t.to_atoms cost cost id
          db.holdings h
    → (x.from_atoms ≡ r.quantity_atoms) × (x.to_atoms ≡ t.to_atoms)
    → SameMoney d db
    → Swapped r t db x d
rows-Swapped r t cost id db x d {h} single there enough differ rows amounts money =
    let a = t.from.symbol in
    let b = t.to.symbol in
    let u = r.user_id in
    let q = r.quantity_atoms in
    let n = t.to_atoms in
    let hs = db.holdings in
    let differ' = text_ne_sym a b differ in
    let any = λ (c : String) (v : ℕ) (s : String). text_eq s c in
    (
      amounts,
      omega (
        arith,
        taken_rows-total u a (λ v s. v == u && text_eq s a) q cost hs {h = h}
            (ground (arith, ==_refl u, text_eq_refl a)) single there enough,
      ),
      rw
          (
            rows,
            holders-put_rows u b n cost id (taken_rows u a q cost hs)
                (taken-IsSingle (is_of u a) q cost hs single),
            holders-taken_rows u a q cost hs {h = h} single there enough,
          )
          refl,
      rw rows (
          from_total u a b q n cost cost id hs h (any a) (text_eq_refl a) differ' single there
            enough),
      rw rows (to_total u a b q n cost cost id hs h (any b) (text_eq_refl b) differ single),
      money,
    )

swap_work-Swapped :
    (m : Market) (r : SwapRequest) (t : SwapTerms) (db : Db)
    → IsSingle db.holdings
    → OnOk (Swapped r t db) (swap_work m r t db)
unfolding swap_work put_and_record find_holding
swap_work-Swapped m r t db single =
    let a = t.from.symbol in
    let b = t.to.symbol in
    let u = r.user_id in
    let q = r.quantity_atoms in
    let n = t.to_atoms in
    let o = find_holding u a db in
    OnOk-bind (Shared u a q o db) (Swapped r t db) (take_share m u a q o) (put_and_record r t) db
      (take_share-Shared m u a q o db)
      (λ cost d1 (h, there, enough, e).
        let target = find_holding u b d1 in
        OnOk-bind (λ _ d. Put u b n cost d1 d) (Swapped r t db) (put_coin u b n cost target)
          (λ _. record_swap r t cost) d1 (put_coin-Put u b n cost target d1 refl)
          (λ _ d2 (id, rows, same).
            OnOk-map (Noted r t cost d2) (Swapped r t db) (record_swap r t cost d2)
              (λ x d (differ, kept, amounts, same2).
                rows-Swapped r t cost id db x d {h = h} single there enough differ
                  (rw (kept, rows, e) refl) amounts
                  (rw (same2.0, same.0, e) refl, rw (same2.1, same.1, e) refl))
              (record_swap-Noted r t cost d2)))

-- The coin that a text names, trimmed and in any case.
abbrev pub Names : Chars → Db → Coin → Type 0
Names symbol db c = first (is_called (trim symbol)) db.coins ≡ some c

-- The terms are those of a preview, and the state before is unchanged by it.
abbrev Termed : Market → SwapRequest → Db → SwapTerms → Db → Type 0
Termed m r db t d =
    (from : Coin) × (to : Coin) × Names r.from_symbol db from
    × Names r.to_symbol db to
    × (chars_eq (upper r.from_symbol) (upper r.to_symbol) ≡ false)
    × (t ≡ swap_terms m r from to db)
    × (d ≡ db)

preview_swap-Termed :
    (m : Market) (r : SwapRequest) (db : Db) → OnOk (Termed m r db) (preview_swap m r db)
unfolding preview_swap find_coin
preview_swap-Termed m r db =
    throw_if-OnOk (Termed m r db) (chars_eq (upper r.from_symbol) (upper r.to_symbol))
      Error.same_coin
      (find_coin r.from_symbol >>= λ from.
        find_coin r.to_symbol >>= λ to. select (swap_terms m r from to))
      db
      (λ differ.
        row_or-OnOk (Termed m r db) Error.unknown_coin
          (first (is_called (trim r.from_symbol)) db.coins)
          (λ from. find_coin r.to_symbol >>= λ to. select (swap_terms m r from to)) db
          (λ from named.
            row_or-OnOk (Termed m r db) Error.unknown_coin
              (first (is_called (trim r.to_symbol)) db.coins)
              (λ to. select (swap_terms m r from to)) db
              (λ to named2. (from, to, named, named2, differ, refl, refl))))

abbrev pub HasSwapped : Market → SwapRequest → Db → Swap → Db → Type 0
HasSwapped m r db x d =
    (from : Coin) × (to : Coin) × Names r.from_symbol db from
    × Names r.to_symbol db to
    × (chars_eq (upper r.from_symbol) (upper r.to_symbol) ≡ false)
    × Swapped r (swap_terms m r from to db) db x d

swap_on-Swapped :
    (m : Market) (r : SwapRequest) (t : SwapTerms) (db : Db)
    → IsSingle db.holdings
    → OnOk (Swapped r t db) (swap_on m r t db)
unfolding swap_on
swap_on-Swapped m r t db single =
    throw_if-OnOk (Swapped r t db) (leb t.to_atoms 0) Error.not_enough_coin
      (transaction (swap_work m r t)) db
      (λ _.
        transaction-OnOk (Swapped r t db) (swap_work m r t) db (swap_work-Swapped m r t db single))

-- With one holding for each customer and coin, a swap that succeeds is from the coin that its first
-- text names to the one that its second names, written differently: at the terms that their prices
-- make, the customer's coin of the first, which was there, falls by what was given and of the
-- second rises by what it buys, so do the sums over everyone, and no other coin changes; balances
-- and their history stay as they were.
pub swap-HasSwapped :
    (m : Market) (r : SwapRequest) (db : Db)
    → IsSingle db.holdings
    → OnOk (HasSwapped m r db) (swap m r db)
unfolding swap
swap-HasSwapped m r db single =
    OnOk-bind (Termed m r db) (HasSwapped m r db) (preview_swap m r) (swap_on m r) db
      (preview_swap-Termed m r db)
      (λ t d (from, to, named, named2, differ, e, same).
        rw (e, same)
          (OnOk-map (Swapped r (swap_terms m r from to db) db) (HasSwapped m r db)
            (swap_on m r (swap_terms m r from to db) db)
            (λ x d' k. (from, to, named, named2, differ, k))
            (swap_on-Swapped m r (swap_terms m r from to db) db single)))
