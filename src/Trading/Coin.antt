-- ===== src/Trading/Coin.antt =====
-- Sums of coin over the holdings, and what the statements of `bank_holdings` do to them
-- (bank/trading.js, bank/wallet.js).
use agents_playground.Prelude.{
  ℕ, ◌+◌, ◌≤◌, ◌≡◌, refl, String, text_eq, text_eq→eq, Bool, true, false, Option, none, some, List,
  [], ◌∷◌, ◌==◌, ◌&&◌, arith, first, update_where, if◌then◌else◌, Bool-cases, Option-cases, inl,
  inr,
}
use agents_playground.Db.{Holding}
use agents_playground.Trading.Holdings.{is_of, add_coin, take_coin, new_holding}

-- The coin in the rows whose owner and symbol pass a test.
abbrev pub atoms_by : (ℕ → String → Bool) → List Holding → ℕ
atoms_by p [] = 0
atoms_by p (h ∷ hs) =
    if p h.user_id h.symbol then h.quantity_atoms + atoms_by p hs else atoms_by p hs

-- All coin of a kind, whoever holds it.
abbrev pub coin_total : String → List Holding → ℕ
coin_total symbol = atoms_by (λ _ s. text_eq s symbol)

-- A customer's coin of a kind.
abbrev pub coin_of : ℕ → String → List Holding → ℕ
coin_of user_id symbol = atoms_by (λ u s. u == user_id && text_eq s symbol)

-- Owner and symbol are a unique key.
abbrev pub IsSingle : List Holding → Type 0
IsSingle [] = Unit
IsSingle (h ∷ hs) = (first (is_of h.user_id h.symbol) hs ≡ none) × IsSingle hs

abbrev pub put_rows : ℕ → String → ℕ → ℕ → ℕ → Option Holding → List Holding → List Holding
put_rows user_id symbol atoms cost id none hs = new_holding id user_id symbol atoms cost ∷ hs
put_rows user_id symbol atoms cost id (some h) hs =
    update_where (is_of user_id symbol) (add_coin atoms cost) hs

abbrev pub taken_rows : ℕ → String → ℕ → ℕ → List Holding → List Holding
taken_rows user_id symbol atoms cost = update_where (is_of user_id symbol) (take_coin atoms cost)

module _ (user_id : ℕ) (symbol : String) where
  none_changed :
      (f : Holding → Holding) (hs : List Holding)
      → first (is_of user_id symbol) hs ≡ none
      → update_where (is_of user_id symbol) f hs ≡ hs
  none_changed f [] e = refl
  none_changed f (h ∷ hs) e = ground (arith, none_changed f hs)

  -- The row that passes is the last one that does.
  rest_untouched :
      (f : Holding → Holding) (h : Holding) (hs : List Holding)
      → is_of user_id symbol h ≡ true
      → first (is_of h.user_id h.symbol) hs ≡ none
      → update_where (is_of user_id symbol) f hs ≡ hs
  rest_untouched f h hs yes' e =
      let u : h.user_id ≡ user_id = ground arith in
      let s : h.symbol ≡ symbol = text_eq→eq h.symbol symbol (ground arith) in
      none_changed f hs (rw (u, s) at e)

  module _ (p : ℕ → String → Bool) (atoms cost : ℕ) where
    -- Rows that the test does not count may change.
    other_rows :
        (f : Holding → Holding) (hs : List Holding)
        → p user_id symbol ≡ false
        → ((h : Holding) → (f h).user_id ≡ h.user_id)
        → ((h : Holding) → (f h).symbol ≡ h.symbol)
        → atoms_by p (update_where (is_of user_id symbol) f hs) ≡ atoms_by p hs
    other_rows f [] no' fu fs = refl
    other_rows f (h ∷ hs) no' fu fs = elim (Bool-cases (is_of user_id symbol h)) [
      | inl yes' ↦
          let u : h.user_id ≡ user_id = ground arith in
          let s : h.symbol ≡ symbol = text_eq→eq h.symbol symbol (ground arith) in
          rw (yes', fu h, fs h, u, s, no') (other_rows f hs no' fu fs)
      | inr other ↦ ground (arith, other, other_rows f hs no' fu fs)
    ]

    pub taken_rows-total :
        (hs : List Holding) {h : Holding}
        → p user_id symbol ≡ true
        → IsSingle hs
        → first (is_of user_id symbol) hs ≡ some h
        → atoms ≤ h.quantity_atoms
        → atoms_by p (taken_rows user_id symbol atoms cost hs) + atoms ≡ atoms_by p hs
    taken_rows-total [] counted single e le = cc
    taken_rows-total (x ∷ hs) {h} counted single e le = elim (Bool-cases (is_of user_id symbol x)) [
      | inl yes' ↦
          let u : x.user_id ≡ user_id = ground arith in
          let s : x.symbol ≡ symbol = text_eq→eq x.symbol symbol (ground arith) in
          let rest = rest_untouched (take_coin atoms cost) x hs yes' single.0 in
          ground (arith, yes', rest, u, s, counted)
      | inr other ↦ ground (arith, other, taken_rows-total hs {h = h} counted single.1)
    ]

    pub added_rows-total :
        (hs : List Holding) {h : Holding}
        → p user_id symbol ≡ true
        → IsSingle hs
        → first (is_of user_id symbol) hs ≡ some h
        → atoms_by p (update_where (is_of user_id symbol) (add_coin atoms cost) hs)
          ≡ atoms_by p hs + atoms
    added_rows-total [] counted single e = cc
    added_rows-total (x ∷ hs) {h} counted single e = elim (Bool-cases (is_of user_id symbol x)) [
      | inl yes' ↦
          let u : x.user_id ≡ user_id = ground arith in
          let s : x.symbol ≡ symbol = text_eq→eq x.symbol symbol (ground arith) in
          let rest = rest_untouched (add_coin atoms cost) x hs yes' single.0 in
          ground (arith, yes', rest, u, s, counted)
      | inr other ↦ ground (arith, other, added_rows-total hs {h = h} counted single.1)
    ]

    pub put_rows-total :
        (id : ℕ) (hs : List Holding)
        → p user_id symbol ≡ true
        → IsSingle hs
        → atoms_by p (put_rows user_id symbol atoms cost id (first (is_of user_id symbol) hs) hs)
          ≡ atoms_by p hs + atoms
    put_rows-total id hs counted single = elim (Option-cases (first (is_of user_id symbol) hs)) [
      | inl none' ↦ rw (none', counted) (omega arith)
      | inr (h, found) ↦ rw found (added_rows-total hs counted single found)
    ]

    pub put_rows-others :
        (id : ℕ) (o : Option Holding) (hs : List Holding)
        → p user_id symbol ≡ false
        → atoms_by p (put_rows user_id symbol atoms cost id o hs) ≡ atoms_by p hs
    put_rows-others id none hs no' = rw no' refl
    put_rows-others id (some h) hs no' =
        other_rows (add_coin atoms cost) hs no' (λ _. refl) (λ _. refl)

    pub taken_rows-others :
        (hs : List Holding)
        → p user_id symbol ≡ false
        → atoms_by p (taken_rows user_id symbol atoms cost hs) ≡ atoms_by p hs
    taken_rows-others hs no' = other_rows (take_coin atoms cost) hs no' (λ _. refl) (λ _. refl)

-- Taking coin keeps the key unique.
absent-taken :
    (p : Holding → Bool) (user_id : ℕ) (symbol : String) (atoms cost : ℕ) (hs : List Holding)
    → first (is_of user_id symbol) hs ≡ none
    → first (is_of user_id symbol) (update_where p (take_coin atoms cost) hs) ≡ none
absent-taken p user_id symbol atoms cost [] e = refl
absent-taken p user_id symbol atoms cost (h ∷ hs) e =
    ground (arith, absent-taken p user_id symbol atoms cost hs)

pub taken-IsSingle :
    (p : Holding → Bool) (atoms cost : ℕ) (hs : List Holding)
    → IsSingle hs
    → IsSingle (update_where p (take_coin atoms cost) hs)
taken-IsSingle p atoms cost [] single = tt
taken-IsSingle p atoms cost (h ∷ hs) single = ground (
  arith,
  absent-taken p h.user_id h.symbol atoms cost hs single.0,
  taken-IsSingle p atoms cost hs single.1,
)
