-- ===== src/Wallet/Sent.antt =====
-- What a send does to the coin (bank/wallet.js, `send`).
use mathlib.Core.Path.{subst}
use agents_playground.Prelude.{
  ℕ, ◌≤◌, ◌≡◌, inl, inr, refl, sym, String, Option, none, some, List, ◌==◌, arith, first, ltb,
  Option-cases, Bool-cases,
}
use agents_playground.Db.{Coin, Holding, Wallet, Db, OnOk, ok}
use agents_playground.Trading.{Market, find_holding, is_of, keeps_checks}
use agents_playground.Trading.Coin.{put_rows, taken_rows}
use agents_playground.Wallet.Sending.{
  SendRequest, SendView, take_share, deliver, record_send, to_send_view,
}

abbrev pub shared : ℕ → String → ℕ → ℕ → Db → Db
shared user_id symbol atoms cost db = record db {
  holdings = taken_rows user_id symbol atoms cost db.holdings;
}

-- The holding that the coin left, and the state after it.
abbrev pub Shared : ℕ → String → ℕ → Option Holding → Db → ℕ → Db → Type 0
Shared user_id symbol atoms o db cost d =
    (h : Holding) × (o ≡ some h)
    × (atoms ≤ h.quantity_atoms)
    × (d ≡ shared user_id symbol atoms cost db)

pub take_share-Shared :
    (m : Market) (user_id : ℕ) (symbol : String) (atoms : ℕ) (o : Option Holding) (db : Db)
    → OnOk (Shared user_id symbol atoms o db) (take_share m user_id symbol atoms o db)
unfolding take_share
take_share-Shared m user_id symbol atoms none db = tt
take_share-Shared m user_id symbol atoms (some h) db =
    let cost = m.share h.cost_cents atoms h.quantity_atoms in
    elim (Bool-cases (ltb h.quantity_atoms atoms)) [
      | inl short ↦ rw short tt
      | inr enough ↦ elim (Bool-cases (keeps_checks atoms cost h)) [
        | inl kept ↦
            let e : take_share m user_id symbol atoms (some h) db
                ≡ (ok cost, shared user_id symbol atoms cost db) =
              ground (arith, enough, kept) in
            subst (OnOk (Shared user_id symbol atoms (some h) db)) (sym e)
              (h, refl, ground (arith, enough), refl)
        | inr below ↦ ground (arith, enough, below)
      ]
    ]

-- The tables of money, and the rest that a send leaves alone.
abbrev pub SameMoney : Db → Db → Type 0
SameMoney d db = (d.accounts ≡ db.accounts) × (d.transactions ≡ db.transactions)

abbrev pub delivered_rows :
    Market → SendRequest → Coin → ℕ → Option Wallet → ℕ → List Holding → List Holding
delivered_rows m r coin price none id hs = hs
delivered_rows m r coin price (some w) id hs =
    put_rows w.user_id coin.symbol r.quantity_atoms (m.cents_for_atoms r.quantity_atoms price) id
      (first (is_of w.user_id coin.symbol) hs) hs

abbrev pub Delivered : Market → SendRequest → Coin → ℕ → Option Wallet → Db → Db → Type 0
Delivered m r coin price owner db d =
    (id : ℕ) × (d.holdings ≡ delivered_rows m r coin price owner id db.holdings) × SameMoney d db

pub deliver-Delivered :
    (m : Market) (r : SendRequest) (coin : Coin) (price : ℕ) (owner : Option Wallet) (db : Db)
    → OnOk (λ _ d. Delivered m r coin price owner db d) (deliver m r coin price owner db)
unfolding deliver find_holding
deliver-Delivered m r coin price none db = (0, refl, (refl, refl))
deliver-Delivered m r coin price (some w) db =
    elim (Option-cases (first (is_of w.user_id coin.symbol) db.holdings)) [
      | inl new ↦ rw new (db.uuids db.drawn, refl, (refl, refl))
      | inr (h, there) ↦ rw there (0, refl, (refl, refl))
    ]

abbrev pub Noted : SendRequest → Coin → ℕ → Option Wallet → Db → SendView → Db → Type 0
Noted r coin fee owner db x d =
    (id : ℕ) × (x ≡ to_send_view r coin fee owner id) × (d.holdings ≡ db.holdings) × SameMoney d db

pub record_send-Noted :
    (r : SendRequest) (coin : Coin) (fee : ℕ) (owner : Option Wallet) (db : Db)
    → OnOk (Noted r coin fee owner db) (record_send r coin fee owner db)
unfolding record_send
record_send-Noted r coin fee owner db = elim (Bool-cases (r.quantity_atoms == 0)) [
  | inl nothing ↦ rw nothing tt
  | inr something ↦ rw something (db.uuids db.drawn, refl, refl, (refl, refl))
]
