-- ===== src/History/Sorted.antt =====
-- The order of a history is strict (bank/money.js: `ORDER BY created_at DESC, seq DESC`).
use agents_playground.Prelude.{
  ℕ, ◌≤◌, ◌<◌, ◌≡◌, Bool, true, List, [], ◌∷◌, All, All-map, arith, length, keep, Bool-cases, inl,
  inr,
}
use agents_playground.Db.{Entry}
use agents_playground.History.{
  Row, numbered, is_newer, insert_newest, newest_first, Filters, transaction_filter, history,
}

abbrev pub IsDescending : List Row → Type 0
IsDescending [] = Unit
IsDescending (r ∷ rs) = All (λ s. is_newer r s ≡ true) rs × IsDescending rs

module _ (P : Row → Type 0) where
  All-insert : (r : Row) (rs : List Row) → P r → All P rs → All P (insert_newest r rs)
  All-insert r [] p h = (p, tt)
  All-insert r (x ∷ xs) p h = elim (Bool-cases (is_newer r x)) [
    | inl newer ↦ rw newer (p, h)
    | inr older ↦ rw older (h.0, All-insert r xs p h.1)
  ]

  All-newest_first : (rs : List Row) → All P rs → All P (newest_first rs)
  All-newest_first [] h = tt
  All-newest_first (r ∷ rs) h = All-insert r (newest_first rs) h.0 (All-newest_first rs h.1)

  All-keep : (p : Row → Bool) (rs : List Row) → All P rs → All P (keep p rs)
  All-keep p [] h = tt
  All-keep p (r ∷ rs) h = elim (Bool-cases (p r)) [
    | inl yes' ↦ rw yes' (h.0, All-keep p rs h.1)
    | inr no' ↦ rw no' (All-keep p rs h.1)
  ]

pub newer_trans : (a b c : Row) → is_newer a b ≡ true → is_newer b c ≡ true → is_newer a c ≡ true
newer_trans a b c h k = ground arith

-- A row with a higher number than the others finds its place.
insert-IsDescending :
    (r : Row) (rs : List Row)
    → All (λ s. s.seq < r.seq) rs
    → IsDescending rs
    → IsDescending (insert_newest r rs)
insert-IsDescending r [] below h = (tt, tt)
insert-IsDescending r (x ∷ xs) below h = elim (Bool-cases (is_newer r x)) [
  | inl newer ↦ rw newer ((newer, All-map xs (λ s k. newer_trans r x s newer k) h.0), h)
  | inr older ↦ rw older (
    All-insert (λ s. is_newer x s ≡ true) r xs (ground (arith, below.0, older)) h.0,
    insert-IsDescending r xs below.1 h.1,
  )
]

numbered-below : (n : ℕ) (es : List Entry) → length es ≤ n → All (λ s. s.seq < n) (numbered es)
numbered-below n [] h = tt
numbered-below n (e ∷ es) h = (omega arith, numbered-below n es (omega arith))

newest_first-IsDescending : (es : List Entry) → IsDescending (newest_first (numbered es))
newest_first-IsDescending [] = tt
newest_first-IsDescending (e ∷ es) =
    insert-IsDescending (record { seq = length es; entry = e }) (newest_first (numbered es))
      (All-newest_first (λ s. s.seq < length es) (numbered es)
        (numbered-below (length es) es (omega arith)))
      (newest_first-IsDescending es)

keep-IsDescending : (p : Row → Bool) (rs : List Row) → IsDescending rs → IsDescending (keep p rs)
keep-IsDescending p [] h = tt
keep-IsDescending p (r ∷ rs) h = elim (Bool-cases (p r)) [
  | inl yes' ↦ rw yes' (All-keep (λ s. is_newer r s ≡ true) p rs h.0, keep-IsDescending p rs h.1)
  | inr no' ↦ rw no' (keep-IsDescending p rs h.1)
]

pub history-IsDescending :
    (account_id : ℕ) (f : Filters) (es : List Entry) → IsDescending (history account_id f es)
unfolding history
history-IsDescending account_id f es =
    keep-IsDescending (transaction_filter account_id f) (newest_first (numbered es))
      (newest_first-IsDescending es)
