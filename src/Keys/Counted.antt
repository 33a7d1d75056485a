-- ===== src/Keys/Counted.antt =====
-- How often a key is let through in a minute (`rateLimit` of bank/keys.js).
use mathlib.Core.Path.{subst}
use agents_playground.Prelude.{
  ℕ, suc, ◌+◌, ◌-◌, ◌≤◌, ◌≡◌, refl, ◌∙◌, ap, Bool, true, false, not, Option, none, some, List, [],
  ◌∷◌, ◌==◌, ==_iff, ◌&&◌, leb, arith, first, keep, update_where, All, Option-cases, Bool-cases,
  inl, inr, if◌then◌else◌,
}
use agents_playground.Keys.{
  Usage, is_usage, used_once_more, count_up, is_forgotten, swept, minute_of, rate_limit,
}

abbrev found_count : Option Usage → ℕ
found_count none = 0
found_count (some u) = u.count

-- How often a key was counted in a minute.
abbrev pub count_in : ℕ → ℕ → List Usage → ℕ
count_in key_id minute us = found_count (first (is_usage key_id minute) us)

-- The present minute is not swept.
kept-count :
    (now key_id : ℕ) (us : List Usage)
    → count_in key_id (minute_of now) (keep (λ u. not (is_forgotten now u)) us)
      ≡ count_in key_id (minute_of now) us
kept-count now key_id [] = refl
kept-count now key_id (u ∷ us) = ground (arith, kept-count now key_id us)

swept-count :
    (now n key_id : ℕ) (us : List Usage)
    → count_in key_id (minute_of now) (swept now n us) ≡ count_in key_id (minute_of now) us
swept-count now n key_id us = elim (Bool-cases (n == 1)) [
  | inl yes' ↦ rw yes' (kept-count now key_id us)
  | inr no' ↦ rw no' refl
]

updated-count :
    (key_id minute : ℕ) (us : List Usage) (u : Usage)
    → first (is_usage key_id minute) us ≡ some u
    → count_in key_id minute (update_where (is_usage key_id minute) used_once_more us) ≡ u.count + 1
updated-count key_id minute [] u e = cc
updated-count key_id minute (x ∷ us) u e = ground (arith, updated-count key_id minute us u)

other-count :
    (key_id other minute : ℕ) (us : List Usage)
    → (key_id == other) ≡ false
    → count_in other minute (update_where (is_usage key_id minute) used_once_more us)
      ≡ count_in other minute us
other-count key_id other minute [] e = refl
other-count key_id other minute (x ∷ us) e = ground (arith, other-count key_id other minute us)

counted-up :
    (key_id minute : ℕ) (us : List Usage)
    → let r = count_up key_id minute (first (is_usage key_id minute) us) us in
      (r.0 ≡ count_in key_id minute us + 1)
      × (count_in key_id minute r.1 ≡ count_in key_id minute us + 1)
counted-up key_id minute us = elim (Option-cases (first (is_usage key_id minute) us)) [
  | inl new ↦ rw new (ground arith)
  | inr (u, there) ↦ rw there (refl, updated-count key_id minute us u there)
]

other-counted-up :
    (key_id other minute : ℕ) (us : List Usage)
    → (key_id == other) ≡ false
    → count_in other minute (count_up key_id minute (first (is_usage key_id minute) us) us).1
      ≡ count_in other minute us
other-counted-up key_id other minute us e =
    elim (Option-cases (first (is_usage key_id minute) us)) [
      | inl new ↦ rw new (ground (arith, e))
      | inr (u, there) ↦ rw there (other-count key_id other minute us e)
    ]

rate_limit-count :
    (now limit key_id : ℕ) (us : List Usage)
    → let r = rate_limit now limit key_id us in
      (r.0.allowed ≡ leb (count_in key_id (minute_of now) us + 1) limit)
      × (count_in key_id (minute_of now) r.1 ≡ count_in key_id (minute_of now) us + 1)
unfolding rate_limit
rate_limit-count now limit key_id us =
    let minute = minute_of now in
    let r = count_up key_id minute (first (is_usage key_id minute) us) us in
    let up = counted-up key_id minute us in
    (ap (λ n. leb n limit) up.0, swept-count now r.0 key_id r.1 ∙ up.1)

rate_limit-other :
    (now limit key_id other : ℕ) (us : List Usage)
    → (key_id == other) ≡ false
    → count_in other (minute_of now) (rate_limit now limit key_id us).1
      ≡ count_in other (minute_of now) us
unfolding rate_limit
rate_limit-other now limit key_id other us e =
    let minute = minute_of now in
    let r = count_up key_id minute (first (is_usage key_id minute) us) us in
    swept-count now r.0 other r.1 ∙ other-counted-up key_id other minute us e

-- How many of the requests, each a time and a key, are let through for a key.
pub let_through : ℕ → ℕ → List (ℕ × ℕ) → List Usage → ℕ
unfolding rate_limit
let_through limit key_id [] us = 0
let_through limit key_id ((now, k) ∷ cs) us =
    let r = rate_limit now limit k us in
    let rest = let_through limit key_id cs r.1 in
    if k == key_id && r.0.allowed then suc rest else rest

left_after :
    (c limit rest : ℕ) (allowed : Bool)
    → allowed ≡ leb (c + 1) limit
    → rest ≤ limit - (c + 1)
    → (if allowed then suc rest else rest) ≤ limit - c
left_after c limit rest true e h = ground arith
left_after c limit rest false e h = ground arith

-- Of any requests within one minute, with this key and others, at most as many are let through for
-- this key as its limit says, less the ones counted for it in that minute before.
pub rate_limit-Within :
    (limit key_id minute : ℕ) (cs : List (ℕ × ℕ)) (us : List Usage)
    → All (λ c. minute_of c.0 ≡ minute) cs
    → let_through limit key_id cs us ≤ limit - count_in key_id minute us
unfolding let_through
rate_limit-Within limit key_id minute [] us h = omega arith
rate_limit-Within limit key_id minute ((now, k) ∷ cs) us h =
    let r = rate_limit now limit k us in
    let rest = rate_limit-Within limit key_id minute cs r.1 h.1 in
    elim (Bool-cases (k == key_id)) [
      | inl same ↦
          let one = rate_limit-count now limit k us in
          let is_key : k ≡ key_id = (==_iff k key_id).0 same in
          let up : count_in key_id minute r.1 ≡ count_in key_id minute us + 1 =
            subst (λ m. count_in key_id m r.1 ≡ count_in key_id m us + 1) h.0
              (subst (λ i. count_in i (minute_of now) r.1 ≡ count_in i (minute_of now) us + 1)
                is_key one.1) in
          let ok' : r.0.allowed ≡ leb (count_in key_id minute us + 1) limit =
            subst (λ m. r.0.allowed ≡ leb (count_in key_id m us + 1) limit) h.0
              (subst (λ i. r.0.allowed ≡ leb (count_in i (minute_of now) us + 1) limit) is_key
                one.0) in
          rw same (
            left_after (count_in key_id minute us) limit (let_through limit key_id cs r.1)
              r.0.allowed ok' (subst (λ n. let_through limit key_id cs r.1 ≤ limit - n) up rest))
      | inr other ↦
          let e : count_in key_id minute r.1 ≡ count_in key_id minute us =
            subst (λ m. count_in key_id m r.1 ≡ count_in key_id m us) h.0
              (rate_limit-other now limit k key_id us other) in
          rw other (subst (λ n. let_through limit key_id cs r.1 ≤ limit - n) e rest)
    ]
