-- ===== src/Login/Held.antt =====
-- When a hold starts, and how long it lasts (bank/accounts.js).
use agents_playground.Prelude.{
  ℕ, ◌+◌, ◌≤◌, ◌≡◌, refl, ◌∙◌, ap, String, text_eq_refl, true, false, none, some, List, [], ◌∷◌,
  ltb, first, All, length, arith, Bool-cases, inl, inr, if◌then◌else◌,
}
use agents_playground.Login.{
  Hold, HoldSettings, hold_ms, is_hold, in_force, held_of, login_hold, failed_row, save_hold,
  started, record_login_failure,
}

-- Failures one after another, at these times.
pub fail_all : HoldSettings → String → String → List ℕ → List Hold → List Hold
unfolding record_login_failure
fail_all s email client [] hs = hs
fail_all s email client (t ∷ ts) hs =
    fail_all s email client ts (record_login_failure t s email client hs).1

-- The last of some times.
abbrev pub last_time : ℕ → List ℕ → ℕ
last_time t [] = t
last_time t (u ∷ ts) = last_time u ts

found_saved :
    (r : Hold) (hs : List Hold) → first (is_hold r.email r.client) (save_hold r hs) ≡ some r
found_saved r [] = ground (arith, text_eq_refl r.email, text_eq_refl r.client)
found_saved r (h ∷ hs) =
    ground (arith, text_eq_refl r.email, text_eq_refl r.client, found_saved r hs)

-- The row after some failures since a time, with no hold.
abbrev counting : String → String → ℕ → ℕ → Hold
counting email client n since = record {
  email = email;
  client = client;
  failures = n;
  first_failed_at = since;
  held_until = none;
}

login_hold-row :
    (now : ℕ) (email client : String) (hs : List Hold) (h : Hold)
    → first (is_hold email client) hs ≡ some h
    → login_hold now email client hs ≡ in_force now h.held_until
unfolding login_hold
login_hold-row now email client hs h e = ap (λ o. in_force now (held_of o)) e

module _ (s : HoldSettings) (email client : String) where
  failed-counts :
      (t n since : ℕ) (hs : List Hold)
      → failed_row t s email client (first (is_hold email client) hs)
        ≡ counting email client n since
      → ltb n s.max_failures ≡ true
      → first (is_hold email client) (record_login_failure t s email client hs).1
        ≡ some (counting email client n since)
  unfolding record_login_failure
  failed-counts t n since hs e few = rw (e, few) (found_saved (counting email client n since) hs)

  failed-holds :
      (t n since : ℕ) (hs : List Hold)
      → failed_row t s email client (first (is_hold email client) hs)
        ≡ counting email client n since
      → ltb n s.max_failures ≡ false
      → first (is_hold email client) (record_login_failure t s email client hs).1
        ≡ some (started t s (counting email client n since))
  unfolding record_login_failure
  failed-holds t n since hs e many =
      rw (e, many)
        (found_saved (started t s (counting email client n since))
          (save_hold (counting email client n since) hs))

  held-after :
      (now t n since : ℕ) (ts : List ℕ) (hs : List Hold)
      → failed_row t s email client (first (is_hold email client) hs)
        ≡ counting email client n since
      → n + length ts ≤ s.max_failures
      → All (λ u. u ≤ since + hold_ms s) ts
      → login_hold now email client (fail_all s email client (t ∷ ts) hs) ≡ (
          if ltb (n + length ts) s.max_failures
          then none
          else in_force now (some (last_time t ts + hold_ms s)))
  unfolding fail_all
  held-after now t n since [] hs e most soon = elim (Bool-cases (ltb n s.max_failures)) [
    | inl few ↦
        let same : ltb (n + 0) s.max_failures ≡ true = ground arith in
        login_hold-row now email client (record_login_failure t s email client hs).1
          (counting email client n since) (failed-counts t n since hs e few)
        ∙ rw same refl
    | inr many ↦
        let same : ltb (n + 0) s.max_failures ≡ false = ground arith in
        login_hold-row now email client (record_login_failure t s email client hs).1
          (started t s (counting email client n since)) (failed-holds t n since hs e many)
        ∙ rw same refl
  ]
  held-after now t n since (u ∷ ts) hs e most soon =
      let hs' = (record_login_failure t s email client hs).1 in
      let few : ltb n s.max_failures ≡ true = ground arith in
      let counted = failed-counts t n since hs e few in
      let next : failed_row u s email client (first (is_hold email client) hs')
          ≡ counting email client (n + 1) since =
        rw counted (ground arith) in
      let more = held-after now u (n + 1) since ts hs' next (omega arith) soon.1 in
      let as_many : n + 1 + length ts ≡ n + length (u ∷ ts) = omega arith in
      more
      ∙ ap
          (λ k.
            if ltb k s.max_failures then none else in_force now (some (last_time u ts + hold_ms s)))
          as_many

-- Where nothing is kept of an email and a client, and log-ins fail at times within the hold window
-- of the first, no more often than the most failures: with fewer no hold is in force at any time;
-- with that many one is at every time before the hold's length after the last failure.
pub login_hold-failures :
    (s : HoldSettings) (email client : String) (now t : ℕ) (ts : List ℕ) (hs : List Hold)
    → first (is_hold email client) hs ≡ none
    → 1 + length ts ≤ s.max_failures
    → All (λ u. u ≤ t + hold_ms s) ts
    → login_hold now email client (fail_all s email client (t ∷ ts) hs) ≡ (
        if ltb (1 + length ts) s.max_failures
        then none
        else in_force now (some (last_time t ts + hold_ms s)))
login_hold-failures s email client now t ts hs new most soon =
    held-after s email client now t 1 t ts hs (ap (failed_row t s email client) new) most soon
