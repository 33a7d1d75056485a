-- ===== src/Login.antt =====
-- Failed log-ins and the hold that they start (bank/accounts.js: `loginHold`, `recordLoginFailure`,
-- `clearLoginHold`). The state is the table; the time is in milliseconds.
use agents_playground.Prelude.{
  ℕ, ◌+◌, ◌-◌, ◌*◌, ◌/◌, String, text_eq, Bool, true, false, not, Option, none, some, List, [], ◌∷◌,
  ◌&&◌, ltb, max, first, keep, if◌then◌else◌,
}
pub mod Held

-- `bank_login_holds`
pub record Hold : Type 0 where
  pub email : String
  pub client : String
  pub failures : ℕ
  pub first_failed_at : ℕ
  pub held_until : Option ℕ

pub record HoldSettings : Type 0 where
  pub max_failures : ℕ
  pub hold_seconds : ℕ

-- `make_interval(secs => $3)`
abbrev pub hold_ms : HoldSettings → ℕ
hold_ms s = s.hold_seconds * 1000

-- `WHERE email = $1 AND client = $2`
abbrev pub is_hold : String → String → Hold → Bool
is_hold email client h = text_eq h.email email && text_eq h.client client

-- In force at a time: how long it lasts, and in how many seconds to try again, at least one.
abbrev pub in_force : ℕ → Option ℕ → Option (ℕ × ℕ)
in_force now none = none
in_force now (some t) = if ltb now t then some (t, max 1 ((t - now + 999) / 1000)) else none

abbrev pub held_of : Option Hold → Option ℕ
held_of none = none
held_of (some h) = h.held_until

unfoldable pub login_hold : ℕ → String → String → List Hold → Option (ℕ × ℕ)
login_hold now email client hs = in_force now (held_of (first (is_hold email client) hs))

abbrev first_failure : ℕ → String → String → Hold
first_failure now email client = record {
  email = email;
  client = client;
  failures = 1;
  first_failed_at = now;
  held_until = none;
}

-- Failures older than the hold window start the count over.
abbrev pub one_more : ℕ → HoldSettings → Hold → Hold
one_more now s h =
    if ltb (h.first_failed_at + hold_ms s) now
    then record h { failures = 1; first_failed_at = now; held_until = none }
    else record h { failures = h.failures + 1; held_until = none }

-- The row after one more failure, found or new.
abbrev pub failed_row : ℕ → HoldSettings → String → String → Option Hold → Hold
failed_row now s email client none = first_failure now email client
failed_row now s email client (some h) = one_more now s h

-- The row in the place of the one with its key, or new.
abbrev pub save_hold : Hold → List Hold → List Hold
save_hold r [] = r ∷ []
save_hold r (h ∷ hs) = if is_hold r.email r.client h then r ∷ hs else h ∷ save_hold r hs

-- Reaching the most failures starts a hold and resets the count.
abbrev pub started : ℕ → HoldSettings → Hold → Hold
started now s h = record h {
  held_until = some (now + hold_ms s);
  failures = 0;
  first_failed_at = now;
}

-- The failures that were counted, and until when a hold is that they started.
unfoldable pub record_login_failure :
    ℕ → HoldSettings → String → String → List Hold → (ℕ × Option ℕ) × List Hold
record_login_failure now s email client hs =
    let row = failed_row now s email client (first (is_hold email client) hs) in
    if ltb row.failures s.max_failures
    then ((row.failures, none), save_hold row hs)
    else ((row.failures, some (now + hold_ms s)), save_hold (started now s row) (save_hold row hs))

-- A successful log-in forgets the failures that came before it.
unfoldable pub clear_login_hold : String → String → List Hold → List Hold
clear_login_hold email client hs = keep (λ h. not (is_hold email client h)) hs
