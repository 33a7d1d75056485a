-- ===== src/Keys.antt =====
-- Personal API keys (bank/keys.js). The state is the two tables; the time is in milliseconds.
use mathlib.Core.Option
use agents_playground.Prelude.{
  ℕ, zero, suc, ◌+◌, ◌-◌, ◌*◌, ◌/◌, String, text_eq, Bool, true, false, not, Option, none, some,
  List, [], ◌∷◌, ◌++◌, ◌==◌, ◌&&◌, ltb, leb, max, count, first, keep, update_where, if◌then◌else◌,
}
pub mod Counted
pub mod Limited

pub data Scope : Type 0 where
  read write : Scope

-- `bank_api_keys`
pub record ApiKey : Type 0 where
  pub id : ℕ
  pub user_id : ℕ
  pub name : String
  pub scope : Scope
  pub token_hash : String
  pub prefix : String
  pub last_used_at : Option ℕ
  pub revoked_at : Option ℕ

-- `bank_api_key_usage`
pub record Usage : Type 0 where
  pub key_id : ℕ
  pub minute : ℕ
  pub count : ℕ

-- `MAX_ACTIVE_KEYS`
abbrev pub max_active_keys : ℕ
max_active_keys = 10

abbrev pub is_unrevoked : ApiKey → Bool
is_unrevoked k = elim k.revoked_at [ none ↦ true | some _ ↦ false ]

abbrev pub is_active_of : ℕ → ApiKey → Bool
is_active_of user_id k = k.user_id == user_id && is_unrevoked k

-- What `createKey` is given, with the id, the token's hash and its prefix that it draws.
pub record NewKey : Type 0 where
  pub id : ℕ
  pub user_id : ℕ
  pub name : String
  pub scope : Scope
  pub token_hash : String
  pub prefix : String

abbrev pub key_row : NewKey → ApiKey
key_row n = record {
  id = n.id;
  user_id = n.user_id;
  name = n.name;
  scope = n.scope;
  token_hash = n.token_hash;
  prefix = n.prefix;
  last_used_at = none;
  revoked_at = none;
}

-- The new row, or what the source throws: `TooManyKeysError`, or a hash that is there already.
pub data Made : Type 0 where
  made : ApiKey → Made
  too_many_keys token_taken : Made

-- The first statement of `createKey`: fewer active keys than the most.
unfoldable pub has_room : ℕ → List ApiKey → Bool
has_room user_id ks = not (leb max_active_keys (count (is_active_of user_id) ks))

abbrev pub has_token : String → List ApiKey → Bool
has_token token_hash ks = elim (first (λ k. text_eq k.token_hash token_hash) ks) [
  | none ↦ false
  | some _ ↦ true
]

-- The second. No transaction is around the two: other calls may run in between.
unfoldable pub insert_key : NewKey → List ApiKey → Made × List ApiKey
insert_key n ks =
    if has_token n.token_hash ks then (token_taken, ks) else (made (key_row n), key_row n ∷ ks)

-- What follows the count.
unfoldable pub insert_if : Bool → NewKey → List ApiKey → Made × List ApiKey
unfolding insert_key
insert_if room n ks = if room then insert_key n ks else (too_many_keys, ks)

-- A call that nothing interrupts.
unfoldable pub create_key : NewKey → List ApiKey → Made × List ApiKey
unfolding has_room insert_if
create_key n ks = insert_if (has_room n.user_id ks) n ks

-- Active ones first. The table is kept newest first.
unfoldable pub list_keys : ℕ → List ApiKey → List ApiKey
list_keys user_id ks =
    keep (is_active_of user_id) ks ++ keep (λ k. k.user_id == user_id && not (is_unrevoked k)) ks

abbrev pub is_active_key : ℕ → ℕ → ApiKey → Bool
is_active_key user_id id k = k.user_id == user_id && k.id == id && is_unrevoked k

abbrev pub revoked : ℕ → ApiKey → ApiKey
revoked now k = record k { revoked_at = some now }

-- Revokes one of the customer's own active keys; nothing when there is none.
unfoldable pub revoke_key : ℕ → ℕ → ℕ → List ApiKey → Option ApiKey × List ApiKey
revoke_key now user_id id ks = (
  Option.map (revoked now) (first (is_active_key user_id id) ks),
  update_where (is_active_key user_id id) (revoked now) ks,
)

-- The key for a presented token's hash: not a revoked one, and not one of a locked account.
unfoldable pub find_active_by_token : (ℕ → Bool) → String → List ApiKey → Option ApiKey
find_active_by_token user_is_active token_hash ks =
    first (λ k. text_eq k.token_hash token_hash && is_unrevoked k && user_is_active k.user_id) ks

abbrev pub is_stale : ℕ → Option ℕ → Bool
is_stale now none = true
is_stale now (some t) = ltb (t + 60000) now

-- "Last used", written at most once a minute per key.
unfoldable pub touch : ℕ → ℕ → List ApiKey → List ApiKey
touch now id ks =
    update_where (λ k. k.id == id && is_stale now k.last_used_at)
      (λ k. record k { last_used_at = some now }) ks

-- `date_trunc('minute', now())`, as a number of minutes.
abbrev pub minute_of : ℕ → ℕ
minute_of now = now / 60000

abbrev pub is_usage : ℕ → ℕ → Usage → Bool
is_usage key_id minute u = u.key_id == key_id && u.minute == minute

abbrev pub used_once_more : Usage → Usage
used_once_more u = record u { count = u.count + 1 }

-- The upsert of the count, and the count that it returns.
abbrev pub count_up : ℕ → ℕ → Option Usage → List Usage → ℕ × List Usage
count_up key_id minute none us = (1, record { key_id = key_id; minute = minute; count = 1 } ∷ us)
count_up key_id minute (some u) us =
    (u.count + 1, update_where (is_usage key_id minute) used_once_more us)

-- `minute < now() - interval '1 hour'`
abbrev pub is_forgotten : ℕ → Usage → Bool
is_forgotten now u = ltb (u.minute * 60000 + 3600000) now

-- The first request of a new minute sweeps the minutes nobody needs.
abbrev pub swept : ℕ → ℕ → List Usage → List Usage
swept now n us = if n == 1 then keep (λ u. not (is_forgotten now u)) us else us

pub record Rate : Type 0 where
  pub allowed : Bool
  pub limit : ℕ
  pub remaining : ℕ
  pub retry_after_seconds : ℕ

-- `Math.ceil` of the seconds to the next minute, and at least one.
abbrev pub seconds_left : ℕ → ℕ
seconds_left now = max 1 ((minute_of now * 60000 + 60000 - now + 999) / 1000)

unfoldable pub rate_limit : ℕ → ℕ → ℕ → List Usage → Rate × List Usage
rate_limit now limit key_id us =
    let minute = minute_of now in
    let (n, us') = count_up key_id minute (first (is_usage key_id minute) us) us in
    (
      record {
        allowed = leb n limit;
        limit = limit;
        remaining = limit - n;
        retry_after_seconds = seconds_left now;
      },
      swept now n us',
    )
