-- ===== src/Keys/Limited.antt =====
-- The most active keys of a customer (`createKey` and `revokeKey` of bank/keys.js).
use mathlib.Core.Path.{subst}
use agents_playground.Prelude.{
  sym, ℕ, ◌+◌, ◌≤◌, ◌<◌, ◌≡◌, refl, true, false, ==_refl, List, [], ◌∷◌, arith, count, update_where,
}
use agents_playground.Keys.{
  ApiKey, NewKey, is_active_of, is_active_key, revoked, max_active_keys, create_key, revoke_key,
  Made, made, has_room, has_token, insert_if, insert_key, key_row,
}

abbrev pub WithinKeys : List ApiKey → Type 0
WithinKeys ks = (u : ℕ) → count (is_active_of u) ks ≤ max_active_keys

-- If every customer has at most ten active keys, then so it is after making one in a call that
-- nothing interrupts, whether it is saved or refused.
pub create_key-WithinKeys :
    (n : NewKey) (ks : List ApiKey) → WithinKeys ks → WithinKeys (create_key n ks).1
unfolding create_key has_room insert_if insert_key
create_key-WithinKeys n ks h u = ground (arith, h u, h n.user_id)

count-revoke :
    (now user_id id u : ℕ) (ks : List ApiKey)
    → count (is_active_of u) (update_where (is_active_key user_id id) (revoked now) ks)
      ≤ count (is_active_of u) ks
count-revoke now user_id id u [] = omega arith
count-revoke now user_id id u (k ∷ ks) = ground (arith, count-revoke now user_id id u ks)

-- Revoking a key keeps every customer within the limit.
pub revoke_key-WithinKeys :
    (now user_id id : ℕ) (ks : List ApiKey)
    → WithinKeys ks
    → WithinKeys (revoke_key now user_id id ks).1
unfolding revoke_key
revoke_key-WithinKeys now user_id id ks h u = omega (arith, h u, count-revoke now user_id id u ks)

-- Two calls at once: both count before either inserts.
pub create_together : NewKey → NewKey → List ApiKey → (Made × Made) × List ApiKey
create_together n n' ks =
    let room = has_room n.user_id ks in
    let room' = has_room n'.user_id ks in
    let first_made = insert_if room n ks in
    let second_made = insert_if room' n' first_made.1 in
    ((first_made.0, second_made.0), second_made.1)

has_room_lem :
    (u : ℕ) (ks : List ApiKey) → count (is_active_of u) ks < max_active_keys → has_room u ks ≡ true
unfolding has_room
has_room_lem u ks h = ground (arith, h)

insert_if-new :
    (n : NewKey) (ks : List ApiKey)
    → has_token n.token_hash ks ≡ false
    → insert_if true n ks ≡ (made (key_row n), key_row n ∷ ks)
unfolding insert_if insert_key
insert_if-new n ks new = ground (arith, new)

-- Two keys made for a customer who has fewer than ten active ones, with new and different tokens,
-- in calls that both count before either inserts, are both saved: of nine keys they make eleven.
pub create_key_together :
    (n n' : NewKey) (ks : List ApiKey)
    → n'.user_id ≡ n.user_id
    → count (is_active_of n.user_id) ks < max_active_keys
    → has_token n.token_hash ks ≡ false
    → has_token n'.token_hash (key_row n ∷ ks) ≡ false
    → (create_together n n' ks
        ≡ ((made (key_row n), made (key_row n')), key_row n' ∷ key_row n ∷ ks))
      × (count (is_active_of n.user_id) (create_together n n' ks).1
          ≡ count (is_active_of n.user_id) ks + 2)
unfolding create_together
create_key_together n n' ks same room new new' =
    let u = n.user_id in
    let r : has_room u ks ≡ true = has_room_lem u ks room in
    let r' : has_room n'.user_id ks ≡ true = rw same r in
    let e : create_together n n' ks
        ≡ ((made (key_row n), made (key_row n')), key_row n' ∷ key_row n ∷ ks) =
      rw (r, r', insert_if-new n ks new, insert_if-new n' (key_row n ∷ ks) new') refl in
    let two : count (is_active_of u) (key_row n' ∷ key_row n ∷ ks) ≡ count (is_active_of u) ks + 2 =
      ground (arith, same, ==_refl u) in
    (e, subst (λ o. count (is_active_of u) o.1 ≡ count (is_active_of u) ks + 2) (sym e) two)
