-- ===== src/Tests/Keys.antt =====
-- API keys: a few requests with two keys within a minute, and two keys at once after nine.
use agents_playground.Prelude.{List, [], ◌∷◌, String, count, ◌≡◌, [], ◌∷◌, ◌≤◌, refl, arith}
use agents_playground.Keys.{ApiKey, NewKey, read, made, key_row, is_active_of}
use agents_playground.Keys.Counted.{let_through, rate_limit-Within}
use agents_playground.Keys.Limited.{create_together, create_key_together}

rate_limit-Within_example :
    let_through 2 7 ((60000, 7) ∷ (60500, 8) ∷ (61000, 7) ∷ (62000, 7) ∷ []) [] ≤ 2
rate_limit-Within_example =
    rate_limit-Within 2 7 1 ((60000, 7) ∷ (60500, 8) ∷ (61000, 7) ∷ (62000, 7) ∷ []) []
      (refl, (refl, (refl, (refl, tt))))

abbrev new_key : NewKey
new_key = record {
  id = 1;
  user_id = 101;
  name = "Build";
  scope = read;
  token_hash = "h1";
  prefix = "pbk_aaaa";
}

abbrev other_key : NewKey
other_key = record new_key { id = 2; token_hash = "h2" }

abbrev saved : String → ApiKey
saved token_hash = key_row (record new_key { token_hash = token_hash })

-- Nine active keys.
abbrev nine : List ApiKey
nine =
    saved "a"
    ∷ saved "b"
    ∷ saved "c"
    ∷ saved "d"
    ∷ saved "e"
    ∷ saved "f"
    ∷ saved "g"
    ∷ saved "i"
    ∷ saved "j"
    ∷ []

create_key_together_example :
    (create_together new_key other_key nine ≡ (
      (made (key_row new_key), made (key_row other_key)),
      key_row other_key ∷ key_row new_key ∷ nine,
    ))
    × (count (is_active_of 101) (create_together new_key other_key nine).1 ≡ 11)
create_key_together_example =
    create_key_together new_key other_key nine refl (omega arith) refl refl
