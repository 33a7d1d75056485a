-- ===== src/Tests/Login.antt =====
-- Three failed log-ins within a minute.
use agents_playground.Prelude.{[], ◌∷◌, ◌≡◌, refl, some, arith}
use agents_playground.Login.{HoldSettings, login_hold}
use agents_playground.Login.Held.{fail_all, login_hold-failures}

abbrev three_a_minute : HoldSettings
three_a_minute = record { max_failures = 3; hold_seconds = 60 }

login_hold-failures_example :
    login_hold 45000 "maya" "10.0.0.1"
      (fail_all three_a_minute "maya" "10.0.0.1" (10000 ∷ 20000 ∷ 30000 ∷ []) [])
    ≡ some (90000, 45)
login_hold-failures_example =
    login_hold-failures three_a_minute "maya" "10.0.0.1" 45000 10000 (20000 ∷ 30000 ∷ []) [] refl
      (omega arith) (omega arith, (omega arith, tt))
