-- ===== src/Gate.antt =====
-- The semaphore (test-runner/src/limiter.js, `createGate`): a slot for at most `limit` callers, a
-- bounded queue, and a refusal beyond it.
pub mod Fair
use agents_playground.Prelude.{
  ℕ, suc, ◌+◌, ◌-◌, Bool, true, false, List, [], ◌∷◌, ◌++◌, ◌==◌, leb, length, if◌then◌else◌,
}

-- `active` and `waiting` of the closure, with the callers that hold a slot (among them one that was
-- handed a slot and has not resumed yet), and the history: who was let through, in order, and who
-- was refused.
pub record Gate : Type 0 where
  pub active : ℕ
  pub waiting : List ℕ
  pub running : List ℕ
  pub started : List ℕ
  pub admitted : List ℕ
  pub refused : List ℕ

pub data Event : Type 0 where
  -- A caller enters `run`.
  arrive : ℕ → Event
  -- The function of a caller that holds a slot has returned or thrown.
  finish : ℕ → Event

abbrev pub holds : ℕ → List ℕ → Bool
holds c [] = false
holds c (x ∷ xs) = if x == c then true else holds c xs

abbrev pub leave : ℕ → List ℕ → List ℕ
leave c [] = []
leave c (x ∷ xs) = if x == c then xs else x ∷ leave c xs

abbrev pub start : ℕ → Gate → Gate
start c g = record g { running = g.running ++ c ∷ []; started = g.started ++ c ∷ [] }

-- `const next = waiting.shift(); if (next) { active += 1; next(); }`: the slot is counted on
-- handover.
abbrev pub hand_over : List ℕ → Gate → Gate
hand_over [] g = g
hand_over (next ∷ rest) g = start next (record g { active = g.active + 1; waiting = rest })

unfoldable pub release : ℕ → Gate → Gate
release c g = hand_over g.waiting (record g { active = g.active - 1; running = leave c g.running })

-- `run`, up to where the caller holds a slot, waits, or is refused with 503.
unfoldable pub enter : ℕ → ℕ → ℕ → Gate → Gate
enter limit max_queue c g =
    if leb limit g.active
    then (if leb max_queue (length g.waiting)
        then record g { refused = g.refused ++ c ∷ [] }
        else record g { waiting = g.waiting ++ c ∷ []; admitted = g.admitted ++ c ∷ [] })
    else start c (record g { active = g.active + 1; admitted = g.admitted ++ c ∷ [] })

unfoldable pub step : ℕ → ℕ → Event → Gate → Gate
unfolding enter release
step limit max_queue (arrive c) g = enter limit max_queue c g
step limit max_queue (finish c) g = if holds c g.running then release c g else g

unfoldable pub run : ℕ → ℕ → List Event → Gate → Gate
unfolding step
run limit max_queue [] g = g
run limit max_queue (e ∷ es) g = run limit max_queue es (step limit max_queue e g)

abbrev pub idle : Gate
idle = record { active = 0; waiting = []; running = []; started = []; admitted = []; refused = [] }
