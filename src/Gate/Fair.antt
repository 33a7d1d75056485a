-- ===== src/Gate/Fair.antt =====
-- The semaphore's bounds and its order (test-runner/src/limiter.js, `createGate`).
use mathlib.Core.List.{append_assoc}
use agents_playground.Prelude.{
  ℕ, suc, ◌-◌, ◌≤◌, ◌<◌, ◌≡◌, refl, ◌⊎◌, inl, inr, Bool-cases, true, List, [], ◌∷◌, ◌++◌, length,
  arith,
}
use agents_playground.Gate.{
  Gate, Event, arrive, finish, holds, leave, hand_over, release, enter, step, run, idle,
}

-- The slots in use are counted, and within the limit; the queue is within its bound; nobody waits
-- while a slot is free; and the callers let through, followed by those that wait, are the admitted
-- ones in the order of their arrival.
pub record IsFair (limit max_queue : ℕ) (g : Gate) : Type 0 where
  pub counted : g.active ≡ length g.running
  pub capped : g.active ≤ limit
  pub bounded : length g.waiting ≤ max_queue
  pub busy : (g.waiting ≡ []) ⊎ (g.active ≡ limit)
  pub in_order : g.started ++ g.waiting ≡ g.admitted

length-snoc : (c : ℕ) (xs : List ℕ) → length (xs ++ c ∷ []) ≡ suc (length xs)
length-snoc c [] = refl
length-snoc c (x ∷ xs) = omega (arith, length-snoc c xs)

length-leave : (c : ℕ) (xs : List ℕ) → holds c xs ≡ true → suc (length (leave c xs)) ≡ length xs
length-leave c [] h = cc
length-leave c (x ∷ xs) h = ground (arith, length-leave c xs)

module _ (limit max_queue : ℕ) where
  enter-IsFair :
      (c : ℕ) (g : Gate)
      → IsFair limit max_queue g
      → IsFair limit max_queue (enter limit max_queue c g)
  unfolding enter
  enter-IsFair c g h = ground (
    arith,
    length-snoc c g.running,
    length-snoc c g.waiting,
    append_assoc g.started (c ∷ []) g.waiting,
    append_assoc g.started g.waiting (c ∷ []),
    append_assoc g.started [] (c ∷ []),
    h.counted,
    h.capped,
    h.bounded,
    h.busy,
    h.in_order,
  )

  hand_over-IsFair :
      (w : List ℕ) (g : Gate)
      → g.waiting ≡ w
      → g.active ≡ length g.running
      → g.active < limit
      → length w ≤ max_queue
      → (w ≡ []) ⊎ (suc g.active ≡ limit)
      → g.started ++ w ≡ g.admitted
      → IsFair limit max_queue (hand_over w g)
  hand_over-IsFair [] g e counted capped bounded busy in_order =
      ground (arith, e, counted, capped, bounded, busy, in_order)
  hand_over-IsFair (n ∷ w) g e counted capped bounded busy in_order = ground (
    arith,
    length-snoc n g.running,
    append_assoc g.started (n ∷ []) w,
    e,
    counted,
    capped,
    bounded,
    busy,
    in_order,
  )

  release-IsFair :
      (c : ℕ) (g : Gate)
      → holds c g.running ≡ true
      → IsFair limit max_queue g
      → IsFair limit max_queue (release c g)
  unfolding release
  release-IsFair c g k h =
      let left = length-leave c g.running k in
      hand_over-IsFair g.waiting (record g { active = g.active - 1; running = leave c g.running })
        refl (omega (arith, left, h.counted)) (omega (arith, left, h.counted, h.capped)) h.bounded
        (ground (arith, left, h.counted, h.busy)) h.in_order

  step-IsFair :
      (e : Event) (g : Gate)
      → IsFair limit max_queue g
      → IsFair limit max_queue (step limit max_queue e g)
  unfolding step
  step-IsFair (arrive c) g h = enter-IsFair c g h
  step-IsFair (finish c) g h = elim (Bool-cases (holds c g.running)) [
    | inl held ↦ rw held (release-IsFair c g held h)
    | inr gone ↦ rw gone h
  ]

  -- Whatever callers arrive and finish, in whatever order: the gate stays fair.
  pub run-IsFair :
      (es : List Event) (g : Gate)
      → IsFair limit max_queue g
      → IsFair limit max_queue (run limit max_queue es g)
  unfolding run
  run-IsFair [] g h = h
  run-IsFair (e ∷ es) g h = run-IsFair es (step limit max_queue e g) (step-IsFair e g h)

idle-IsFair : (limit max_queue : ℕ) → IsFair limit max_queue idle
idle-IsFair limit max_queue = record {
  counted = refl;
  capped = omega arith;
  bounded = omega arith;
  busy = inl refl;
  in_order = refl;
}

-- After any arrivals and completions from an idle gate: the callers that hold a slot are as many as
-- counted and at most the limit, at most maxQueue wait, nobody waits while a slot is free, and the
-- callers let through followed by those that wait are the admitted ones in order of arrival.
pub gate-IsFair :
    (limit max_queue : ℕ) (es : List Event) → IsFair limit max_queue (run limit max_queue es idle)
gate-IsFair limit max_queue es = run-IsFair limit max_queue es idle (idle-IsFair limit max_queue)
