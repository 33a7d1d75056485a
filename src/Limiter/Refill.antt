-- ===== src/Limiter/Refill.antt =====
-- What a caller can get out of one bucket over time (test-runner/src/limiter.js, `createLimiter`).
use agents_playground.Prelude.{
  length, ℕ, suc, ◌+◌, ◌-◌, ◌*◌, ◌≤◌, ◌≡◌, ◌∙◌, List, [], ◌∷◌, if◌then◌else◌, arith, Bool-cases,
  inl, inr,
}
use agents_playground.Limiter.{Settings, Bucket, refill, spend}

interval_split : (u t to r : ℕ) → u ≤ t → t ≤ to → (t - u) * r + (to - t) * r ≡ (to - u) * r
interval_split u t to r a b =
    let sum : to - u ≡ (t - u) + (to - t) = omega (arith, a, b) in rw sum (grind arith)

times_suc : (n k : ℕ) → suc n * k ≡ n * k + k
times_suc n k = grind arith

module _ (s : Settings) where
  -- One caller's takes at the given times, on a bucket that is kept: how many were allowed, and the
  -- bucket afterwards.
  abbrev pub serve : List ℕ → Bucket → ℕ × Bucket
  serve [] b = (0, b)
  serve (t ∷ ts) b =
      let o = spend s (refill s t b) in
      let rest = serve ts o.0 in ((if o.1.allowed then suc rest.0 else rest.0), rest.1)

  -- The times do not run backwards from `from`, and end at or before `to`.
  abbrev pub Within : ℕ → List ℕ → ℕ → Type 0
  Within from [] to = from ≤ to
  Within from (t ∷ ts) to = (from ≤ t) × Within t ts to

  -- Up to a capacity's tokens and for so long, a refill brings a rate for each millisecond, and no
  -- more than a slack by rounding.
  abbrev pub IsNear : ℕ → ℕ → ℕ → Type 0
  IsNear rate slack span =
      (a n : ℕ) → a ≤ s.capacity → n ≤ span → s.refilled a n ≤ a + n * rate + slack

  spend_bound :
      (b : Bucket)
      → ((if (spend s b).1.allowed then s.unit else 0) + (spend s b).0.tokens ≡ b.tokens)
        × ((spend s b).0.updated_at ≡ b.updated_at)
  unfolding spend
  spend_bound b = ground arith

  Within-le : (ts : List ℕ) (from to : ℕ) → Within from ts to → from ≤ to
  Within-le [] from to h = h
  Within-le (t ∷ ts) from to (le, h) = omega (arith, le, Within-le ts t to h)

  module _ (rate slack span : ℕ) (near : IsNear rate slack span) where
    refill_bound :
        (now : ℕ) (b : Bucket)
        → b.tokens ≤ s.capacity
        → b.updated_at ≤ now
        → now - b.updated_at ≤ span
        → ((refill s now b).tokens ≤ b.tokens + (now - b.updated_at) * rate + slack)
          × ((refill s now b).tokens ≤ s.capacity)
          × ((refill s now b).updated_at ≡ now)
    unfolding refill
    refill_bound now b full le short =
        ground (arith, full, le, near b.tokens (now - b.updated_at) full short)

    -- If the times of the takes on one bucket do not run backwards, the tokens they were allowed are
    -- at most those the bucket held, those that the elapsed time brings, and a slack for each take.
    pub serve_lem :
        (ts : List ℕ) (b : Bucket) (to : ℕ)
        → b.tokens ≤ s.capacity
        → to - b.updated_at ≤ span
        → Within b.updated_at ts to
        → (serve ts b).0 * s.unit ≤ b.tokens + (to - b.updated_at) * rate + length ts * slack
    serve_lem [] b to full short h = omega arith
    serve_lem (t ∷ ts) b to full short (le, h) =
        let last = Within-le ts t to h in
        let r = refill_bound t b full le (omega (arith, short, last)) in
        let p = spend_bound (refill s t b) in
        let at : (spend s (refill s t b)).0.updated_at ≡ t = p.1 ∙ r.2 in
        let rest =
          serve_lem ts (spend s (refill s t b)).0 to (omega (arith, p.0, r.1))
            (rw at (omega (arith, short, le))) (rw at h) in
        let rest' = rw at at rest in
        elim (Bool-cases (spend s (refill s t b)).1.allowed) [
          | inl yes' ↦ rw yes' (
              omega (
                arith,
                r.0,
                rw yes' at (p.0),
                rest',
                times_suc (serve ts (spend s (refill s t b)).0).0 s.unit,
                times_suc (length ts) slack,
                interval_split b.updated_at t to rate le last,
              ))
          | inr no' ↦ rw no' (
              omega (
                arith,
                r.0,
                rw no' at (p.0),
                rest',
                times_suc (length ts) slack,
                interval_split b.updated_at t to rate le last,
              ))
        ]
