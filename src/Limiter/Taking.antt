-- ===== src/Limiter/Taking.antt =====
-- What one caller gets out of the limiter over time (test-runner/src/limiter.js, `take`).
use agents_playground.Prelude.{ℕ, suc, ◌≡◌, List, [], ◌∷◌, none, some, if◌then◌else◌}
use agents_playground.Limiter.{Settings, Bucket, Buckets, Key, normalize_key, lookup, delete, take}

-- The key has this bucket, in one entry.
abbrev pub HasBucket : Key → Buckets → Bucket → Type 0
HasBucket key bs b =
    (lookup (normalize_key key) bs ≡ some b)
    × (lookup (normalize_key key) (delete (normalize_key key) bs) ≡ none)

module _ (s : Settings) (key : Key) where
  -- The key's takes at the given times: how many were allowed.
  abbrev pub take_all : List ℕ → Buckets → ℕ
  take_all [] bs = 0
  take_all (t ∷ ts) bs =
      let o = take s t key bs in
      let rest = take_all ts o.0 in if o.1.allowed then suc rest else rest
