-- ===== src/Limiter/Bounded.antt =====
-- The map of buckets stays within its bound (test-runner/src/limiter.js, `createLimiter`).
use agents_playground.Prelude.{
  ℕ, zero, suc, ◌+◌, ◌-◌, ◌≤◌, ◌<◌, ◌≡◌, List, [], ◌∷◌, ◌++◌, if◌then◌else◌, arith, inl, inr,
  String, some, length, Option-cases,
}
use agents_playground.Limiter.{
  Settings, Bucket, Buckets, Key, lookup, delete, refill, spend, scan, drop_lru, evict_one,
  eviction_scan_limit, fresh, make_room, take, normalize_key,
}

length-append : {A : Type 0} (xs ys : List A) → length (xs ++ ys) ≡ length xs + length ys
length-append [] ys = omega arith
length-append (x ∷ xs) ys = omega (arith, length-append xs ys)

-- An entry that is found leaves one fewer.
length-delete_found :
    (k : String) (bs : Buckets) {b : Bucket}
    → lookup k bs ≡ some b
    → suc (length (delete k bs)) ≡ length bs
length-delete_found k [] e = cc
length-delete_found k ((j, c) ∷ bs) {b} e = ground (arith, length-delete_found k bs {b = b})

module _ (s : Settings) where
  drop_lru-length : (bs : Buckets) → length (drop_lru s bs) ≡ length bs - 1
  drop_lru-length [] = omega arith
  drop_lru-length (e ∷ bs) = omega arith

  scan-length :
      (n now : ℕ) (bs : Buckets)
      → (length (scan s n now bs).0 + (if (scan s n now bs).1 then 1 else 0) ≡ length bs)
  unfolding scan
  scan-length zero now bs = omega arith
  scan-length (suc n) now [] = omega arith
  scan-length (suc n) now ((k, b) ∷ bs) = ground (arith, scan-length n now bs)

  evict_one-length : (now : ℕ) (bs : Buckets) → length (evict_one s now bs) ≡ length bs - 1
  unfolding evict_one
  evict_one-length now bs = ground (
    arith,
    scan-length eviction_scan_limit now bs,
    drop_lru-length (scan s eviction_scan_limit now bs).0,
  )

  -- Where maxEntries is at least one and the map holds no more than that many buckets, it holds no
  -- more after a take by any key.
  pub take-size :
      (now : ℕ) (key : Key) (bs : Buckets)
      → 0 < s.max_entries
      → length bs ≤ s.max_entries
      → length (take s now key bs).0 ≤ s.max_entries
  unfolding take
  take-size now key bs pos h =
      let id = normalize_key key in
      elim (Option-cases (lookup id bs)) [
        | inl new' ↦
            (ground (
              arith,
              new',
              h,
              evict_one-length now bs,
              length-append (make_room s now bs) ((id, (spend s (fresh s now)).0) ∷ []),
            ))
        | inr (b, known) ↦
            (ground (
              arith,
              known,
              h,
              length-delete_found id bs known,
              length-append (delete id bs) ((id, (spend s (refill s now b)).0) ∷ []),
            ))
      ]
