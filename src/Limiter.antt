-- ===== src/Limiter.antt =====
-- The token buckets (test-runner/src/limiter.js, `createLimiter`). Tokens are floating-point numbers
-- in the source. Here they are counted in parts of which a whole token has `unit`, small enough that
-- each of those numbers is a number of parts: then comparing, taking the smaller, taking one token
-- away and rounding down are exact, and the two sums that round are given.
pub mod Refill
pub mod Taking
pub mod Bounded
use agents_playground.Prelude.{
  ℕ, zero, suc, ◌+◌, ◌-◌, ◌*◌, ◌/◌, min, String, text_eq, Bool, true, false, not, List, [], ◌∷◌,
  ◌++◌, Option, none, some, leb, length, if◌then◌else◌,
}

-- `EVICTION_SCAN_LIMIT`
abbrev pub eviction_scan_limit : ℕ
eviction_scan_limit = 8

-- What `createLimiter` is given, with the rate as what it computes with it: the tokens after some
-- milliseconds, `tokens + (elapsedMs / 1000) * refillPerSecond`, and how long to wait with too few,
-- `Math.ceil(((1 - tokens) / refillPerSecond) * 1000)`. `capacity` is in parts.
pub record Settings : Type 0 where
  pub capacity : ℕ
  pub unit : ℕ
  pub refilled : ℕ → ℕ → ℕ
  pub wait_ms : ℕ → ℕ
  pub max_entries : ℕ

pub record Bucket : Type 0 where
  pub tokens : ℕ
  pub updated_at : ℕ

-- A key as a caller may pass it: a text, a finite number by its text, or anything else.
pub data Key : Type 0 where
  text number : String → Key
  other : Key

-- A key that was not given shares one name.
unfoldable pub normalize_key : Key → String
normalize_key (text s) = if text_eq s "" then "(unkeyed)" else s
normalize_key (number s) = s
normalize_key other = "(unkeyed)"

-- The entries in insertion order: the least recently used first.
abbrev pub Buckets : Type 0
Buckets = List (String × Bucket)

abbrev pub lookup : String → Buckets → Option Bucket
lookup k [] = none
lookup k ((j, b) ∷ bs) = if text_eq j k then some b else lookup k bs

-- `buckets.delete(key)`
abbrev pub delete : String → Buckets → Buckets
delete k [] = []
delete k ((j, b) ∷ bs) = if text_eq j k then bs else (j, b) ∷ delete k bs

module _ (s : Settings) where
  -- A clock that stepped backwards hands out nothing.
  unfoldable pub refill : ℕ → Bucket → Bucket
  refill now b = if leb now b.updated_at then record b { updated_at = now } else record {
    tokens = min s.capacity (s.refilled b.tokens (now - b.updated_at));
    updated_at = now;
  }

  -- The loop of `evictOne`, over the entries that may still be scanned: the entries afterwards, and
  -- whether one was dropped.
  unfoldable pub scan : ℕ → ℕ → Buckets → Buckets × Bool
  unfolding refill
  scan zero now bs = (bs, false)
  scan (suc n) now [] = ([], false)
  scan (suc n) now ((k, b) ∷ bs) =
      let b' = refill now b in
      let (rest, dropped) = scan n now bs in
      if leb s.capacity b'.tokens then (bs, true) else ((k, b') ∷ rest, dropped)

  abbrev pub drop_lru : Buckets → Buckets
  drop_lru [] = []
  drop_lru (e ∷ bs) = bs

  unfoldable pub evict_one : ℕ → Buckets → Buckets
  unfolding scan
  evict_one now bs =
      let (rest, dropped) = scan eviction_scan_limit now bs in
      if dropped then rest else drop_lru rest

  pub record Verdict : Type 0 where
    pub allowed : Bool
    pub remaining : ℕ
    pub retry_after_ms : ℕ

  -- The part of `take` after the bucket is at hand: spend a token, and say how it went.
  unfoldable pub spend : Bucket → Bucket × Verdict
  spend b =
      let allowed = leb s.unit b.tokens in
      let left = if allowed then b.tokens - s.unit else b.tokens in
      (
        record b { tokens = left },
        record {
          allowed = allowed;
          remaining = left / s.unit;
          retry_after_ms = if allowed then 0 else s.wait_ms left;
        },
      )

  abbrev pub fresh : ℕ → Bucket
  fresh now = record { tokens = s.capacity; updated_at = now }

  abbrev pub make_room : ℕ → Buckets → Buckets
  make_room now bs = if leb s.max_entries (length bs) then evict_one now bs else bs

  -- `take(key)` at a time: the entries afterwards, with the key's moved to the most recently used
  -- end, and the verdict.
  unfoldable pub take : ℕ → Key → Buckets → Buckets × Verdict
  unfolding normalize_key refill evict_one spend
  take now key bs =
      let id = normalize_key key in
      elim (lookup id bs) [
        | some b ↦ let (b', v) = spend (refill now b) in (delete id bs ++ (id, b') ∷ [], v)
        | none ↦ let (b', v) = spend (fresh now) in (make_room now bs ++ (id, b') ∷ [], v)
      ]

  unfoldable pub reset : Key → Buckets → Buckets
  unfolding normalize_key
  reset key bs = delete (normalize_key key) bs
