-- ===== src/Keyed/Sets.antt =====
-- The commands of a sorted set, and what Redis documents of them.
use navigator_eventbus.Prelude.{ℕ, ◌≤◌, ◌<◌, ◌≡◌, String, Option, none, some, ◌==◌, if◌then◌else◌}

-- ZADD, ZREM, the first of ZRANGE 0 0, ZSCORE, ZCARD, and ZREMRANGEBYSCORE from -inf.
pub record SortedSet (Z : Type 0) : Type 0 where
  pub nothing : Z
  pub zadd : String → ℕ → Z → Z
  pub zrem : String → Z → Z
  pub zhead : Z → Option String
  pub zscore : String → Z → Option ℕ
  pub zcard : Z → ℕ
  pub zdrop : ℕ → Z → Z

pub record IsSortedSet {Z : Type 0} (set : SortedSet Z) : Type 0 where
  pub zscore-nothing : (j : String) → set.zscore j set.nothing ≡ none
  pub zscore-zadd :
      (j k : String) (n : ℕ) (z : Z)
      → set.zscore j (set.zadd k n z) ≡ (if k == j then some n else set.zscore j z)
  pub zscore-zrem :
      (j k : String) (z : Z)
      → set.zscore j (set.zrem k z) ≡ (if k == j then none else set.zscore j z)
  pub zscore-zhead :
      (z : Z) (k : String) → set.zhead z ≡ some k → (n : ℕ) × (set.zscore k z ≡ some n)
  pub zhead_least :
      (z : Z) (k j : String) (n m : ℕ)
      → set.zhead z ≡ some k
      → set.zscore k z ≡ some n
      → set.zscore j z ≡ some m
      → n ≤ m
  pub zscore_no_head : (z : Z) → set.zhead z ≡ none → (k : String) → set.zscore k z ≡ none
  pub zcard-zrem :
      (z : Z) (k : String) (n : ℕ)
      → set.zscore k z ≡ some n
      → set.zcard (set.zrem k z) < set.zcard z
