-- ===== src/RateLimit.antt =====
-- src/core/rateLimit.ts: the in-process token-bucket store. Tokens, costs and capacities are whole
-- numbers of one unit (the injector's rate of perMinute / 60,000 tokens a millisecond is perMinute
-- units a millisecond, of 60,000 units to a token), so refilling is exact where the source's is in
-- floating point. Each call takes the clock's reading, which is taken not to run backwards.
pub mod Level
pub mod Admission
pub mod Tests
use vouchr.Base.{
  ℕ, ◌+◌, ◌-◌, ◌*◌, ◌/◌, String, Bool, List, [], ◌∷◌, Option, none, some, ltb, leb, min,
  if◌then◌else◌,
}
use vouchr.Base.Eq.{string_eq}
use vouchr.Base.Assoc.{lookup, insert}

pub record Bucket : Type 0 where
  pub tokens : ℕ
  pub last : ℕ
  pub refill_per_ms : ℕ
  pub capacity : ℕ

pub record Store : Type 0 where
  pub buckets : List (String × Bucket)
  pub last_prune : ℕ

abbrev pub empty_store : Store
empty_store = record { buckets = []; last_prune = 0 }

pub data Taken : Type 0 where
  ok : Taken
  retry_after : ℕ → Taken

-- what a bucket holds at a time, before its capacity is applied
abbrev pub refilled : Bucket → ℕ → ℕ
refilled b now = b.tokens + (now - b.last) * b.refill_per_ms

abbrev pub is_full : ℕ → Bucket → Bool
is_full now b = leb b.capacity (refilled b now)

unfoldable pub drop_full : ℕ → List (String × Bucket) → List (String × Bucket)
drop_full now [] = []
drop_full now ((k, b) ∷ m) =
    let rest = drop_full now m in if is_full now b then rest else (k, b) ∷ rest

unfoldable pub prune : ℕ → Store → Store
unfolding drop_full
prune now s =
    if ltb 60000 (now - s.last_prune)
    then record { buckets = drop_full now s.buckets; last_prune = now }
    else s

abbrev pub level_of : ℕ → ℕ → Option Bucket → ℕ
level_of now capacity none = capacity
level_of now capacity (some b) = min capacity (refilled b now)

-- Math.ceil of a quotient
abbrev pub ceil_div : ℕ → ℕ → ℕ
ceil_div a b = (a + b - 1) / b

abbrev pub store_bucket : String → Bucket → Store → Store
store_bucket k b s = record s { buckets = insert k b s.buckets }

settle : ℕ → String → ℕ → ℕ → ℕ → ℕ → Store → Taken × Store
settle now key cost refill capacity tokens s =
    if ltb tokens cost
    then (
      retry_after (ceil_div (cost - tokens) refill),
      store_bucket key
          (record { tokens = tokens; last = now; refill_per_ms = refill; capacity = capacity }) s,
    )
    else (
      ok,
      store_bucket key
          (record {
            tokens = tokens - cost;
            last = now;
            refill_per_ms = refill;
            capacity = capacity;
          })
          s,
    )

unfoldable pub take : ℕ → String → ℕ → ℕ → ℕ → Store → Taken × Store
unfolding settle
take now key cost refill capacity s =
    let pruned = prune now s in
    settle now key cost refill capacity (level_of now capacity (lookup key pruned.buckets)) pruned
