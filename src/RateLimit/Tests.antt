-- ===== src/RateLimit/Tests.antt =====
-- Runs of the token bucket, and its theorems at concrete inputs: one token is 60,000 units.
use vouchr.Base.{ℕ, ◌+◌, ◌-◌, ◌*◌, ◌≤◌, ◌≡◌, refl, String, List, [], ◌∷◌, arith}
use vouchr.Base.Assoc.{lookup, insert}
use vouchr.RateLimit.{Store, empty_store, retry_after, take, prune, drop_full, settle}
use vouchr.RateLimit.Level.{IsSteady}
use vouchr.RateLimit.Admission.{Limits, Event, spent, spent-le}

-- 60 calls a minute, two at once
abbrev sixty : String → Limits
sixty key = record { refill_per_ms = 60; capacity = 120000 }

abbrev call : ℕ → Event
call t = record { time = t; key = "github"; cost = 60000 }

abbrev burst : List Event
burst = call 100000 ∷ call 100000 ∷ call 100000 ∷ call 101000 ∷ call 200000 ∷ []

bucket : Unit {0}
unfolding take prune drop_full lookup insert settle
bucket = tt

burst_spends : spent sixty "github" burst empty_store ≡ 240000
unfolding spent bucket
burst_spends = refl

spent-le_example : spent sixty "github" burst empty_store ≤ 120000 + (200000 - 100000) * 60
spent-le_example = spent-le sixty "github" burst 100000 200000 (omega arith)

-- One call was made at 100 s, and a second one for all that is left.
abbrev drained : Store
drained = record {
  buckets =
      ("github", record { tokens = 0; last = 100000; refill_per_ms = 60; capacity = 120000 }) ∷ [];
  last_prune = 100000;
}

drained-IsSteady : IsSteady "github" 60 120000 100500 drained
unfolding lookup
drained-IsSteady = record { map = (refl, tt); own = λ b e. ground arith }

drained_refuses : (take 100500 "github" 60000 60 120000 drained).0 ≡ retry_after 500
unfolding bucket
drained_refuses = refl
