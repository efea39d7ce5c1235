-- ===== src/Replay/Tests.antt =====
-- Two replicas at the two ends of the tolerance, and the guard of one process.
use vouchr.Base.{◌≡◌, refl, true, false, [], ◌∷◌, arith}
use vouchr.Base.Table.{select, delete}
use vouchr.Base.Assoc.{lookup, insert}
use vouchr.Replay.{Store, use_jti, guard_use}
use vouchr.Replay.Fleet.{Use, use_at, run, use-once}

abbrev empty : Store
empty = record { rows = []; last_prune = λ r. 0 }

abbrev first_use : Use
first_use = record { replica = 0; time = 500000; clock = 500000; jti = "j"; exp = 560000 }

-- A fast replica prunes while the token can still be taken elsewhere.
abbrev fast_use : Use
fast_use = record { replica = 1; time = 600000; clock = 630000; jti = "k"; exp = 700000 }

abbrev slow_use : Use
slow_use = record { replica = 2; time = 610000; clock = 580000; jti = "j"; exp = 560000 }

store : Unit {0}
unfolding use_jti select delete
store = tt

first_fresh : (use_at first_use empty).0 ≡ true
unfolding store
first_fresh = refl

use-once_example : (use_at slow_use (run (fast_use ∷ []) (use_at first_use empty).1)).0 ≡ false
use-once_example =
    use-once first_use slow_use (fast_use ∷ []) empty first_fresh refl (omega arith) (omega arith)
      (omega arith) (omega arith)

guard_twice :
    (guard_use "j" 5 1 (guard_use "j" 5 1 (record { seen = []; last_prune = 0 })).1).0 ≡ false
unfolding guard_use lookup insert
guard_twice = refl
