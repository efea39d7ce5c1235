-- ===== src/Replay.antt =====
-- src/adapters/http/replayStore.ts: the table that makes the jti of an identity token single-use
-- over all replicas of the broker, and src/adapters/http/identity.ts's in-memory guard. Times are
-- epoch milliseconds, and natural; each replica has its own clock and its own time of last prune.
pub mod Fleet
pub mod Tests
use vouchr.Base.{
  ℕ, ◌+◌, ◌-◌, ◌*◌, String, Bool, true, false, ◌&&◌, List, [], ◌∷◌, Option, ltb, leb, is_some,
  if◌then◌else◌,
}
use vouchr.Base.Eq.{◌==◌, string_eq, nat_eq}
use vouchr.Base.Table.{select, delete}
use vouchr.Base.Assoc.{lookup, insert}
use vouchr.Identity.{identity_skew_ms, max_safe_integer}

pub record Row : Type 0 where
  pub jti : String
  pub exp : ℕ

-- The shared table, and each replica's lastPrune.
pub record Store : Type 0 where
  pub rows : List Row
  pub last_prune : ℕ → ℕ

abbrev pub retention_grace : ℕ
retention_grace = 3 * identity_skew_ms

-- PRUNE_REPLAY_SQL at the cutoff now - grace
pub prune_rows : ℕ → List Row → List Row
prune_rows now = delete (λ r. leb (r.exp + retention_grace) now)

abbrev set_last_prune : ℕ → ℕ → (ℕ → ℕ) → ℕ → ℕ
set_last_prune replica now f r = if r == replica then now else f r

prune : ℕ → ℕ → Store → Store
unfolding prune_rows
prune replica now s =
    if ltb 60000 (now - s.last_prune replica)
    then record {
      rows = prune_rows now s.rows;
      last_prune = set_last_prune replica now s.last_prune;
    }
    else s

-- INSERT_REPLAY_SQL, and whether it changed a row
insert_row : String → ℕ → Store → Bool × Store
insert_row jti exp s =
    if is_some (select (λ r. r.jti == jti) s.rows)
    then (false, s)
    else (true, record s { rows = record { jti = jti; exp = exp } ∷ s.rows })

in_window : ℕ → ℕ → Bool
in_window now exp =
    leb now max_safe_integer
    && leb exp max_safe_integer
    && leb (exp + retention_grace) max_safe_integer
    && ltb now (exp + retention_grace)

-- `replica` is the broker that calls, and `now` its clock.
pub use_jti : ℕ → ℕ → String → ℕ → Store → Bool × Store
unfolding in_window prune insert_row
use_jti replica now jti exp s =
    if in_window now exp then insert_row jti exp (prune replica now s) else (false, s)

-- The single-process guard.
pub record Guard : Type 0 where
  pub seen : List (String × ℕ)
  pub last_prune : ℕ

pub drop_expired : ℕ → List (String × ℕ) → List (String × ℕ)
drop_expired now [] = []
drop_expired now ((j, e) ∷ m) =
    let rest = drop_expired now m in if leb e now then rest else (j, e) ∷ rest

guard_prune : ℕ → Guard → Guard
unfolding drop_expired
guard_prune now g =
    if ltb 60000 (now - g.last_prune)
    then record { seen = drop_expired now g.seen; last_prune = now }
    else g

pub guard_use : String → ℕ → ℕ → Guard → Bool × Guard
unfolding guard_prune
guard_use jti exp now g =
    let pruned = guard_prune now g in
    if is_some (lookup jti pruned.seen)
    then (false, pruned)
    else (true, record pruned { seen = insert jti exp pruned.seen })
