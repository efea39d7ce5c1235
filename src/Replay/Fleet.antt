-- ===== src/Replay/Fleet.antt =====
-- No replay over a fleet of replicas whose clocks are within the documented tolerance.
use text.Mathlib.TextEquality.{eq_iff}
use vouchr.Base.{
  ℕ, ◌+◌, ◌-◌, ◌*◌, ◌≤◌, ◌<◌, String, ◌≡◌, refl, inl, inr, Bool, true, false, List, [], ◌∷◌, arith,
  ltb, leb, is_some, Bool-cases,
}
use vouchr.Base.Eq.{◌==◌, string_eq, nat_eq}
use vouchr.Base.Lists.{Any}
use vouchr.Base.Table.{select, delete}
use vouchr.Identity.{identity_skew_ms}
use vouchr.Replay.{Row, Store, retention_grace, prune_rows, prune, insert_row, in_window, use_jti}

-- A call on some replica: the true time, that replica's clock, and the token.
pub record Use : Type 0 where
  pub replica : ℕ
  pub time : ℕ
  pub clock : ℕ
  pub jti : String
  pub exp : ℕ

abbrev pub use_at : Use → Store → Bool × Store
use_at u s = use_jti u.replica u.clock u.jti u.exp s

pub run : List Use → Store → Store
run [] s = s
run (u ∷ us) s = run us (use_at u s).1

-- Each clock is within the skew of the true time, and no call is later than `until`.
abbrev pub WithinSkew : ℕ → List Use → Type 0
WithinSkew until [] = Unit {0}
WithinSkew until (u ∷ us) =
    (u.time ≤ until) × (u.clock ≤ u.time + identity_skew_ms) × WithinSkew until us

-- The jti is spent, by a token that expires at `exp`.
abbrev IsSpent : String → ℕ → Store → Type 0
IsSpent jti exp s = Any (λ r. (r.jti ≡ jti) × (r.exp ≡ exp)) s.rows

prune_rows-IsSpent :
    (now : ℕ) (jti : String) (exp : ℕ) (rows : List Row)
    → now < exp + retention_grace
    → Any (λ r. (r.jti ≡ jti) × (r.exp ≡ exp)) rows
    → Any (λ r. (r.jti ≡ jti) × (r.exp ≡ exp)) (prune_rows now rows)
unfolding prune_rows delete
prune_rows-IsSpent now jti exp [] h a = elim a [ ]
prune_rows-IsSpent now jti exp (r ∷ rows) h (inl (j, e)) =
    let keep : leb (r.exp + retention_grace) now ≡ false = ground arith in rw keep (inl (j, e))
prune_rows-IsSpent now jti exp (r ∷ rows) h (inr a) =
    let rest = prune_rows-IsSpent now jti exp rows h a in
    elim (Bool-cases (leb (r.exp + retention_grace) now)) [
      | inl gone ↦ rw gone rest
      | inr kept ↦ rw kept (inr rest)
    ]

insert_row-IsSpent :
    (j : String) (e : ℕ) (jti : String) (exp : ℕ) (s : Store)
    → IsSpent jti exp s
    → IsSpent jti exp (insert_row j e s).1
unfolding insert_row
insert_row-IsSpent j e jti exp s a = elim (Bool-cases (is_some (select (λ r. r.jti == j) s.rows))) [
  | inl old ↦ rw old a
  | inr new ↦ rw new (inr a)
]

prune-IsSpent :
    (replica now : ℕ) (jti : String) (exp : ℕ) (s : Store)
    → now < exp + retention_grace
    → IsSpent jti exp s
    → IsSpent jti exp (prune replica now s)
unfolding prune
prune-IsSpent replica now jti exp s h a =
    elim (Bool-cases (ltb 60000 (now - s.last_prune replica))) [
      | inl due ↦ rw due (prune_rows-IsSpent now jti exp s.rows h a)
      | inr early ↦ rw early a
    ]

use_at-IsSpent :
    (u : Use) (jti : String) (exp : ℕ) (s : Store)
    → u.clock < exp + retention_grace
    → IsSpent jti exp s
    → IsSpent jti exp (use_at u s).1
unfolding use_jti
use_at-IsSpent u jti exp s h a = elim (Bool-cases (in_window u.clock u.exp)) [
  | inl open_window ↦ rw open_window (
      insert_row-IsSpent u.jti u.exp jti exp (prune u.replica u.clock s)
        (prune-IsSpent u.replica u.clock jti exp s h a))
  | inr closed ↦ rw closed a
]

run-IsSpent :
    (us : List Use) (until : ℕ) (jti : String) (exp : ℕ) (s : Store)
    → until < exp + 2 * identity_skew_ms
    → WithinSkew until us
    → IsSpent jti exp s
    → IsSpent jti exp (run us s)
unfolding run
run-IsSpent [] until jti exp s h w a = a
run-IsSpent (u ∷ us) until jti exp s h (t, c, w) a =
    run-IsSpent us until jti exp (use_at u s).1 h w (use_at-IsSpent u jti exp s (omega arith) a)

select-spent :
    (jti : String) (exp : ℕ) (rows : List Row)
    → Any (λ r. (r.jti ≡ jti) × (r.exp ≡ exp)) rows
    → is_some (select (λ r. r.jti == jti) rows) ≡ true
unfolding select
select-spent jti exp [] a = elim a [ ]
select-spent jti exp (r ∷ rows) (inl (j, e)) = ground (arith, eq_iff r.jti jti)
select-spent jti exp (r ∷ rows) (inr a) = ground (arith, select-spent jti exp rows a)

use_at-refused :
    (u : Use) (s : Store) (exp : ℕ)
    → u.clock < exp + retention_grace
    → IsSpent u.jti exp s
    → (use_at u s).0 ≡ false
unfolding use_jti insert_row
use_at-refused u s exp h a = elim (Bool-cases (in_window u.clock u.exp)) [
  | inl open_window ↦ rw open_window (
      rw (
        select-spent u.jti exp (prune u.replica u.clock s).rows
          (prune-IsSpent u.replica u.clock u.jti exp s h a)))
  | inr closed ↦ rw closed
]

insert_row-spends :
    (jti : String) (exp : ℕ) (s : Store)
    → (insert_row jti exp s).0 ≡ true
    → IsSpent jti exp (insert_row jti exp s).1
unfolding insert_row
insert_row-spends jti exp s e = elim (Bool-cases (is_some (select (λ r. r.jti == jti) s.rows))) [
  | inl old ↦ absurd (cc (rw old at e))
  | inr new ↦ rw new (inl (refl, refl))
]

use_at-spends : (u : Use) (s : Store) → (use_at u s).0 ≡ true → IsSpent u.jti u.exp (use_at u s).1
unfolding use_jti
use_at-spends u s e = elim (Bool-cases (in_window u.clock u.exp)) [
  | inl open_window ↦
      rw open_window
        (insert_row-spends u.jti u.exp (prune u.replica u.clock s) (rw open_window at e))
  | inr closed ↦ absurd (cc (rw closed at e))
]

-- A jti that some replica has accepted is not accepted again by any replica whose verifier still
-- takes the token: after the first use, over any calls of any replicas in between, each with its
-- clock at most the tolerance ahead of the true time, the store refuses a second use by a replica
-- whose clock is within the tolerance of the true time either way and at which the token has not
-- expired by the verifier's rule.
pub use-once :
    (first again : Use) (between : List Use) (s : Store)
    → (use_at first s).0 ≡ true
    → again.jti ≡ first.jti
    → again.clock < first.exp + identity_skew_ms
    → again.time ≤ again.clock + identity_skew_ms
    → again.clock ≤ again.time + identity_skew_ms
    → WithinSkew again.time between
    → (use_at again (run between (use_at first s).1)).0 ≡ false
use-once first again between s fresh same live behind ahead w =
    use_at-refused again (run between (use_at first s).1) first.exp (omega arith) (
      rw same (
        run-IsSpent between again.time first.jti first.exp (use_at first s).1 (omega arith) w
          (use_at-spends first s fresh)))
