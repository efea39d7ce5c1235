-- ===== src/RateLimit/Admission.antt =====
-- How much a key can spend: at most its capacity and what the elapsed time refills.
use vouchr.Base.{
  ℕ, ◌+◌, ◌-◌, ◌*◌, ◌≤◌, String, ◌≡◌, refl, sym, ap, inl, inr, false, List, [], ◌∷◌, arith, ltb,
  if◌then◌else◌, Bool-cases, Option-cases,
}
use mathlib.Core.Path.{subst}
use text.Mathlib.TextEquality.{eq_iff}
use vouchr.Base.Eq.{string_eq, ◌==◌}
use vouchr.Base.Assoc.{lookup}
use vouchr.RateLimit.{Store, empty_store, Taken, ok, retry_after, take}
use vouchr.RateLimit.Level.{
  IsSteady, level, take-answer, take-lookup, take_other-level, take-IsSteady,
}

-- The rate and capacity of each key: a provider's limits are fixed.
pub record Limits : Type 0 where
  pub refill_per_ms : ℕ
  pub capacity : ℕ

pub record Event : Type 0 where
  pub time : ℕ
  pub key : String
  pub cost : ℕ

module _ (limits : String → Limits) where
  abbrev pub take_event : Event → Store → Taken × Store
  take_event e s = take e.time e.key e.cost (limits e.key).refill_per_ms (limits e.key).capacity s

  -- The cost of an event that was admitted and is for the key.
  abbrev pub charge : String → Event → Taken → ℕ
  charge key e ok = if e.key == key then e.cost else 0
  charge key e (retry_after _) = 0

  -- What the calls for a key were admitted for, all together.
  unfoldable pub spent : String → List Event → Store → ℕ
  spent key [] s = 0
  spent key (e ∷ es) s = charge key e (take_event e s).0 + spent key es (take_event e s).1

-- The events are in the order of time, from `from` to `until`.
abbrev pub InOrder : ℕ → ℕ → List Event → Type 0
InOrder from until [] = from ≤ until
InOrder from until (e ∷ es) = (from ≤ e.time) × InOrder e.time until es

scale :
    (last from now r : ℕ)
    → last ≤ from
    → from ≤ now
    → (now - last) * r ≤ (from - last) * r + (now - from) * r
scale last from now r h k = grind arith

IsSteady-later :
    (key : String) (refill capacity from now : ℕ) (s : Store)
    → from ≤ now
    → IsSteady key refill capacity from s
    → IsSteady key refill capacity now s
IsSteady-later key refill capacity from now s h v = record {
  map = v.map;
  own = λ b e. let (c, r, l) = v.own b e in (c, r, omega arith);
}

level-later :
    (key : String) (refill capacity from now : ℕ) (s : Store)
    → from ≤ now
    → IsSteady key refill capacity from s
    → level now key capacity s ≤ level from key capacity s + (now - from) * refill
level-later key refill capacity from now s h v = elim (Option-cases (lookup key s.buckets)) [
  | inl missing ↦ rw missing (omega arith)
  | inr (b, at) ↦
      let (c, r, l) = v.own b at in rw at (rw r (omega (arith, scale b.last from now refill l h)))
]

level-le : (now : ℕ) (key : String) (capacity : ℕ) (s : Store) → level now key capacity s ≤ capacity
level-le now key capacity s = elim (Option-cases (lookup key s.buckets)) [
  | inl missing ↦ rw missing (omega arith)
  | inr (b, at) ↦ rw at (omega arith)
]

add_scaled :
    (from now until r : ℕ)
    → from ≤ now
    → now ≤ until
    → (now - from) * r + (until - now) * r ≤ (until - from) * r
add_scaled from now until r h k = grind arith

InOrder-le : (from until : ℕ) (es : List Event) → InOrder from until es → from ≤ until
InOrder-le from until [] h = h
InOrder-le from until (e ∷ es) (h, hs) = omega (arith, InOrder-le e.time until es hs)

abbrev paid : ℕ → Taken → ℕ
paid cost ok = cost
paid cost (retry_after _) = 0

-- What a call is admitted for and what it leaves together are no more than it found.
take-conserves :
    (key : String) (cost refill capacity now : ℕ) (s : Store)
    → IsSteady key refill capacity now s
    → paid cost (take now key cost refill capacity s).0
        + level now key capacity (take now key cost refill capacity s).1
      ≤ level now key capacity s
take-conserves key cost refill capacity now s v =
    rw (take-answer key cost refill capacity now s v) (
      rw (take-lookup key cost refill capacity now s v)
        (elim (Bool-cases (ltb (level now key capacity s) cost)) [
          | inl short ↦ rw short (ground arith)
          | inr enough ↦ rw enough (ground arith)
        ]))

module _ (limits : String → Limits) (key : String) where
  open (limits key) use {refill_per_ms, capacity}

  charge-le-paid : (e : Event) (t : Taken) → charge limits key e t ≤ paid e.cost t
  charge-le-paid e ok = ground arith
  charge-le-paid e (retry_after ms) = omega arith

  charge-other : (e : Event) (t : Taken) → (e.key == key) ≡ false → charge limits key e t ≡ 0
  charge-other e ok miss = rw miss
  charge-other e (retry_after ms) miss = refl

  charge-take-level :
      (e : Event) (s : Store)
      → IsSteady key refill_per_ms capacity e.time s
      → charge limits key e (take_event limits e s).0
          + level e.time key capacity (take_event limits e s).1
        ≤ level e.time key capacity s
  charge-take-level e s v = elim (Bool-cases (e.key == key)) [
    | inl hit ↦ omega (
      arith,
      charge-le-paid e (take_event limits e s).0,
      subst
          (λ k.
            paid e.cost (take e.time k e.cost (limits k).refill_per_ms (limits k).capacity s).0
              + level e.time key capacity
                  (take e.time k e.cost (limits k).refill_per_ms (limits k).capacity s).1
            ≤ level e.time key capacity s)
          (sym ((eq_iff e.key key).0 hit))
          (take-conserves key e.cost refill_per_ms capacity e.time s v),
    )
    | inr miss ↦ omega (
      arith,
      charge-other e (take_event limits e s).0 miss,
      take_other-level key refill_per_ms capacity e.time s v e.key e.cost
          (limits e.key).refill_per_ms (limits e.key).capacity
          (λ same. cc ((eq_iff e.key key).1 same)),
    )
  ]

  take_event-IsSteady :
      (e : Event) (s : Store)
      → IsSteady key refill_per_ms capacity e.time s
      → IsSteady key refill_per_ms capacity e.time (take_event limits e s).1
  take_event-IsSteady e s v =
      take-IsSteady key refill_per_ms capacity e.time s v e.key e.cost (limits e.key).refill_per_ms
        (limits e.key).capacity
        (λ same. (ap (λ k. (limits k).refill_per_ms) same, ap (λ k. (limits k).capacity) same))

  spent-le-level :
      (es : List Event) (s : Store) (from until : ℕ)
      → IsSteady key refill_per_ms capacity from s
      → InOrder from until es
      → spent limits key es s ≤ level from key capacity s + (until - from) * refill_per_ms
  unfolding spent
  spent-le-level [] s from until v o = omega arith
  spent-le-level (e ∷ es) s from until v (h, o) =
      let w = IsSteady-later key refill_per_ms capacity from e.time s h v in
      omega (
        arith,
        charge-take-level e s w,
        level-later key refill_per_ms capacity from e.time s h v,
        add_scaled from e.time until refill_per_ms h (InOrder-le e.time until es o),
        spent-le-level es (take_event limits e s).1 e.time until (take_event-IsSteady e s w) o,
      )

empty-IsSteady :
    (key : String) (refill capacity now : ℕ) → IsSteady key refill capacity now empty_store
unfolding lookup
empty-IsSteady key refill capacity now = record { map = tt; own = λ b e. cc }

-- From an empty store, over any calls in the order of time, for any keys and with prunes on the way,
-- where each key keeps its own limits: the calls for a key are admitted for no more than its capacity
-- and what the time from the start to the end refills.
pub spent-le :
    (limits : String → Limits) (key : String) (es : List Event) (from until : ℕ)
    → InOrder from until es
    → spent limits key es empty_store
      ≤ (limits key).capacity + (until - from) * (limits key).refill_per_ms
spent-le limits key es from until o = omega (
  arith,
  spent-le-level limits key es empty_store from until
      (empty-IsSteady key (limits key).refill_per_ms (limits key).capacity from) o,
  level-le from key (limits key).capacity empty_store,
)
