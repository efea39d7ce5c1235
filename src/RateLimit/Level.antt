-- ===== src/RateLimit/Level.antt =====
-- The level of a key: what a call would find in its bucket. Pruning does not change it.
use vouchr.Base.{
  ℕ, ◌-◌, ◌≤◌, String, ◌≡◌, refl, inl, inr, List, [], ◌∷◌, Option, none, some, arith, ltb, ◌≢◌,
  if◌then◌else◌, Bool-cases, Option-cases,
}
use text.Mathlib.TextEquality.{eq_iff}
use vouchr.Base.Eq.{string_eq, ◌==◌}
use vouchr.Base.Assoc.{lookup, insert, lookup-insert}
use vouchr.RateLimit.{
  Bucket, Store, Taken, ok, retry_after, is_full, drop_full, prune, level_of, settle, take,
  ceil_div,
}

-- The map holds a key at most once, as a Map does.
abbrev pub IsMap : List (String × Bucket) → Type 0
IsMap [] = Unit {0}
IsMap ((k, b) ∷ m) = (lookup k m ≡ none) × IsMap m

-- The bucket of the key, if there is one, was used under this rate and capacity, as where a
-- provider's limits are fixed, and not after `now`.
pub record IsSteady (key : String) (refill capacity now : ℕ) (s : Store) : Type 0 where
  pub map : IsMap s.buckets
  pub own :
      (b : Bucket)
      → lookup key s.buckets ≡ some b
      → (b.capacity ≡ capacity) × (b.refill_per_ms ≡ refill) × (b.last ≤ now)

-- What a call for the key would find at a time.
abbrev pub level : ℕ → String → ℕ → Store → ℕ
level now key capacity s = level_of now capacity (lookup key s.buckets)

abbrev kept : ℕ → Option Bucket → Option Bucket
kept now none = none
kept now (some b) = if is_full now b then none else some b

lookup-drop_full-none :
    (now : ℕ) (k : String) (m : List (String × Bucket))
    → lookup k m ≡ none
    → lookup k (drop_full now m) ≡ none
unfolding drop_full lookup
lookup-drop_full-none now k [] e = refl
lookup-drop_full-none now k ((j, b) ∷ m) e = ground (arith, lookup-drop_full-none now k m)

lookup-drop_full :
    (now : ℕ) (k : String) (m : List (String × Bucket))
    → IsMap m
    → lookup k (drop_full now m) ≡ kept now (lookup k m)
unfolding drop_full lookup
lookup-drop_full now k [] d = refl
lookup-drop_full now k ((j, b) ∷ m) (d, ds) = elim (Bool-cases (j == k)) [
  | inl same ↦
      let at : lookup k m ≡ none = rw ((eq_iff j k).0 same) at d in
      elim (Bool-cases (is_full now b)) [
        | inl full ↦ rw (full, same) (rw full (lookup-drop_full-none now k m at))
        | inr room ↦ rw (room, same) (rw room)
      ]
  | inr other ↦ ground (arith, lookup-drop_full now k m ds)
]

drop_full-IsMap : (now : ℕ) (m : List (String × Bucket)) → IsMap m → IsMap (drop_full now m)
unfolding drop_full
drop_full-IsMap now [] d = tt
drop_full-IsMap now ((j, b) ∷ m) (d, ds) = elim (Bool-cases (is_full now b)) [
  | inl full ↦ rw full (drop_full-IsMap now m ds)
  | inr room ↦ rw room (lookup-drop_full-none now j m d, drop_full-IsMap now m ds)
]

insert-IsMap :
    (k : String) (b : Bucket) (m : List (String × Bucket)) → IsMap m → IsMap (insert k b m)
unfolding insert lookup
insert-IsMap k b [] d = (refl, tt)
insert-IsMap k b ((j, c) ∷ m) (d, ds) = elim (Bool-cases (j == k)) [
  | inl same ↦ rw same (rw ((eq_iff j k).0 same) at d, ds)
  | inr other ↦
      rw other
        (ground (arith, lookup-insert k j b m, eq_iff k j, eq_iff j k), insert-IsMap k b m ds)
]

module _ (key : String) (refill capacity now : ℕ) (s : Store)
    (v : IsSteady key refill capacity now s) where
  prune-IsSteady : IsSteady key refill capacity now (prune now s)
  unfolding prune
  prune-IsSteady = elim (Bool-cases (ltb 60000 (now - s.last_prune))) [
    | inl due ↦ rw due (record {
      map = drop_full-IsMap now s.buckets v.map;
      own = λ b e. elim (Option-cases (lookup key s.buckets)) [
        | inl missing ↦ ground (arith, lookup-drop_full now key s.buckets v.map)
        | inr (c, at) ↦ ground (arith, lookup-drop_full now key s.buckets v.map, v.own c at)
      ];
    })
    | inr early ↦ rw early v
  ]

  -- A bucket that is dropped was full, and a key with no bucket has a full one.
  level-prune : level now key capacity (prune now s) ≡ level now key capacity s
  unfolding prune
  level-prune = elim (Option-cases (lookup key s.buckets)) [
    | inl missing ↦ ground (arith, lookup-drop_full now key s.buckets v.map)
    | inr (c, at) ↦ ground (arith, lookup-drop_full now key s.buckets v.map, v.own c at)
  ]

-- The answer to a call that finds `tokens`, and what it leaves.
abbrev pub answer : ℕ → ℕ → ℕ → Taken
answer cost refill tokens =
    if ltb tokens cost then retry_after (ceil_div (cost - tokens) refill) else ok

abbrev pub left : ℕ → ℕ → ℕ
left cost tokens = if ltb tokens cost then tokens else tokens - cost

-- What the call leaves in the bucket of its key.
abbrev pub left_bucket : ℕ → ℕ → ℕ → ℕ → ℕ → Bucket
left_bucket cost refill capacity now tokens = record {
  tokens = left cost tokens;
  last = now;
  refill_per_ms = refill;
  capacity = capacity;
}

settle-buckets :
    (now : ℕ) (key : String) (cost refill capacity tokens : ℕ) (s : Store)
    → (settle now key cost refill capacity tokens s).1.buckets
      ≡ insert key (left_bucket cost refill capacity now tokens) s.buckets
unfolding settle
settle-buckets now key cost refill capacity tokens s = elim (Bool-cases (ltb tokens cost)) [
  | inl short ↦ rw short
  | inr enough ↦ rw enough
]

take-buckets :
    (now : ℕ) (key : String) (cost refill capacity : ℕ) (s : Store)
    → (take now key cost refill capacity s).1.buckets
      ≡ insert key
          (left_bucket cost refill capacity now (level now key capacity (prune now s)))
          (prune now s).buckets
unfolding take
take-buckets now key cost refill capacity s =
    settle-buckets now key cost refill capacity (level now key capacity (prune now s)) (prune now s)

module _ (key : String) (cost refill capacity now : ℕ) (s : Store)
    (v : IsSteady key refill capacity now s) where
  -- A call answers by the level of its key alone, whether the store was pruned on the way or not:
  -- it is admitted exactly if the level covers the cost, and told how long to wait otherwise.
  pub take-answer :
      (take now key cost refill capacity s).0 ≡ answer cost refill (level now key capacity s)
  unfolding take settle
  take-answer = rw (← level-prune key refill capacity now s v) (ground arith)

  pub take-lookup :
      lookup key (take now key cost refill capacity s).1.buckets
      ≡ some (left_bucket cost refill capacity now (level now key capacity s))
  take-lookup = rw (take-buckets now key cost refill capacity s) (
      rw (level-prune key refill capacity now s v) (
        ground (
          arith,
          eq_iff key key,
          lookup-insert key key (left_bucket cost refill capacity now (level now key capacity s))
              (prune now s).buckets,
        )))

module _ (key : String) (refill capacity now : ℕ) (s : Store)
    (v : IsSteady key refill capacity now s) (j : String) (cost r c : ℕ) where
  -- A call for another key leaves the level of this one.
  pub take_other-level :
      j ≢ key → level now key capacity (take now j cost r c s).1 ≡ level now key capacity s
  take_other-level other = rw (take-buckets now j cost r c s) (
      rw
        (lookup-insert j key (left_bucket cost r c now (level now j c (prune now s)))
          (prune now s).buckets)
        (ground (arith, eq_iff j key, level-prune key refill capacity now s v)))

  pub take-IsSteady :
      (j ≡ key → (r ≡ refill) × (c ≡ capacity))
      → IsSteady key refill capacity now (take now j cost r c s).1
  take-IsSteady same =
      let p = prune-IsSteady key refill capacity now s v in
      let b = left_bucket cost r c now (level now j c (prune now s)) in
      record {
        map = rw (take-buckets now j cost r c s) (insert-IsMap j b (prune now s).buckets p.map);
        own = λ x e.
            let at = rw (take-buckets now j cost r c s) at e in
            elim (Bool-cases (j == key)) [
              | inl hit ↦ ground (
                arith,
                lookup-insert j key b (prune now s).buckets,
                eq_iff j key,
                same ((eq_iff j key).0 hit),
              )
              | inr miss ↦ p.own x (ground (arith, lookup-insert j key b (prune now s).buckets))
            ];
      }
