-- ===== src/Inflight/Counts.antt =====
-- The counters of the limiter against the slots that are held.
use vouchr.Base.{
  ℕ, ◌+◌, ◌-◌, ◌≤◌, String, ◌≡◌, refl, ap, inl, inr, Bool, true, false, List, [], ◌∷◌, none, some,
  arith, get_or, Option-cases, Bool-cases, not, ◌&&◌, leb, zero, suc,
}
use vouchr.Base.Eq.{◌==◌, string_eq}
use vouchr.Base.Lists.{get_elem?, set, count, count-append, count-set}
use vouchr.Base.Assoc.{lookup, lookup-insert, lookup-erase}
use text.Mathlib.TextEquality.{eq_iff}
use vouchr.Inflight.{
  Scope, global, provider, Slot, Limiter, built, make, enter, enter_provider, decrement,
  release_slot, release, Call, enters, enters_provider, releases, after, step, run, fresh_slot,
}

abbrev pub holds_global : Slot → Bool
holds_global s = not s.released && elim s.scope [ global ↦ true | provider p ↦ false ]

abbrev pub holds_provider : String → Slot → Bool
holds_provider p s = not s.released && elim s.scope [ global ↦ false | provider q ↦ q == p ]

abbrev pub held_by : Limiter → String → ℕ
held_by l p = get_or (lookup p l.per_provider) 0

-- Each counter is the number of slots that are entered and not released, and is within its cap.
pub record Inv (l : Limiter) : Type 0 where
  pub global_counted : l.global_count ≡ count holds_global l.slots
  pub global_bounded : l.global_count ≤ l.global_max
  pub provider_counted : (p : String) → held_by l p ≡ count (holds_provider p) l.slots
  pub provider_bounded : (p : String) → held_by l p ≤ l.provider_max

enter-Inv : (l : Limiter) → Inv l → Inv (after l (enter l))
unfolding enter
enter-Inv l v = elim (Bool-cases (leb l.global_max l.global_count)) [
  | inl full ↦ rw full v
  | inr room ↦ rw room (record {
    global_counted =
        omega (arith, v.global_counted, count-append holds_global l.slots (fresh_slot global));
    global_bounded = ground arith;
    provider_counted = λ p.
        omega (
          arith,
          v.provider_counted p,
          count-append (holds_provider p) l.slots (fresh_slot global),
        );
    provider_bounded = v.provider_bounded;
  })
]

enter_provider-Inv : (q : String) (l : Limiter) → Inv l → Inv (after l (enter_provider q l))
unfolding enter_provider
enter_provider-Inv q l v = elim (Bool-cases (leb l.provider_max (held_by l q))) [
  | inl full ↦ rw full v
  | inr room ↦ rw room (record {
    global_counted =
        omega
          (arith, v.global_counted, count-append holds_global l.slots (fresh_slot (provider q)));
    global_bounded = v.global_bounded;
    provider_counted = λ p. ground (
      arith,
      v.provider_counted p,
      lookup-insert q p (held_by l q + 1) l.per_provider,
      eq_iff q p,
      count-append (holds_provider p) l.slots (fresh_slot (provider q)),
    );
    provider_bounded = λ p. ground (
      arith,
      v.provider_bounded p,
      eq_iff q p,
      lookup-insert q p (held_by l q + 1) l.per_provider,
    );
  })
]

abbrev let_go : Slot → Slot
let_go s = record s { released = true }

module _ (l : Limiter) (i : ℕ) (s : Slot) (at : get_elem? l.slots i ≡ some s)
    (held : s.released ≡ false) (v : Inv l) where
  release_global-Inv :
      s.scope ≡ global → Inv (decrement global (record l { slots = set l.slots i (let_go s) }))
  unfolding decrement
  release_global-Inv same = record {
    global_counted =
        ground (arith, v.global_counted, count-set holds_global l.slots i s (let_go s) at);
    global_bounded = omega arith;
    provider_counted = λ p.
        ground
          (arith, v.provider_counted p, count-set (holds_provider p) l.slots i s (let_go s) at);
    provider_bounded = v.provider_bounded;
  }

  release_provider_count :
      (q p : String)
      → s.scope ≡ provider q
      → held_by (decrement (provider q) (record l { slots = set l.slots i (let_go s) })) p
        ≡ count (holds_provider p) (set l.slots i (let_go s))
  unfolding decrement
  release_provider_count q p same = ground (
    arith,
    v.provider_counted p,
    count-set (holds_provider p) l.slots i s (let_go s) at,
    eq_iff q p,
    lookup-insert q p (get_or (lookup q l.per_provider) 1 - 1) l.per_provider,
    lookup-erase q p l.per_provider,
  )

  release_provider_bound :
      (q p : String)
      → held_by (decrement (provider q) (record l { slots = set l.slots i (let_go s) })) p
        ≤ held_by l p
  unfolding decrement
  release_provider_bound q p = ground (
    arith,
    eq_iff q p,
    lookup-insert q p (get_or (lookup q l.per_provider) 1 - 1) l.per_provider,
    lookup-erase q p l.per_provider,
  )

  release_provider-Inv :
      (q : String)
      → s.scope ≡ provider q
      → Inv (decrement (provider q) (record l { slots = set l.slots i (let_go s) }))
  unfolding decrement
  release_provider-Inv q same = record {
    global_counted =
        ground (arith, v.global_counted, count-set holds_global l.slots i s (let_go s) at);
    global_bounded = v.global_bounded;
    provider_counted = λ p. release_provider_count q p same;
    provider_bounded = λ p. omega (arith, release_provider_bound q p, v.provider_bounded p);
  }

-- Releasing a held slot takes one from its own counter and from no other.
release_held-Inv :
    (l : Limiter) (i : ℕ) (s : Slot)
    → get_elem? l.slots i ≡ some s
    → s.released ≡ false
    → Inv l
    → Inv (decrement s.scope (record l { slots = set l.slots i (let_go s) }))
release_held-Inv l i s at held v = go s.scope refl
  where
    go :
        (c : Scope)
        → s.scope ≡ c
        → Inv (decrement c (record l { slots = set l.slots i (let_go s) }))
    go global same = release_global-Inv l i s at held v same
    go (provider q) same = release_provider-Inv l i s at held v q same

release-Inv : (i : ℕ) (l : Limiter) → Inv l → Inv (release i l)
unfolding release release_slot
release-Inv i l v = elim (Option-cases (get_elem? l.slots i)) [
  | inl missing ↦ rw (missing, release_slot) v
  | inr (s, e) ↦ elim (Bool-cases s.released) [
    | inl done ↦ rw (e, release_slot) (rw done v)
    | inr held ↦ rw (e, release_slot) (rw held (release_held-Inv l i s e held v))
  ]
]

step-Inv : (l : Limiter) (c : Call) → Inv l → Inv (step l c)
unfolding step
step-Inv l enters v = enter-Inv l v
step-Inv l (enters_provider p) v = enter_provider-Inv p l v
step-Inv l (releases i) v = release-Inv i l v

run_keeps-Inv : (l : Limiter) (cs : List Call) → Inv l → Inv (run l cs)
unfolding run
run_keeps-Inv l [] v = v
run_keeps-Inv l (c ∷ cs) v = run_keeps-Inv (step l c) cs (step-Inv l c v)

make-Inv : (g p r : ℕ) {l : Limiter} → make g p r ≡ built l → Inv l
unfolding make lookup
make-Inv g p r e = ground arith

-- Whatever a limiter that the constructor accepted is asked to do, in any order and with any
-- releaser called any number of times, each counter stays the number of slots that are held, the
-- global one at most `globalMax`, and each provider's at most `maxInflightPerProvider`.
pub run-Inv :
    (global_max provider_max retry_after_ms : ℕ) (l : Limiter) (cs : List Call)
    → make global_max provider_max retry_after_ms ≡ built l
    → Inv (run l cs)
run-Inv g p r l cs e = run_keeps-Inv l cs (make-Inv g p r e)

get_elem?-set :
    {A : Type 0} (xs : List A) (i : ℕ) (x v : A)
    → get_elem? xs i ≡ some x
    → get_elem? (set xs i v) i ≡ some v
get_elem?-set [] i x v e = cc
get_elem?-set (y ∷ xs) zero x v e = refl
get_elem?-set (y ∷ xs) (suc i) x v e = get_elem?-set xs i x v e

decrement-slots : (c : Scope) (l : Limiter) → (decrement c l).slots ≡ l.slots
unfolding decrement
decrement-slots global l = refl
decrement-slots (provider q) l = refl

release_missing : (i : ℕ) (l : Limiter) → get_elem? l.slots i ≡ none → release i l ≡ l
unfolding release release_slot
release_missing i l e = rw (e, release_slot)

release_done :
    (i : ℕ) (l : Limiter) (s : Slot)
    → get_elem? l.slots i ≡ some s
    → s.released ≡ true
    → release i l ≡ l
unfolding release release_slot
release_done i l s e done = rw (e, release_slot) (rw done)

abbrev let_slot_go : Limiter → ℕ → Slot → Limiter
let_slot_go l i s = record l { slots = set l.slots i (let_go s) }

release_held :
    (i : ℕ) (l : Limiter) (s : Slot)
    → get_elem? l.slots i ≡ some s
    → s.released ≡ false
    → release i l ≡ decrement s.scope (let_slot_go l i s)
unfolding release release_slot
release_held i l s e held = rw (e, release_slot) (rw held)

-- A releaser that has run does nothing: calling it again leaves the limiter as it is.
pub release_idempotent : (i : ℕ) (l : Limiter) → release i (release i l) ≡ release i l
release_idempotent i l = elim (Option-cases (get_elem? l.slots i)) [
  | inl missing ↦ ap (release i) (release_missing i l missing)
  | inr (s, e) ↦ elim (Bool-cases s.released) [
    | inl done ↦ ap (release i) (release_done i l s e done)
    | inr held ↦ rw (release_held i l s e held) (
        release_done i (decrement s.scope (let_slot_go l i s)) (let_go s)
          (rw (decrement-slots s.scope (let_slot_go l i s))
            (get_elem?-set l.slots i s (let_go s) e))
          refl)
  ]
]
