-- ===== src/Health/Window.antt =====
-- At most one notification in a window.
use vouchr.Base.{
  ℕ, ◌+◌, ◌≤◌, ◌<◌, String, ◌≡◌, refl, ap, ◌∙◌, inl, inr, Bool, true, false, List, [], ◌∷◌, Option,
  none, some, arith, leb, if◌then◌else◌, if-cases, Bool-cases,
}
use vouchr.Base.Eq.{◌==◌, option_eq, nat_eq, option_equals_iff}
use vouchr.Base.Assoc.{lookup, insert, erase, lookup-insert, lookup-erase}
use vouchr.Owner.{Owner}
use vouchr.Health.{
  NotificationKey, NotificationKind, Table, key_of, notification_key_eq, health_notify_debounce_ms,
  claim_on, claim, release,
}

pub data Step : Type 0 where
  -- the owner, the provider, the kind and the caller's time; or the time of the claim that is released
  claims : Owner → String → NotificationKind → ℕ → Step
  releases : Owner → String → NotificationKind → ℕ → Step

unfoldable pub apply : Step → Table → Table
apply (claims o provider kind now) t = (claim o provider kind now t).1
apply (releases o provider kind claimed_at) t = release o provider kind claimed_at t

unfoldable pub run : List Step → Table → Table
run [] t = t
run (s ∷ steps) t = run steps (apply s t)

-- Releases of the key are of claims before the time.
abbrev pub IsStale : NotificationKey → ℕ → List Step → Type 0
IsStale k at [] = Unit {0}
IsStale k at (claims o provider kind now ∷ steps) = IsStale k at steps
IsStale k at (releases o provider kind claimed_at ∷ steps) =
    (key_of o provider kind ≡ k → claimed_at < at) × IsStale k at steps

module _ (k : NotificationKey) (at : ℕ) where
  -- The key was notified at the time, or later.
  abbrev IsTaken : Table → Type 0
  IsTaken t = (last : ℕ) × (lookup k t ≡ some last) × (at ≤ last)

  IsTaken-insert :
      (own : NotificationKey) (now : ℕ) (t : Table)
      → (own ≡ k → at ≤ now)
      → IsTaken t
      → IsTaken (insert own now t)
  IsTaken-insert own now t later (last, e, h) = elim (Bool-cases (own == k)) [
    | inl same ↦ (
      now,
      lookup-insert own k now t ∙ ap (λ b. if b then some now else lookup k t) same,
      later ((notification_key_eq.equals_iff own k).0 same),
    )
    | inr other ↦ (
      last,
      lookup-insert own k now t ∙ ap (λ b. if b then some now else lookup k t) other ∙ e,
      h,
    )
  ]

  claim-IsTaken :
      (own : NotificationKey) (now : ℕ) (t : Table) (o : Option ℕ)
      → lookup own t ≡ o
      → IsTaken t
      → IsTaken (claim_on own now t o).1
  unfolding claim_on
  claim-IsTaken own now t none e h =
      IsTaken-insert own now t (λ p. absurd (ground (arith, h.1, ap (λ x. lookup x t) p, e))) h
  claim-IsTaken own now t (some last) e h =
      if-cases (λ (x : Bool × Table). IsTaken x.1) (leb (last + health_notify_debounce_ms) now) _ _
        (λ past.
          IsTaken-insert own now t (λ p. ground (arith, past, h.1, h.2, ap (λ x. lookup x t) p, e))
            h)
        (λ shut. h)

  release-IsTaken :
      (o : Owner) (provider : String) (kind : NotificationKind) (claimed_at : ℕ) (t : Table)
      → (key_of o provider kind ≡ k → claimed_at < at)
      → IsTaken t
      → IsTaken (release o provider kind claimed_at t)
  unfolding release
  release-IsTaken o provider kind claimed_at t stale (last, e, h) =
      if-cases IsTaken (lookup (key_of o provider kind) t == some claimed_at) _ _
        (λ found. (last, kept found, h)) (λ other. (last, e, h))
    where
      kept :
          (lookup (key_of o provider kind) t == some claimed_at) ≡ true
          → lookup k (erase (key_of o provider kind) t) ≡ some last
      kept found = elim (Bool-cases (key_of o provider kind == k)) [
        | inl same ↦
            absurd
              (older found ((notification_key_eq.equals_iff (key_of o provider kind) k).0 same))
        | inr other ↦
            lookup-erase (key_of o provider kind) k t
            ∙ ap (λ b. if b then none else lookup k t) other
            ∙ e
      ]
        where
          older :
              (lookup (key_of o provider kind) t == some claimed_at) ≡ true
              → key_of o provider kind ≡ k
              → ⊥
          older f p = ground (
            arith,
            stale p,
            h,
            e,
            ap (λ x. lookup x t) p,
            (option_equals_iff nat_eq (lookup (key_of o provider kind) t) (some claimed_at)).0 f,
          )

  run-IsTaken :
      (steps : List Step) (t : Table) → IsStale k at steps → IsTaken t → IsTaken (run steps t)
  unfolding run apply claim
  run-IsTaken [] t f h = h
  run-IsTaken (claims o provider kind now ∷ steps) t f h =
      run-IsTaken steps _ f
        (claim-IsTaken (key_of o provider kind) now t (lookup (key_of o provider kind) t) refl h)
  run-IsTaken (releases o provider kind claimed_at ∷ steps) t (stale, f) h =
      run-IsTaken steps _ f (release-IsTaken o provider kind claimed_at t stale h)

own-insert : (k : NotificationKey) (now : ℕ) (t : Table) → lookup k (insert k now t) ≡ some now
own-insert k now t =
    lookup-insert k k now t
    ∙ ap (λ b. if b then some now else lookup k t) ((notification_key_eq.equals_iff k k).1 refl)

claimed-IsTaken :
    (k : NotificationKey) (now : ℕ) (t : Table) (o : Option ℕ)
    → (claim_on k now t o).0 ≡ true
    → IsTaken k now (claim_on k now t o).1
unfolding claim_on
claimed-IsTaken k now t none e = (now, own-insert k now t, omega arith)
claimed-IsTaken k now t (some last) e =
    if-cases (λ (x : Bool × Table). x.0 ≡ true → IsTaken k now x.1)
      (leb (last + health_notify_debounce_ms) now) _ _
      (λ past q. (now, own-insert k now t, omega arith)) (λ shut q. absurd (ground arith)) e

taken-refused :
    (k : NotificationKey) (now later : ℕ) (t : Table) (o : Option ℕ)
    → lookup k t ≡ o
    → IsTaken k now t
    → later < now + health_notify_debounce_ms
    → (claim_on k later t o).0 ≡ false
unfolding claim_on
taken-refused k now later t none e h soon = absurd (ground (arith, h.1, e))
taken-refused k now later t (some last) e h soon =
    if-cases (λ (x : Bool × Table). x.0 ≡ false) (leb (last + health_notify_debounce_ms) later) _ _
      (λ past. absurd (ground (arith, past, h.1, h.2, e, soon))) (λ shut. refl)

-- After a claim that is granted, every further claim for the same owner, provider and kind at a time
-- before the end of its window is refused, whatever claims and releases come in between on any
-- replica, as long as the releases for it are of earlier claims.
pub claim_exclusive :
    (o : Owner) (provider : String) (kind : NotificationKind) (now later : ℕ) (t : Table)
    (steps : List Step)
    → (claim o provider kind now t).0 ≡ true
    → IsStale (key_of o provider kind) now steps
    → later < now + health_notify_debounce_ms
    → (claim o provider kind later (run steps (claim o provider kind now t).1)).0 ≡ false
unfolding claim
claim_exclusive o provider kind now later t steps e f soon =
    taken-refused (key_of o provider kind) now later _ _ refl
      (run-IsTaken (key_of o provider kind) now steps _ f
        (claimed-IsTaken (key_of o provider kind) now t (lookup (key_of o provider kind) t) e))
      soon
