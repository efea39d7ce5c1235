-- ===== src/Consent/Once.antt =====
-- A state is spent once, and what a spent state stands for.
use vouchr.Base.{
  ℕ, zero, suc, ◌+◌, String, ◌≡◌, refl, ◌≢◌, inl, inr, Bool, true, false, ◌&&◌, ◌||◌, List, [], ◌∷◌,
  Option, none, some, arith, is_some, ltb, if◌then◌else◌, Bool-cases, if-cases,
}
use text.Mathlib.TextEquality.{eq_iff}
use vouchr.Base.Eq.{string_eq}
use vouchr.Base.Lists.{All}
use vouchr.Base.Table.{select, update, All-delete, All-update, select-eq-none}
use vouchr.Interaction.{is_interaction_id}
use vouchr.Owner.{SlackIdentity, Owner}
use vouchr.Fence.{Marks, ProvisioningScopeKind, tombstone_blocks}
use vouchr.Consent.{
  Row, Table, ConsentRow, is_consent_state, is_current, supersede, supersede_issued, user_fences,
  mark_slack_verified, delete_for_user, delete_for_user_provider, state_ttl_us,
}
use vouchr.Consent.Issue.{Begin, Begun, is_reusable, insert_new, begin_on, begin_with, begin_fenced}
use vouchr.Consent.Callback.{
  Claim, unavailable, is_unconsumed, consume, consume_on, finalize_provisioning, finalize_on,
  is_finalizable,
}
use vouchr.Consent.Delivery.{
  DeliveryAttempt, claim_state_delivery, All-claim_state_delivery, confirm_state_delivery,
  abandon_state_delivery,
}
use vouchr.Consent.Sweep.{sweep_batch, is_stale}

pub data Step : Type 0 where
  begins : Begin → Marks → Step
  verifies : String → ℕ → Step
  consumes : String → ℕ → ℕ → Marks → Step
  finalizes : ConsentRow → Marks → Step
  claims : String → Bool → List DeliveryAttempt → Step
  confirms : String → String → ℕ → Step
  abandons : String → String → Step
  supersedes : Owner → String → ℕ → ℕ → Step
  deletes_user : SlackIdentity → Step
  deletes_provider : String → String → String → Step
  sweeps : ℕ → ℕ → Step

-- No state that is begun is the given one; the program's states are 32 random bytes each.
abbrev pub NotReissued : String → List Step → Type 0
NotReissued state [] = Unit {0}
NotReissued state (begins b m ∷ steps) = (b.state ≢ state) × NotReissued state steps
NotReissued state (_ ∷ steps) = NotReissued state steps

abbrev pub IsSpent : String → Row → Type 0
IsSpent state r = r.state ≡ state → is_some r.consumed_at ≡ true

module _ (scope_key : ProvisioningScopeKind → List String → String) where
  unfoldable pub apply : Step → Table → Table
  apply (begins b m) t = (begin_fenced scope_key b m t).1
  apply (verifies state now) t = (mark_slack_verified state now t).1
  apply (consumes state now observed_at m) t = (consume scope_key state now observed_at m t).1
  apply (finalizes c m) t = (finalize_provisioning scope_key c m t).1
  apply (claims state redeliver attempts) t = (claim_state_delivery state redeliver attempts t).1
  apply (confirms state token now) t = (confirm_state_delivery state token now t).1
  apply (abandons state token) t = (abandon_state_delivery state token t).1
  apply (supersedes o provider issued_at now) t = supersede_issued o provider issued_at now t
  apply (deletes_user i) t = delete_for_user i t
  apply (deletes_provider team_id user_id provider) t =
      delete_for_user_provider team_id user_id provider t
  apply (sweeps now n) t = (sweep_batch now n t).1

  unfoldable pub run : List Step → Table → Table
  run [] t = t
  run (s ∷ steps) t = run steps (apply s t)

  module _ (state : String) where
    insert_new-IsSpent :
        (b : Begin) (t : Table)
        → b.state ≢ state
        → All (IsSpent state) t
        → All (IsSpent state) (insert_new b t).1
    unfolding insert_new
    insert_new-IsSpent b t other h = (λ e. absurd (other e), h)

    begin_on-IsSpent :
        (b : Begin) (off rev : Option ℕ) (t : Table) (o : Option Row)
        → b.state ≢ state
        → All (IsSpent state) t
        → All (IsSpent state) (begin_on b off rev t o).1
    unfolding begin_on
    begin_on-IsSpent b off rev t none other h =
        if-cases (λ (x : Begun × Table). All (IsSpent state) x.1)
          (ltb (b.issued_at + state_ttl_us) b.observed_at) _ _ (λ old. h)
          (λ young. insert_new-IsSpent b t other h)
    begin_on-IsSpent b off rev t (some r) other h =
        if-cases (λ (x : Begun × Table). All (IsSpent state) x.1) (is_reusable b off rev r) _ _
          (λ reuse. h)
          (λ fresh.
            if-cases (λ (x : Begun × Table). All (IsSpent state) x.1)
              (ltb b.issued_at r.created_at || ltb (b.issued_at + state_ttl_us) b.observed_at) _ _
              (λ late. h)
              (λ in_time.
                insert_new-IsSpent b _ other
                  (All-update (IsSpent state) _ (supersede b.now) (λ x q hit. q) t h)))

    begin_with-IsSpent :
        (b : Begin) (t : Table) (o : Option (Option ℕ × Option ℕ))
        → b.state ≢ state
        → All (IsSpent state) t
        → All (IsSpent state) (begin_with scope_key b t o).1
    unfolding begin_with
    begin_with-IsSpent b t none other h = h
    begin_with-IsSpent b t (some (off, rev)) other h =
        if-cases (λ (x : Begun × Table). All (IsSpent state) x.1)
          (tombstone_blocks off b.issued_at || tombstone_blocks rev b.issued_at) _ _ (λ blocked. h)
          (λ clear.
            begin_on-IsSpent b off rev t (select (is_current b.identity b.provider) t) other h)

    consume_on-IsSpent :
        (s : String) (now observed_at : ℕ) (m : Marks) (t : Table) (o : Option Row)
        → All (IsSpent state) t
        → All (IsSpent state) (consume_on scope_key s now observed_at m t o).1
    unfolding consume_on
    consume_on-IsSpent s now observed_at m t none h = h
    consume_on-IsSpent s now observed_at m t (some r) h =
        All-update (IsSpent state) (is_unconsumed s) (λ x. record x { consumed_at = some now })
          (λ x q hit e. refl) t h

    finalize_on-IsSpent :
        (c : ConsentRow) (m : Marks) (t : Table) (o : Option Row)
        → All (IsSpent state) t
        → All (IsSpent state) (finalize_on scope_key c m t o).1
    unfolding finalize_on
    finalize_on-IsSpent c m t none h = h
    finalize_on-IsSpent c m t (some r) h = All-delete (IsSpent state) (is_finalizable c) t h

    batch-IsSpent :
        (now n : ℕ) (t : Table)
        → All (IsSpent state) t
        → All (IsSpent state) (sweep_batch now n t).1
    unfolding sweep_batch
    batch-IsSpent now zero t h = h
    batch-IsSpent now (suc n) [] h = tt
    batch-IsSpent now (suc n) (r ∷ t) h =
        if-cases (λ (x : ℕ × Table). All (IsSpent state) x.1) (is_stale now r) _ _
          (λ old. batch-IsSpent now n t h.1) (λ young. (h.0, batch-IsSpent now (suc n) t h.1))

    apply-IsSpent :
        (s : Step) (t : Table)
        → NotReissued state (s ∷ [])
        → All (IsSpent state) t
        → All (IsSpent state) (apply s t)
    unfolding apply begin_fenced mark_slack_verified consume finalize_provisioning
        confirm_state_delivery abandon_state_delivery supersede_issued delete_for_user
        delete_for_user_provider
    apply-IsSpent (begins b m) t (other, u) h =
        begin_with-IsSpent b t (user_fences scope_key b.identity b.provider m) other h
    apply-IsSpent (verifies s now) t u h =
        if-cases (λ (x : Bool × Table). All (IsSpent state) x.1) (is_consent_state s) _ _
          (λ ok. All-update (IsSpent state) _ _ (λ r q hit. q) t h) (λ bad. h)
    apply-IsSpent (consumes s now observed_at m) t u h =
        if-cases (λ (x : Claim × Table). All (IsSpent state) x.1) (is_consent_state s) _ _
          (λ ok. consume_on-IsSpent s now observed_at m t (select (is_unconsumed s) t) h) (λ bad. h)
    apply-IsSpent (finalizes c m) t u h = finalize_on-IsSpent c m t (select (is_finalizable c) t) h
    apply-IsSpent (claims s redeliver attempts) t u h =
        All-claim_state_delivery (IsSpent state) (λ token now r q. q) s redeliver attempts t h
    apply-IsSpent (confirms s token now) t u h =
        if-cases (λ (x : Bool × Table). All (IsSpent state) x.1)
          (is_consent_state s && is_interaction_id token) _ _
          (λ ok. All-update (IsSpent state) _ _ (λ r q hit. q) t h) (λ bad. h)
    apply-IsSpent (abandons s token) t u h =
        if-cases (λ (x : Bool × Table). All (IsSpent state) x.1)
          (is_consent_state s && is_interaction_id token) _ _
          (λ ok. All-update (IsSpent state) _ _ (λ r q hit. q) t h) (λ bad. h)
    apply-IsSpent (supersedes o provider issued_at now) t u h =
        All-update (IsSpent state) _ (supersede now) (λ r q hit. q) t h
    apply-IsSpent (deletes_user i) t u h = All-delete (IsSpent state) _ t h
    apply-IsSpent (deletes_provider team_id user_id provider) t u h =
        All-delete (IsSpent state) _ t h
    apply-IsSpent (sweeps now n) t u h = batch-IsSpent now n t h

    run-IsSpent :
        (steps : List Step) (t : Table)
        → NotReissued state steps
        → All (IsSpent state) t
        → All (IsSpent state) (run steps t)
    unfolding run
    run-IsSpent [] t u h = h
    run-IsSpent (s ∷ steps) t u h =
        run-IsSpent steps (apply s t) (later s steps u) (apply-IsSpent s t (now_first s steps u) h)
      where
        later : (s : Step) (l : List Step) → NotReissued state (s ∷ l) → NotReissued state l
        later (begins b m) l u = u.1
        later (verifies x n) l u = u
        later (consumes x n o m) l u = u
        later (finalizes c m) l u = u
        later (claims x r a) l u = u
        later (confirms x k n) l u = u
        later (abandons x k) l u = u
        later (supersedes o p i n) l u = u
        later (deletes_user i) l u = u
        later (deletes_provider a b c) l u = u
        later (sweeps n k) l u = u

        now_first :
            (s : Step) (l : List Step) → NotReissued state (s ∷ l) → NotReissued state (s ∷ [])
        now_first (begins b m) l u = (u.0, tt)
        now_first (verifies x n) l u = tt
        now_first (consumes x n o m) l u = tt
        now_first (finalizes c m) l u = tt
        now_first (claims x r a) l u = tt
        now_first (confirms x k n) l u = tt
        now_first (abandons x k) l u = tt
        now_first (supersedes o p i n) l u = tt
        now_first (deletes_user i) l u = tt
        now_first (deletes_provider a b c) l u = tt
        now_first (sweeps n k) l u = tt

    unconsumed-IsSpent : (r : Row) → IsSpent state r → is_unconsumed state r ≡ false
    unconsumed-IsSpent r h = elim (Bool-cases (is_unconsumed state r)) [
      | inr miss ↦ miss
      | inl hit ↦ absurd (ground (arith, eq_iff r.state state, h))
    ]

    all_unconsumed :
        (t : Table) → All (IsSpent state) t → All (λ r. is_unconsumed state r ≡ false) t
    all_unconsumed [] h = tt
    all_unconsumed (r ∷ t) h = (unconsumed-IsSpent r h.0, all_unconsumed t h.1)

    -- A row that the statement spends is spent, and so is a row that it finds spent.
    update-IsSpent :
        (now : ℕ) (t : Table)
        → All
            (IsSpent state)
            (update (is_unconsumed state) (λ x. record x { consumed_at = some now }) t)
    unfolding update
    update-IsSpent now [] = tt
    update-IsSpent now (r ∷ t) = (row (is_unconsumed state r) refl, update-IsSpent now t)
      where
        row :
            (b : Bool)
            → is_unconsumed state r ≡ b
            → IsSpent state (if b then record r { consumed_at = some now } else r)
        row true e = λ p. refl
        row false e = λ p. ground (arith, eq_iff r.state state)

    select-IsSpent : (t : Table) → select (is_unconsumed state) t ≡ none → All (IsSpent state) t
    unfolding select
    select-IsSpent [] e = tt
    select-IsSpent (r ∷ t) e = elim (Bool-cases (is_unconsumed state r)) [
      | inl hit ↦ absurd (ground arith)
      | inr miss ↦ (λ p. ground (arith, eq_iff r.state state), select-IsSpent t (ground arith))
    ]

    consume_on-spends :
        (now observed_at : ℕ) (m : Marks) (t : Table) (o : Option Row)
        → select (is_unconsumed state) t ≡ o
        → All (IsSpent state) (consume_on scope_key state now observed_at m t o).1
    unfolding consume_on
    consume_on-spends now observed_at m t none e = select-IsSpent t e
    consume_on-spends now observed_at m t (some r) e = update-IsSpent now t

    spent-unavailable :
        (now observed_at : ℕ) (m : Marks) (t : Table)
        → All (IsSpent state) t
        → (consume scope_key state now observed_at m t).0 ≡ unavailable
    unfolding consume consume_on
    spent-unavailable now observed_at m t h =
        if-cases (λ (x : Claim × Table). x.0 ≡ unavailable) (is_consent_state state) _ _
          (λ ok. rw (select-eq-none (is_unconsumed state) t (all_unconsumed t h)) refl)
          (λ bad. refl)

    well_formed :
        (now observed_at : ℕ) (m : Marks) (t : Table)
        → is_consent_state state ≡ true
        → All (IsSpent state) (consume scope_key state now observed_at m t).1
    unfolding consume
    well_formed now observed_at m t ok =
        rw ok (consume_on-spends now observed_at m t (select (is_unconsumed state) t) refl)

    malformed :
        (now observed_at : ℕ) (m : Marks) (t : Table)
        → is_consent_state state ≡ false
        → (consume scope_key state now observed_at m t).0 ≡ unavailable
    unfolding consume
    malformed now observed_at m t bad = rw bad refl

    -- A state of OAuth is spent at most once: after one call that consumes it, whatever it answered,
    -- every further call for it answers that it is unavailable, whatever else is done to the requests
    -- in between, as long as no new request gets the same state.
    pub consume_state_once :
        (now observed_at : ℕ) (m : Marks) (t : Table) (steps : List Step)
        → NotReissued state steps
        → (later later_observed : ℕ) (m' : Marks)
        → (consume scope_key state later later_observed m'
            (run steps (consume scope_key state now observed_at m t).1)).0
          ≡ unavailable
    consume_state_once now observed_at m t steps u later later_observed m' =
        elim (Bool-cases (is_consent_state state)) [
          | inl ok ↦
              spent-unavailable later later_observed m' _
                (run-IsSpent steps _ u (well_formed now observed_at m t ok))
          | inr bad ↦ malformed later later_observed m' _ bad
        ]
