-- ===== src/Consent/Active.antt =====
-- When spending a state answers that it is active.
use vouchr.Base.{
  ℕ, ◌+◌, ◌≤◌, String, ◌≡◌, refl, ap, ◌∙◌, ◌↔◌, inl, inr, true, false, ◌||◌, List, Option, none,
  some, arith, Bool-cases, Option-cases, if-cases,
}
use vouchr.Base.Table.{select}
use vouchr.Fence.{Marks, ProvisioningScopeKind, tombstone_blocks}
use vouchr.Consent.{
  Row, Table, ConsentRow, consent_row, is_consent_state, user_fences, state_ttl_us,
}
use vouchr.Consent.Callback.{
  Claim, active, is_unconsumed, consume, consume_on, classify, classify_live, superseded_after,
  time_if,
}

-- The row is in its lifetime, nobody superseded it, and no mark is at its time or after.
pub record IsActive (r : Row) (observed_at : ℕ) (fences : Option (Option ℕ × Option ℕ))
    : Type 0 where
  pub offboarded_at : Option ℕ
  pub revoked_at : Option ℕ
  pub fenced : fences ≡ some (offboarded_at, revoked_at)
  pub not_offboarded : tombstone_blocks offboarded_at r.created_at ≡ false
  pub not_revoked : tombstone_blocks revoked_at r.created_at ≡ false
  pub unsuperseded : r.superseded_at ≡ none
  pub in_time : observed_at ≤ r.created_at + state_ttl_us

classify_live-active :
    (r : Row) (observed_at : ℕ) (c : ConsentRow)
    → (classify_live r observed_at ≡ active c) ↔ (
        (r.superseded_at ≡ none)
        × (observed_at ≤ r.created_at + state_ttl_us)
        × (c ≡ consent_row r))
unfolding classify_live
classify_live-active r observed_at c = ground arith

superseded-none :
    (r : Row) (off rev : Option ℕ)
    → r.superseded_at ≡ none
    → superseded_after r.superseded_at off rev ≡ false
superseded-none r off rev e = rw e refl

classify-active :
    (r : Row) (observed_at : ℕ) (c : ConsentRow) (o : Option (Option ℕ × Option ℕ))
    → (classify r observed_at o ≡ active c) ↔ (IsActive r observed_at o × (c ≡ consent_row r))
unfolding classify
classify-active r observed_at c none =
    ((λ e. absurd (ground arith)), (λ h. absurd (ground (arith, h.0.fenced))))
classify-active r observed_at c (some (off, rev)) = (
  λ e. elim (Bool-cases (tombstone_blocks off r.created_at || tombstone_blocks rev r.created_at)) [
    | inl blocked ↦ absurd (masked blocked e)
    | inr clear ↦
        let live = (classify_live-active r observed_at c).0 (ground (arith, clear)) in
        (
          record {
            offboarded_at = off;
            revoked_at = rev;
            fenced = refl;
            not_offboarded = ground (arith, clear);
            not_revoked = ground (arith, clear);
            unsuperseded = live.0;
            in_time = live.1;
          },
          live.2,
        )
  ],
  λ h.
      let f = h.0.fenced in
      let clear : (tombstone_blocks off r.created_at || tombstone_blocks rev r.created_at) ≡ false =
        ground (arith, f, h.0.not_offboarded, h.0.not_revoked) in
      rw clear ((classify_live-active r observed_at c).1 (h.0.unsuperseded, h.0.in_time, h.1)),
)
  where
    masked :
        (tombstone_blocks off r.created_at || tombstone_blocks rev r.created_at) ≡ true
        → classify r observed_at (some (off, rev)) ≡ active c
        → ⊥
    masked blocked e = elim (Option-cases r.superseded_at) [
      | inl fresh ↦ ground (
        arith,
        blocked,
        e,
        fresh,
        superseded-none r (time_if (tombstone_blocks off r.created_at) off)
            (time_if (tombstone_blocks rev r.created_at) rev) fresh,
      )
      | inr (at, old) ↦ ground (arith, blocked, e, old, classify_live-active r observed_at c)
    ]

module _ (scope_key : ProvisioningScopeKind → List String → String) where
  consume_on-active :
      (state : String) (now observed_at : ℕ) (m : Marks) (t : Table) (c : ConsentRow)
      (o : Option Row)
      → ((consume_on scope_key state now observed_at m t o).0 ≡ active c) ↔ (
          (r : Row) × (o ≡ some r)
          × IsActive r observed_at (user_fences scope_key (consent_row r).identity r.provider m)
          × (c ≡ consent_row r))
  unfolding consume_on
  consume_on-active state now observed_at m t c none =
      ((λ e. absurd (ground arith)), (λ h. absurd (ground (arith, h.1))))
  consume_on-active state now observed_at m t c (some r) = (
    λ e.
        let a =
          (classify-active r observed_at c
              (user_fences scope_key (consent_row r).identity r.provider m)).0
            e in
        (r, refl, a.0, a.1),
    λ h. back h.0 (ground (arith, h.1)) h.2 h.3,
  )
    where
      back :
          (x : Row)
          → r ≡ x
          → IsActive x observed_at (user_fences scope_key (consent_row x).identity x.provider m)
          → c ≡ consent_row x
          → (consume_on scope_key state now observed_at m t (some r)).0 ≡ active c
      back x p a q =
          ap (λ y. (consume_on scope_key state now observed_at m t (some y)).0) p
          ∙ (classify-active x observed_at c
                (user_fences scope_key (consent_row x).identity x.provider m)).1
              (a, q)

  -- The call that spends a state answers that it is active exactly if the state has the right form and
  -- names a request that nobody has spent or superseded, that is in its lifetime, and that was issued
  -- after every mark of the user's offboarding and of the provider's revocation that applies to it;
  -- what it answers with is that request. What the callback asks of the request after that, such as
  -- its proof of the Slack identity, is not part of it.
  pub consume_active_iff :
      (state : String) (now observed_at : ℕ) (m : Marks) (t : Table) (c : ConsentRow)
      → ((consume scope_key state now observed_at m t).0 ≡ active c) ↔ (
          (is_consent_state state ≡ true)
          × ((r : Row) × (select (is_unconsumed state) t ≡ some r)
              × IsActive r observed_at (user_fences scope_key (consent_row r).identity r.provider m)
              × (c ≡ consent_row r)))
  unfolding consume
  consume_active_iff state now observed_at m t c =
      if-cases
        (λ (x : Claim × Table). (x.0 ≡ active c) ↔ (
          (is_consent_state state ≡ true)
          × ((r : Row) × (select (is_unconsumed state) t ≡ some r)
              × IsActive r observed_at (user_fences scope_key (consent_row r).identity r.provider m)
              × (c ≡ consent_row r))))
        (is_consent_state state) _ _
        (λ ok.
          let inner =
            consume_on-active state now observed_at m t c (select (is_unconsumed state) t) in
          ((λ e. (ok, inner.0 e)), (λ h. inner.1 h.1)))
        (λ bad. ((λ e. absurd (ground arith)), (λ h. absurd (ground (arith, h.0)))))
