-- ===== src/Vault/Write/Fenced.antt =====
-- What a mark keeps from being written.
use vouchr.Base.{
  ℕ, ◌≤◌, String, ◌≡◌, refl, sym, ◌∙◌, ◌≢◌, inl, inr, ◌⊎◌, Bool, true, false, ◌||◌, List, Option,
  none, some, arith, if◌then◌else◌, if-cases, ◌>>=◌,
}
use vouchr.Base.Lists.{Any}
use vouchr.Owner.{SlackIdentity, Owner, OwnerKind, user, channel}
use vouchr.Fence.{
  Mark, Marks, ProvisioningScopeKind, set_mark, latest_of, user_marks, owner_marks,
  tombstone_blocks, latest_user_offboard_tombstone, latest_provisioning_revocation_tombstone,
}
use vouchr.Fence.Kept.{Step, run, run-IsRaised, IsRaised, IsRaised-blocks, set_mark-IsRaised}
use vouchr.ProviderId.{is_valid_provider_id}
use vouchr.Consent
use vouchr.Vault.{Tables, TtlPolicy}
use vouchr.Vault.Write.{
  Provisioned, stored, conflict, Issuance, Write, fenced_write, issued_write, kind_write,
  user_provisioning,
}

-- The outcome wrote nothing.
abbrev pub IsUnwritten : Tables → Provisioned × Tables → Type 0
IsUnwritten s r = (r.0 ≢ stored) × (r.0 ≢ conflict) × (r.1.connections ≡ s.connections)

abbrev identity_of : Owner → SlackIdentity
identity_of o = record { enterprise_id = o.enterprise_id; team_id = o.team_id; user_id = o.id }

module _ (scope_key : ProvisioningScopeKind → List String → String) (ttl : TtlPolicy) where
  -- The mark is one of those that apply to the owner and the provider.
  abbrev pub Applies : Mark → Owner → String → Type 0
  Applies k o provider =
      ((ks : List Mark) × (user_marks (identity_of o) ≡ some ks) × Any (λ m. m ≡ k) ks)
      ⊎ Any (λ m. m ≡ k) (owner_marks scope_key o provider)

  module _ (now now_us : ℕ) (o : Owner) (provider : String) (synthetic : Bool) (write : Write) where
    fenced_write-blocked :
        (before : Tables) (issued_at : ℕ) (s : Tables) (a b : Option (Option ℕ))
        → s.connections ≡ before.connections
        → ((off rev : Option ℕ)
            → a ≡ some off
            → b ≡ some rev
            → (tombstone_blocks off issued_at || tombstone_blocks rev issued_at) ≡ true)
        → IsUnwritten before (
            fenced_write scope_key ttl now now_us o provider synthetic write before issued_at s a b)
    unfolding fenced_write
    fenced_write-blocked before issued_at s none b p h =
        (λ e. absurd (ground arith), λ e. absurd (ground arith), refl)
    fenced_write-blocked before issued_at s (some off) none p h =
        (λ e. absurd (ground arith), λ e. absurd (ground arith), refl)
    fenced_write-blocked before issued_at s (some off) (some rev) p h =
        if-cases (IsUnwritten before) (tombstone_blocks off issued_at) _ _
          (λ gone. (λ e. absurd (ground arith), λ e. absurd (ground arith), p))
          (λ here.
            if-cases (IsUnwritten before) (tombstone_blocks rev issued_at) _ _
              (λ gone. (λ e. absurd (ground arith), λ e. absurd (ground arith), p))
              (λ open_. absurd (ground (arith, h off rev refl refl, here, open_))))

    issued_write-blocked :
        (before : Tables) (r : Option (Option ℕ) × Consent.Table)
        → ((issued_at : ℕ) (off rev : Option ℕ)
            → r.0 ≡ some (some issued_at)
            → latest_user_offboard_tombstone (identity_of o) before.marks ≡ some off
            → latest_provisioning_revocation_tombstone scope_key o provider before.marks ≡ some rev
            → (tombstone_blocks off issued_at || tombstone_blocks rev issued_at) ≡ true)
        → IsUnwritten before
            (issued_write scope_key ttl now now_us o provider synthetic write before r)
    unfolding issued_write
    issued_write-blocked before (none, t) h =
        (λ e. absurd (ground arith), λ e. absurd (ground arith), refl)
    issued_write-blocked before (some none, t) h =
        (λ e. absurd (ground arith), λ e. absurd (ground arith), refl)
    issued_write-blocked before (some (some issued_at), t) h =
        fenced_write-blocked before issued_at (record before { consents = t }) _ _ refl
          (λ off rev p q. h issued_at off rev refl p q)

  -- A mark blocks, at its time and after any steps of the fences.
  kept_mark :
      (k : Mark) (at : ℕ) (m0 : Marks) (steps : List Step)
      → IsRaised k at (run scope_key steps (set_mark k at m0))
  kept_mark k at m0 steps =
      run-IsRaised scope_key k at steps (set_mark k at m0) (set_mark-IsRaised k at m0)

  applied-blocks :
      (k : Mark) (o : Owner) (provider : String) (at issued_at : ℕ) (t : Marks)
      → Applies k o provider
      → IsRaised k at t
      → issued_at ≤ at
      → (off rev : Option ℕ) → latest_user_offboard_tombstone (identity_of o) t ≡ some off
      → latest_provisioning_revocation_tombstone scope_key o provider t ≡ some rev
      → (tombstone_blocks off issued_at || tombstone_blocks rev issued_at) ≡ true
  unfolding latest_user_offboard_tombstone latest_provisioning_revocation_tombstone
  applied-blocks k o provider at issued_at t (inl (ks, e, m)) h le off rev p q =
      ground
        (arith, same (user_marks (identity_of o)) e p, IsRaised-blocks k at ks t issued_at m h le)
    where
      same :
          (u : Option (List Mark))
          → u ≡ some ks
          → (u >>= λ marks. some (latest_of marks t)) ≡ some off
          → latest_of ks t ≡ off
      same none e p = absurd (ground arith)
      same (some marks) e p = ground arith
  applied-blocks k o provider at issued_at t (inr m) h le off rev p q = ground (
    arith,
    same (is_valid_provider_id provider) q,
    IsRaised-blocks k at (owner_marks scope_key o provider) t issued_at m h le,
  )
    where
      same :
          (b : Bool)
          → (if b then some (latest_of (owner_marks scope_key o provider) t) else none) ≡ some rev
          → latest_of (owner_marks scope_key o provider) t ≡ rev
      same true e = ground arith
      same false e = absurd (ground arith)

  -- Once a mark applies to an owner and a provider, through any later writes of marks, no write of a
  -- user's credential whose authority was issued at the mark's time or before is stored, and the
  -- credentials stay as they were.
  pub user_provisioning-IsUnwritten :
      (k : Mark) (at : ℕ) (m0 : Marks) (steps : List Step) (o : Owner) (provider : String)
      (issued_at now now_us : ℕ) (synthetic : Bool) (write : Write) (issuance : Issuance)
      (s : Tables)
      → Applies k o provider
      → s.marks ≡ run scope_key steps (set_mark k at m0)
      → (issuance s.marks s.consents).0 ≡ some (some issued_at)
      → issued_at ≤ at
      → IsUnwritten s
          (user_provisioning scope_key ttl now now_us o provider synthetic write issuance s)
  unfolding user_provisioning kind_write
  user_provisioning-IsUnwritten k at m0 steps o provider issued_at now now_us synthetic write
        issuance s a em ei le =
      by_kind o.kind
    where
      older : (issued : ℕ) → some (some issued_at) ≡ some (some issued) → issued ≤ at
      older issued e = ground arith

      by_kind :
          (kind : OwnerKind)
          → IsUnwritten s
              (kind_write scope_key ttl now now_us o provider synthetic write kind issuance s)
      by_kind channel = (λ e. absurd (ground arith), λ e. absurd (ground arith), refl)
      by_kind user =
          issued_write-blocked now now_us o provider synthetic write s (issuance s.marks s.consents)
            (λ issued off rev e p q.
              applied-blocks k o provider at issued s.marks a (rw em (kept_mark k at m0 steps))
                (older issued (sym ei ∙ e)) off rev p q)
