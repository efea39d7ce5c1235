-- ===== src/Vault/Provision.antt =====
-- The operations that store, refresh and touch a credential, on the fenced writes: upsertUser,
-- upsertDryRunUser, referenceUser, upsert, upsertDryRun, reference, updateTokens and touch.
use vouchr.Base.{
  ℕ, String, Bool, true, false, ◌&&◌, List, Option, none, some, not, if◌then◌else◌, ◌>>=◌,
}
use vouchr.Base.Eq.{◌==◌, string_eq, nat_eq}
use vouchr.Base.Table.{update, changes}
use vouchr.Owner.{Owner, OwnerKind, user, channel}
use vouchr.Fence.{ProvisioningScopeKind}
use vouchr.Vault.{
  Row, Connections, Tables, TtlPolicy, Sealing, is_owned, is_generation, well_formed,
}
use vouchr.Vault.Write.{
  StoredToken, SecretReference, PreparedToken, Stamp, Provisioned, failed, Issuance, sealed_token,
  write_vault_credential, write_dry_run_credential, write_reference_credential, user_provisioning,
  channel_provisioning,
}

-- Random bytes, ids and times of one call: those of the seals, and of the transaction.
pub record Call : Type 0 where
  pub random : List ℕ
  pub random' : List ℕ
  pub now : ℕ
  pub stamp : Stamp
  -- the database's time by which the call was issued
  pub issued_at : ℕ

abbrev pub issued : ℕ → Issuance
issued at m t = (some (some at), t)

abbrev pub wrote : Option Tables → Option (Bool × Tables)
wrote none = none
wrote (some s) = some (true, s)

module _ (scope_key : ProvisioningScopeKind → List String → String) (ttl : TtlPolicy)
    (lockdown : Bool) (box : Sealing) where
  unfoldable pub with_prepared :
      Call → StoredToken → (PreparedToken → Provisioned × Tables) → Tables → Provisioned × Tables
  with_prepared c t write s = elim (sealed_token lockdown box c.random c.random' c.now t) [
    | none ↦ (failed, s)
    | some prepared ↦ write prepared
  ]

  unfoldable pub upsert_user :
      Call → Owner → String → StoredToken → Issuance → Tables → Provisioned × Tables
  unfolding with_prepared
  upsert_user c o provider t issuance s =
      with_prepared c t
        (λ prepared.
          user_provisioning scope_key ttl c.now c.stamp.now_us o provider false
            (λ w. wrote (write_vault_credential lockdown o provider t prepared c.stamp w)) issuance
            s)
        s

  unfoldable pub upsert_dry_run_user :
      Call → Owner → String → StoredToken → Issuance → Tables → Provisioned × Tables
  unfolding with_prepared
  upsert_dry_run_user c o provider t issuance s =
      with_prepared c t
        (λ prepared.
          user_provisioning scope_key ttl c.now c.stamp.now_us o provider true
            (write_dry_run_credential lockdown o provider t prepared c.stamp) issuance s)
        s

  unfoldable pub reference_user :
      Call → Owner → String → SecretReference → Issuance → Tables → Provisioned × Tables
  reference_user c o provider r issuance s =
      if lockdown
      then (failed, s)
      else user_provisioning scope_key ttl c.now c.stamp.now_us o provider false
          (λ w. wrote (write_reference_credential lockdown o provider r c.now c.stamp w)) issuance s

  unfoldable pub upsert_for :
      OwnerKind → Call → Owner → String → StoredToken → Tables → Provisioned × Tables
  unfolding upsert_user with_prepared
  upsert_for user c o provider t s = upsert_user c o provider t (issued c.issued_at) s
  upsert_for channel c o provider t s =
      with_prepared c t
        (λ prepared.
          channel_provisioning scope_key ttl o provider c.issued_at
            (λ w. wrote (write_vault_credential lockdown o provider t prepared c.stamp w)) s)
        s

  -- upsert, true where the outcome is stored; the gate is the issuance that a caller gives
  unfoldable pub upsert :
      Call → Owner → String → StoredToken → Option ℕ → Tables → Provisioned × Tables
  unfolding upsert_for upsert_user
  upsert c o provider t gate s = if lockdown then (failed, s) else elim gate [
    | some minted_at ↦ upsert_user c o provider t (issued minted_at) s
    | none ↦ upsert_for o.kind c o provider t s
  ]

  dry_run_for : OwnerKind → Call → Owner → String → StoredToken → Tables → Provisioned × Tables
  unfolding upsert_dry_run_user with_prepared
  dry_run_for user c o provider t s = upsert_dry_run_user c o provider t (issued c.issued_at) s
  dry_run_for channel c o provider t s =
      with_prepared c t
        (λ prepared.
          channel_provisioning scope_key ttl o provider c.issued_at
            (write_dry_run_credential lockdown o provider t prepared c.stamp) s)
        s

  unfoldable pub upsert_dry_run :
      Call → Owner → String → StoredToken → Tables → Provisioned × Tables
  unfolding dry_run_for
  upsert_dry_run c o provider t s =
      if lockdown then (failed, s) else dry_run_for o.kind c o provider t s

  reference_for :
      OwnerKind → Call → Owner → String → SecretReference → Tables → Provisioned × Tables
  unfolding reference_user
  reference_for user c o provider r s = reference_user c o provider r (issued c.issued_at) s
  reference_for channel c o provider r s =
      channel_provisioning scope_key ttl o provider c.issued_at
        (λ w. wrote (write_reference_credential lockdown o provider r c.now c.stamp w)) s

  -- reference: any outcome but stored is thrown to the caller
  unfoldable pub reference : Call → Owner → String → SecretReference → Tables → Provisioned × Tables
  unfolding reference_for
  reference c o provider r s =
      if lockdown then (failed, s) else reference_for o.kind c o provider r s

-- The WHERE of updateTokens.
abbrev pub is_refreshable : Owner → String → Option String → Row → Bool
is_refreshable o provider expected r =
    is_owned o provider r && r.source == "vault" && is_generation expected r

abbrev pub refresh_row : StoredToken → PreparedToken → ℕ → Row → Row
refresh_row t p now r = record r {
  access_token_enc = some p.access_enc;
  refresh_token_enc = p.refresh_enc;
  scopes = t.scopes;
  expires_at = t.expires_at;
  updated_at = now;
}

-- updateTokens: none where it throws; its time is read after the sealing
unfoldable pub update_tokens :
    Bool
    → Sealing
    → List ℕ
    → List ℕ
    → Owner
    → String
    → StoredToken
    → Option String
    → ℕ
    → Connections
    → Option (Bool × Connections)
update_tokens lockdown box random random' o provider t expected now conns =
    if not (well_formed expected)
    then some (false, conns)
    else (sealed_token lockdown box random random' now t >>= λ p. some (
      changes (is_refreshable o provider expected) conns == 1,
      update (is_refreshable o provider expected) (refresh_row t p now) conns,
    ))

unfoldable pub touch : Owner → String → Option String → ℕ → Connections → Connections
touch o provider expected now t =
    if well_formed expected
    then update (λ r. is_owned o provider r && is_generation expected r)
        (λ r. record r { last_used_at = some now }) t
    else t
