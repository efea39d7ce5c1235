-- ===== src/Vault/Write.antt =====
-- How a credential is written: the fences around a user's or a channel's write, the writes of a token, of
-- a dry run's token and of a reference, the refresh of a token and the time of its last use.
pub mod Fenced
pub mod Served
use vouchr.Base.{
  ℕ, String, Bool, true, false, ◌&&◌, ◌||◌, List, [], ◌∷◌, Option, none, some, get_or, is_some, leb,
  nat_beq, not, if◌then◌else◌, ◌>>=◌,
}
use vouchr.Base.Eq.{◌==◌, string_eq, nat_eq}
use vouchr.Base.Table.{select, update, changes}
use vouchr.Owner.{SlackIdentity, Owner, OwnerKind, user, channel}
use vouchr.Fence.{
  Marks, ProvisioningScopeKind, tombstone_blocks, latest_user_offboard_tombstone,
  latest_provisioning_revocation_tombstone,
}
use vouchr.Interaction.{is_interaction_id}
use vouchr.Consent
use vouchr.Consent.{supersede_issued}
use vouchr.Vault.{
  Row, Connections, Tables, TtlPolicy, Sealing, is_owned, is_generation, well_formed,
  is_expired_row, clear_satellites,
}

pub record StoredToken : Type 0 where
  pub access_token : String
  pub refresh_token : Option String
  pub scopes : String
  pub expires_at : Option ℕ
  pub external_account : Option String

pub record SecretReference : Type 0 where
  pub source : String
  pub secret_ref : String
  pub scopes : Option String
  pub external_account : Option String

-- What is sealed before the locks are taken, with the process's time.
pub record PreparedToken : Type 0 where
  pub access_enc : List ℕ
  pub refresh_enc : Option (List ℕ)
  pub now : ℕ

-- t.refreshToken ? … : null
abbrev pub seal_refresh : Sealing → List ℕ → Option String → Option (Option (List ℕ))
seal_refresh box random none = some none
seal_refresh box random (some token) =
    if token == "" then some none else (box.seal random token >>= λ sealed. some (some sealed))

-- sealedToken: none where it throws
unfoldable pub sealed_token :
    Bool → Sealing → List ℕ → List ℕ → ℕ → StoredToken → Option PreparedToken
sealed_token lockdown box random random' now t =
    if lockdown
    then none
    else (box.seal random t.access_token >>= λ access.
        seal_refresh box random' t.refresh_token >>= λ refresh.
        some (record { access_enc = access; refresh_enc = refresh; now = now }))

-- A written row, with its new id and the database's time.
unfoldable pub vault_row : Owner → String → StoredToken → PreparedToken → ℕ → String → ℕ → Row
vault_row o provider t prepared dry_run id now_us = record {
  id = id;
  enterprise_id = o.enterprise_id;
  team_id = o.team_id;
  owner_kind = o.kind;
  owner_id = o.id;
  provider = provider;
  source = "vault";
  access_token_enc = some prepared.access_enc;
  refresh_token_enc = prepared.refresh_enc;
  secret_ref = none;
  scopes = t.scopes;
  expires_at = t.expires_at;
  external_account = t.external_account;
  dry_run = dry_run;
  generation_at = now_us;
  created_at = prepared.now;
  updated_at = prepared.now;
  last_used_at = some prepared.now;
}

pub reference_row : Owner → String → SecretReference → ℕ → String → ℕ → Row
reference_row o provider r now id now_us = record {
  id = id;
  enterprise_id = o.enterprise_id;
  team_id = o.team_id;
  owner_kind = o.kind;
  owner_id = o.id;
  provider = provider;
  source = r.source;
  access_token_enc = none;
  refresh_token_enc = none;
  secret_ref = some r.secret_ref;
  scopes = get_or r.scopes "";
  expires_at = none;
  external_account = r.external_account;
  dry_run = 0;
  generation_at = now_us;
  created_at = now;
  updated_at = now;
  last_used_at = some now;
}

-- INSERT … ON CONFLICT(team_id, owner_kind, owner_id, provider) DO UPDATE, which sets every column
unfoldable pub put_row : Owner → String → Row → Connections → Option Row → Connections
put_row o provider row t none = row ∷ t
put_row o provider row t (some old) = update (is_owned o provider) (λ r. row) t

unfoldable pub put_connection : Owner → String → Row → Tables → Tables
unfolding put_row
put_connection o provider row s = record s {
  connections = put_row o provider row s.connections (select (is_owned o provider) s.connections);
}

-- The ids and times of a write: the new id, and the database's time.
pub record Stamp : Type 0 where
  pub id : String
  pub now_us : ℕ

-- writeVaultCredential, writeReferenceCredential: none where lockdown refuses them
unfoldable pub write_vault_credential :
    Bool → Owner → String → StoredToken → PreparedToken → Stamp → Tables → Option Tables
unfolding vault_row
write_vault_credential lockdown o provider t prepared at s =
    if lockdown
    then none
    else some (
        clear_satellites o provider at.now_us
          (put_connection o provider (vault_row o provider t prepared 0 at.id at.now_us) s))

unfoldable pub write_reference_credential :
    Bool → Owner → String → SecretReference → ℕ → Stamp → Tables → Option Tables
unfolding reference_row
write_reference_credential lockdown o provider r now at s =
    if lockdown
    then none
    else some (
        clear_satellites o provider at.now_us
          (put_connection o provider (reference_row o provider r now at.id at.now_us) s))

-- … WHERE connection.dry_run=1: a real row is not replaced
may_dry_run : Option Row → Bool
may_dry_run none = true
may_dry_run (some r) = nat_beq r.dry_run 1

unfoldable pub write_dry_run_credential :
    Bool → Owner → String → StoredToken → PreparedToken → Stamp → Tables → Option (Bool × Tables)
unfolding vault_row may_dry_run
write_dry_run_credential lockdown o provider t prepared at s =
    if lockdown
    then none
    else some (
        if may_dry_run (select (is_owned o provider) s.connections)
        then (
          true,
          clear_satellites o provider at.now_us
              (put_connection o provider (vault_row o provider t prepared 1 at.id at.now_us) s),
        )
        else (false, s))

-- UserProvisioningResult, and an error, which rolls the transaction back
pub data Provisioned : Type 0 where
  stored stale offboarded revoked conflict failed : Provisioned

-- The issuance of a user's write: a time, or the finalizing of an OAuth request in the transaction.
abbrev pub Issuance : Type 0
Issuance = Marks → Consent.Table → Option (Option ℕ) × Consent.Table

-- A write of a user's credential: none where it throws; the flag says whether a row was written.
abbrev pub Write : Type 0
Write = Tables → Option (Bool × Tables)

abbrev pub is_newer : TtlPolicy → ℕ → ℕ → Bool → Option Row → Bool
is_newer ttl now issued_at synthetic none = false
is_newer ttl now issued_at synthetic (some r) =
    not (is_expired_row ttl now r)
    && leb issued_at r.generation_at
    && (synthetic || not (nat_beq r.dry_run 1))

unfoldable pub finish_write :
    Owner → String → ℕ → ℕ → Tables → Option (Bool × Tables) → Provisioned × Tables
finish_write o provider issued_at now_us s none = (failed, s)
finish_write o provider issued_at now_us s (some (wrote, w)) = (
  if wrote then stored else conflict,
  record w { consents = supersede_issued o provider issued_at now_us w.consents },
)

module _ (scope_key : ProvisioningScopeKind → List String → String) (ttl : TtlPolicy) where
  -- The times of the process and of the database.
  module _ (now now_us : ℕ) (o : Owner) (provider : String) (synthetic : Bool) (write : Write) where
    -- The failed outcome carries the tables from before the transaction.
    unfoldable pub fenced_write :
        Tables → ℕ → Tables → Option (Option ℕ) → Option (Option ℕ) → Provisioned × Tables
    unfolding finish_write
    fenced_write before issued_at s (some off) (some rev) =
        if tombstone_blocks off issued_at
        then (offboarded, s)
        else if tombstone_blocks rev issued_at
        then (revoked, s)
        else if is_newer ttl now issued_at synthetic (select (is_owned o provider) s.connections)
        then (stale, s)
        else finish_write o provider issued_at now_us before (write s)
    fenced_write before issued_at s _ _ = (failed, before)

    unfoldable pub issued_write : Tables → Option (Option ℕ) × Consent.Table → Provisioned × Tables
    unfolding fenced_write
    issued_write before (none, t) = (failed, before)
    issued_write before (some none, t) = (stale, record before { consents = t })
    issued_write before (some (some issued_at), t) =
        fenced_write before issued_at (record before { consents = t })
          (latest_user_offboard_tombstone
            (record { enterprise_id = o.enterprise_id; team_id = o.team_id; user_id = o.id })
            before.marks)
          (latest_provisioning_revocation_tombstone scope_key o provider before.marks)

    unfoldable pub kind_write : OwnerKind → Issuance → Tables → Provisioned × Tables
    unfolding issued_write
    kind_write user issuance s = issued_write s (issuance s.marks s.consents)
    kind_write channel issuance s = (failed, s)

    -- withUserProvisioningFence
    unfoldable pub user_provisioning : Issuance → Tables → Provisioned × Tables
    unfolding kind_write
    user_provisioning issuance s = kind_write o.kind issuance s

  -- withChannelProvisioningFence
  channel_write : Option (Option ℕ) → ℕ → Write → Tables → Provisioned × Tables
  channel_write none issued_at write s = (failed, s)
  channel_write (some rev) issued_at write s =
      if tombstone_blocks rev issued_at
      then (revoked, s)
      else elim (write s) [ none ↦ (failed, s) | some r ↦ (if r.0 then stored else conflict, r.1) ]

  channel_kind_write : OwnerKind → Owner → String → ℕ → Write → Tables → Provisioned × Tables
  unfolding channel_write
  channel_kind_write user o provider issued_at write s = (failed, s)
  channel_kind_write channel o provider issued_at write s =
      channel_write (latest_provisioning_revocation_tombstone scope_key o provider s.marks)
        issued_at write s

  unfoldable pub channel_provisioning : Owner → String → ℕ → Write → Tables → Provisioned × Tables
  unfolding channel_kind_write
  channel_provisioning o provider issued_at write s =
      channel_kind_write o.kind o provider issued_at write s
