-- ===== src/Consent.antt =====
-- The class Consent of src/core/consent.ts: the single-use states of OAuth. Each statement of SQL is a
-- function on the rows of consent_request, with the database's time as an argument; a time that is
-- read again in a call is another argument. The URLs that carry a state are left out.
pub mod Issue
pub mod Callback
pub mod Delivery
pub mod Active
pub mod Once
pub mod Sweep
pub mod Tests
use vouchr.Base.{
  ℕ, ◌+◌, ◌*◌, max, String, Bool, true, false, ◌&&◌, ◌||◌, List, [], ◌∷◌, Option, none, some, leb,
  ltb, nat_beq, not, is_some, if◌then◌else◌, ◌>>=◌,
}
use vouchr.Base.Eq.{◌==◌, string_eq, option_eq, nat_eq}
use vouchr.Base.Lists.{all, length}
use vouchr.Base.Text.{code_points}
use vouchr.Base.Table.{select, delete, update, changes}
use vouchr.Owner.{SlackIdentity, Owner, user_owner}
use vouchr.ProviderId.{is_alphanumeric}
use vouchr.Fence.{
  Marks, ProvisioningScopeKind, tombstone_blocks, latest_user_offboard_tombstone,
  latest_provisioning_revocation_tombstone,
}

abbrev pub state_ttl_us : ℕ
state_ttl_us = 10 * 60 * 1000000

pub record Row : Type 0 where
  pub state : String
  pub enterprise_id : Option String
  pub team_id : String
  pub user_id : String
  pub provider : String
  pub channel : Option String
  pub pkce_verifier : String
  pub created_at : ℕ
  pub consumed_at : Option ℕ
  pub superseded_at : Option ℕ
  pub delivery_token : Option String
  pub delivery_lease_expires_at : ℕ
  pub delivered_at : Option ℕ
  pub slack_verified_at : Option ℕ

abbrev pub Table : Type 0
Table = List Row

-- ConsentRow
pub record ConsentRow : Type 0 where
  pub state : String
  pub identity : SlackIdentity
  pub provider : String
  pub channel : Option String
  pub pkce_verifier : String
  pub created_at : ℕ
  pub slack_verified_at : Option ℕ

abbrev pub consent_row : Row → ConsentRow
consent_row r = record {
  state = r.state;
  identity = record { enterprise_id = r.enterprise_id; team_id = r.team_id; user_id = r.user_id };
  provider = r.provider;
  channel = r.channel;
  pkce_verifier = r.pkce_verifier;
  created_at = r.created_at;
  slack_verified_at = r.slack_verified_at;
}

-- /^[A-Za-z0-9_-]{43}$/
unfoldable pub is_consent_state : String → Bool
is_consent_state value =
    nat_beq (length (code_points value)) 43
    && all (λ c. is_alphanumeric c || nat_beq c 95 || nat_beq c 45) (code_points value)

-- Unconsumed, unsuperseded and within the lifetime of a state.
abbrev pub is_active : ℕ → Row → Bool
is_active now r =
    not (is_some r.superseded_at)
    && not (is_some r.consumed_at)
    && leb now (r.created_at + state_ttl_us)

abbrev pub is_current : SlackIdentity → String → Row → Bool
is_current i provider r =
    r.team_id == i.team_id
    && r.user_id == i.user_id
    && r.provider == provider
    && not (is_some r.superseded_at)

abbrev pub row_of : Option Row → Option ConsentRow
row_of none = none
row_of (some r) = some (consent_row r)

unfoldable pub active_row : String → ℕ → Table → Option ConsentRow
active_row state now t =
    if is_consent_state state
    then row_of (select (λ r. r.state == state && is_active now r) t)
    else none

unfoldable pub inspect : String → ℕ → Table → Option (ConsentRow × Bool)
inspect state now t =
    if is_consent_state state
    then (select (λ r. r.state == state) t >>= λ r. some (consent_row r, is_active now r))
    else none

unfoldable pub mark_slack_verified : String → ℕ → Table → Bool × Table
mark_slack_verified state now t =
    if is_consent_state state
    then (
      changes (λ r. r.state == state && is_active now r) t == 1,
      update (λ r. r.state == state && is_active now r)
          (λ r. record r { slack_verified_at = some now }) t,
    )
    else (false, t)

unfoldable pub delete_for_user : SlackIdentity → Table → Table
delete_for_user i t = delete (λ r. r.team_id == i.team_id && r.user_id == i.user_id) t

unfoldable pub delete_for_user_provider : String → String → String → Table → Table
delete_for_user_provider team_id user_id provider t =
    delete (λ r. r.team_id == team_id && r.user_id == user_id && r.provider == provider) t

abbrev pub in_team : Option String → Row → Bool
in_team none r = true
in_team (some team) r = if team == "" then true else r.team_id == team

abbrev pub later_of : Row → Option Row → Option Row
later_of r none = some r
later_of r (some s) = if ltb r.created_at s.created_at then some s else some r

-- ORDER BY created_at DESC LIMIT 1
pub newest : (Row → Bool) → Table → Option Row
newest p [] = none
newest p (r ∷ t) = let rest = newest p t in if p r then later_of r rest else rest

unfoldable pub latest_state_for : String → String → Option String → ℕ → Table → Option String
unfolding newest
latest_state_for user_id provider team_id now t =
    newest
      (λ r. r.user_id == user_id && r.provider == provider && in_team team_id r && is_active now r)
      t
    >>= λ r. some r.state

-- UPDATE … SET superseded_at … WHERE … AND superseded_at IS NULL
abbrev pub supersede : ℕ → Row → Row
supersede now r = record r { superseded_at = some now }

-- The statement of Vault.withUserProvisioningFence (src/core/vault.ts) on these rows: a credential that
-- is written supersedes the states that were issued before.
abbrev pub is_pending_before : Owner → String → ℕ → Row → Bool
is_pending_before o provider issued_at r =
    r.team_id == o.team_id
    && r.user_id == o.id
    && r.provider == provider
    && not (is_some r.superseded_at)
    && not (is_some r.consumed_at)
    && leb r.created_at issued_at

unfoldable pub supersede_issued : Owner → String → ℕ → ℕ → Table → Table
supersede_issued o provider issued_at now t =
    update (is_pending_before o provider issued_at) (supersede now) t

-- The fences' answers, where neither throws.
abbrev pub fences_of : Option (Option ℕ) → Option (Option ℕ) → Option (Option ℕ × Option ℕ)
fences_of (some a) (some b) = some (a, b)
fences_of _ _ = none

module _ (scope_key : ProvisioningScopeKind → List String → String) where
  abbrev pub user_fences : SlackIdentity → String → Marks → Option (Option ℕ × Option ℕ)
  user_fences i provider m =
      fences_of (latest_user_offboard_tombstone i m)
        (latest_provisioning_revocation_tombstone scope_key (user_owner i) provider m)
