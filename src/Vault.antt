-- ===== src/Vault.antt =====
-- The class Vault of src/core/vault.ts: the stored credentials, one for an owner and a provider, and what
-- is read of them. Each transaction is a function on the tables, with its times as arguments:
-- milliseconds of the process for a credential's age, and microseconds of the database for the fences.
-- Sealing and opening are an argument.
pub mod Sealed
pub mod Write
pub mod Provision
pub mod Remove
pub mod Expiry
pub mod Tests
use vouchr.Base.{
  ℕ, ◌+◌, max, String, Bool, true, false, ◌&&◌, ◌||◌, List, [], ◌∷◌, map, Option, none, some,
  get_or, is_some, leb, ltb, nat_beq, if◌then◌else◌, ◌>>=◌,
}
use vouchr.Base.Eq.{◌==◌, string_eq, option_eq}
use vouchr.Base.Table.{select, select_all, delete, update}
use vouchr.Base.Assoc.{lookup, insert}
use vouchr.Owner.{SlackIdentity, Owner, OwnerKind, user, channel, kind_eq, user_owner}
use vouchr.Tools.{Key, key, key_eq}
use vouchr.Fence.{Marks}
use vouchr.Interaction.{is_interaction_id}
use vouchr.Consent
use vouchr.Health
use vouchr.Health.{NotificationKey}
use vouchr.Approval
use vouchr.Approval.Grant.{purge_approvals_for_owner, purge_channel}

-- A row of connection.
pub record Row : Type 0 where
  pub id : String
  pub enterprise_id : Option String
  pub team_id : String
  pub owner_kind : OwnerKind
  pub owner_id : String
  pub provider : String
  pub source : String
  pub access_token_enc : Option (List ℕ)
  pub refresh_token_enc : Option (List ℕ)
  pub secret_ref : Option String
  pub scopes : String
  pub expires_at : Option ℕ
  pub external_account : Option String
  pub dry_run : ℕ
  pub generation_at : ℕ
  pub created_at : ℕ
  pub updated_at : ℕ
  pub last_used_at : Option ℕ

abbrev pub Connections : Type 0
Connections = List Row

-- Rows of user_provisioning_request and channel_provisioning_request, as far as they are purged here.
pub record UserRequest : Type 0 where
  pub id : String
  pub team_id : String
  pub user_id : String
  pub provider : String

pub record ChannelRequest : Type 0 where
  pub id : String
  pub team_id : String
  pub channel : String
  pub provider : String

-- The tables that the vault writes to.
pub record Tables : Type 0 where
  pub connections : Connections
  pub marks : Marks
  pub consents : Consent.Table
  pub notifications : Health.Table
  pub approvals : Approval.Table
  pub user_requests : List UserRequest
  pub channel_requests : List ChannelRequest
  pub channel_marks : List (Key × ℕ)

pub record TtlPolicy : Type 0 where
  pub idle_ms : Option ℕ
  pub max_age_ms : Option ℕ

pub record StoredCredential : Type 0 where
  pub source : String
  pub access_token : Option String
  pub refresh_token : Option String
  pub secret_ref : Option String
  pub scopes : String
  pub expires_at : Option ℕ
  pub external_account : Option String
  pub dry_run : Bool

-- The keys: sealing takes fresh random bytes and may fail, and so may opening.
pub record Sealing : Type 0 where
  pub seal : List ℕ → String → Option (List ℕ)
  pub unseal : List ℕ → Option String

unfoldable pub is_owned : Owner → String → Row → Bool
is_owned o provider r =
    r.team_id == o.team_id && r.owner_kind == o.kind && r.owner_id == o.id && r.provider == provider

-- The id that is asked for, where one is.
abbrev pub is_generation : Option String → Row → Bool
is_generation none r = true
is_generation (some id) r = r.id == id

abbrev pub well_formed : Option String → Bool
well_formed none = true
well_formed (some id) = is_interaction_id id

abbrev pub past : Option ℕ → ℕ → ℕ → Bool
past none since now = false
past (some ms) since now = ltb (since + ms) now

unfoldable pub is_expired : TtlPolicy → ℕ → ℕ → ℕ → Bool
is_expired ttl created_at last_used_at now =
    past ttl.idle_ms last_used_at now || past ttl.max_age_ms created_at now

abbrev pub is_expired_row : TtlPolicy → ℕ → Row → Bool
is_expired_row ttl now r = is_expired ttl r.created_at (get_or r.last_used_at r.created_at) now

unfoldable pub fetch_row : Owner → String → Option String → Connections → Option Row
fetch_row o provider expected t =
    if well_formed expected
    then select (λ r. is_owned o provider r && is_generation expected r) t
    else none

-- The live row, in its lifetime.
abbrev pub live : TtlPolicy → ℕ → Option Row → Option Row
live ttl now none = none
live ttl now (some r) = if is_expired_row ttl now r then none else some r

unfoldable pub has : Owner → String → Connections → Bool
has o provider t = is_some (select (is_owned o provider) t)

unfoldable pub live_id : TtlPolicy → Owner → String → ℕ → Connections → Option String
live_id ttl o provider now t = live ttl now (select (is_owned o provider) t) >>= λ r. some r.id

unfoldable pub has_live : TtlPolicy → Owner → String → ℕ → Connections → Bool
unfolding live_id
has_live ttl o provider now t = is_some (live_id ttl o provider now t)

unfoldable pub get_account :
    TtlPolicy → Owner → String → Option String → ℕ → Connections → Option (Option String)
unfolding fetch_row
get_account ttl o provider expected now t =
    live ttl now (fetch_row o provider expected t) >>= λ r. some r.external_account

-- A token that is stored: nothing, or what opening gives; none where it throws.
abbrev pub open_token : Sealing → Option (List ℕ) → Option (Option String)
open_token box none = some none
open_token box (some sealed) = box.unseal sealed >>= λ token. some (some token)

unfoldable pub decode : Sealing → Row → Option StoredCredential
decode box r = open_token box r.access_token_enc >>= λ access.
    open_token box r.refresh_token_enc >>= λ refresh. some (record {
      source = r.source;
      access_token = access;
      refresh_token = refresh;
      secret_ref = r.secret_ref;
      scopes = r.scopes;
      expires_at = r.expires_at;
      external_account = r.external_account;
      dry_run = nat_beq r.dry_run 1;
    })

pub data Served : Type 0 where
  served : StoredCredential → Served
  absent unreadable locked_down : Served

pub serve : Sealing → Option Row → Served
serve box none = absent
serve box (some r) = elim (decode box r) [ none ↦ unreadable | some c ↦ served c ]

-- Vault.get
unfoldable pub get :
    TtlPolicy → Bool → Sealing → Owner → String → Option String → ℕ → Connections → Served
unfolding serve fetch_row
get ttl lockdown box o provider expected now t =
    if lockdown then locked_down else serve box (live ttl now (fetch_row o provider expected t))

unfoldable pub get_for_revoke : Sealing → Owner → String → Connections → Served
unfolding serve fetch_row
get_for_revoke box o provider t = serve box (fetch_row o provider none t)

abbrev pub of_user : SlackIdentity → Row → Bool
of_user i r = r.team_id == i.team_id && r.owner_kind == user && r.owner_id == i.user_id

unfoldable pub list_for_user : SlackIdentity → Connections → List (String × String × Option String)
list_for_user i t =
    map (λ (r : Row). (r.id, r.provider, r.external_account)) (select_all (of_user i) t)

unfoldable pub list_live_for_user :
    TtlPolicy → SlackIdentity → ℕ → Connections → List (String × Option String)
list_live_for_user ttl i now t =
    map (λ (r : Row). (r.provider, r.external_account))
      (delete (is_expired_row ttl now) (select_all (of_user i) t))

unfoldable pub provider_for_user_generation : SlackIdentity → String → Connections → Option String
provider_for_user_generation i id t =
    if is_interaction_id id
    then (select (λ r. r.id == id && of_user i r) t >>= λ r. some r.provider)
    else none

abbrev pub is_notified : Owner → String → NotificationKey → Bool
is_notified o provider k =
    k.team_id == o.team_id && k.owner_kind == o.kind && k.owner_id == o.id && k.provider == provider

-- purgeChannelInteractionState of src/core/interaction.ts
unfoldable pub purge_channel_state : String → String → String → ℕ → Tables → Tables
purge_channel_state team_id channel_id provider now s = record s {
  channel_marks =
      insert (key team_id channel_id provider)
        (max (get_or (lookup (key team_id channel_id provider) s.channel_marks) 0) now)
        s.channel_marks;
  approvals = purge_channel team_id channel_id provider s.approvals;
  channel_requests =
      delete
        (λ (r : ChannelRequest).
          r.team_id == team_id && r.channel == channel_id && r.provider == provider)
        s.channel_requests;
}

abbrev pub clear_requests : OwnerKind → Owner → String → ℕ → Tables → Tables
clear_requests user o provider now s = record s {
  user_requests =
      delete
        (λ (r : UserRequest). r.team_id == o.team_id && r.user_id == o.id && r.provider == provider)
        s.user_requests;
}
clear_requests channel o provider now s = purge_channel_state o.team_id o.id provider now s

-- clearSatellites
unfoldable pub clear_satellites : Owner → String → ℕ → Tables → Tables
clear_satellites o provider now s = clear_requests o.kind o provider now (record s {
  notifications = delete (λ (e : NotificationKey × ℕ). is_notified o provider e.0) s.notifications;
  approvals = purge_approvals_for_owner o provider s.approvals;
})
