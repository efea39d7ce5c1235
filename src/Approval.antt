-- ===== src/Approval.antt =====
-- src/core/approval.ts and the action key of src/core/interaction.ts: requests for approval, and the
-- columns of their table. Times are microseconds of the database's clock.
pub mod Who
pub mod Request
pub mod Delivery
pub mod Decision
pub mod Grant
pub mod Run
pub mod Tests
use vouchr.Base.{
  ℕ, ◌*◌, String, ◌≡◌, ◌↔◌, Bool, true, false, ◌&&◌, ◌||◌, List, [], ◌∷◌, Option, none, some, arith,
  get_or, leb, not, if◌then◌else◌,
}
use vouchr.Base.Eq.{Eq, ◌==◌, string_eq}
use vouchr.Base.Text.{len}
use vouchr.Owner.{OwnerKind, kind_eq}
use vouchr.Authz.{is_governance_channel_scope}

pub data ApprovalGrant : Type 0 where
  once thread : ApprovalGrant

abbrev grant_beq : ApprovalGrant → ApprovalGrant → Bool
grant_beq once once = true
grant_beq thread thread = true
grant_beq _ _ = false

pub grant_beq_iff : (a b : ApprovalGrant) → (grant_beq a b ≡ true) ↔ (a ≡ b)
grant_beq_iff once once = ground arith
grant_beq_iff once thread = ground arith
grant_beq_iff thread once = ground arith
grant_beq_iff thread thread = ground arith

instance abbrev pub grant_eq : Eq ApprovalGrant
grant_eq = record { equals = grant_beq; equals_iff = grant_beq_iff }

abbrev bool_beq : Bool → Bool → Bool
bool_beq true b = b
bool_beq false b = not b

pub bool_beq_iff : (a b : Bool) → (bool_beq a b ≡ true) ↔ (a ≡ b)
bool_beq_iff true true = ground arith
bool_beq_iff true false = ground arith
bool_beq_iff false true = ground arith
bool_beq_iff false false = ground arith

instance abbrev pub bool_eq : Eq Bool
bool_eq = record { equals = bool_beq; equals_iff = bool_beq_iff }

-- ApprovalKey; `delegated` left out reads as false.
pub record ApprovalKey : Type 0 where
  pub team_id : String
  pub user_id : String
  pub owner_kind : OwnerKind
  pub owner_id : String
  pub credential_id : String
  pub provider : String
  pub method : String
  pub origin : String
  pub host : String
  pub path : String
  pub query_hash : String
  pub grant : ApprovalGrant
  pub channel : Option String
  pub thread : Option String
  pub governable_channel : Option String
  pub delegated : Bool

-- The columns that keyParams fills.
pub record Columns : Type 0 where
  pub team_id : String
  pub user_id : String
  pub owner_kind : OwnerKind
  pub owner_id : String
  pub credential_id : String
  pub provider : String
  pub method : String
  pub origin : String
  pub host : String
  pub path : String
  pub query_hash : String
  pub grant : ApprovalGrant
  pub channel : String
  pub thread : String
  pub governable_channel : String
  pub delegated : Bool

-- governanceParam: none where it throws
pub governance_param : ApprovalKey → Option String
governance_param k =
    if is_governance_channel_scope k.channel k.governable_channel
    then some (get_or k.governable_channel "")
    else none

columns_with : ApprovalKey → Option String → Option Columns
columns_with k none = none
columns_with k (some scope) = some (record {
  team_id = k.team_id;
  user_id = k.user_id;
  owner_kind = k.owner_kind;
  owner_id = k.owner_id;
  credential_id = k.credential_id;
  provider = k.provider;
  method = k.method;
  origin = k.origin;
  host = k.host;
  path = k.path;
  query_hash = k.query_hash;
  grant = k.grant;
  channel = get_or k.channel "";
  thread = get_or k.thread "";
  governable_channel = scope;
  delegated = k.delegated;
})

unfoldable pub key_params : ApprovalKey → Option Columns
unfolding columns_with governance_param
key_params k = columns_with k (governance_param k)

pub data Status : Type 0 where
  pending granted denied : Status

abbrev status_beq : Status → Status → Bool
status_beq pending pending = true
status_beq granted granted = true
status_beq denied denied = true
status_beq _ _ = false

pub status_beq_iff : (a b : Status) → (status_beq a b ≡ true) ↔ (a ≡ b)
status_beq_iff pending pending = ground arith
status_beq_iff pending granted = ground arith
status_beq_iff pending denied = ground arith
status_beq_iff granted pending = ground arith
status_beq_iff granted granted = ground arith
status_beq_iff granted denied = ground arith
status_beq_iff denied pending = ground arith
status_beq_iff denied granted = ground arith
status_beq_iff denied denied = ground arith

instance abbrev pub status_eq : Eq Status
status_eq = record { equals = status_beq; equals_iff = status_beq_iff }

-- A row of approval_request.
pub record Row : Type 0 where
  pub id : String
  pub action_key : String
  pub columns : Columns
  pub status : Status
  pub approved_by : Option String
  pub created_at : ℕ
  pub expires_at : ℕ
  pub reason : Option String
  pub link : Option String
  pub backchannel : Bool
  pub delivery_token : Option String
  pub delivery_lease_expires_at : ℕ
  pub delivered_at : Option ℕ
  pub delivery_audience : Option String

abbrev pub Table : Type 0
Table = List Row

abbrev pub pending_interaction_ttl_us : ℕ
pending_interaction_ttl_us = 10 * 60 * 1000000

abbrev pub prompt_delivery_lease_us : ℕ
prompt_delivery_lease_us = 30000000

abbrev pub prompt_redelivery_debounce_us : ℕ
prompt_redelivery_debounce_us = 30000000

abbrev pub us_from_ms : ℕ → ℕ
us_from_ms ms = ms * 1000

abbrev pub max_approval_path_bytes : ℕ
max_approval_path_bytes = 16 * 1024

-- The method, origin, host, path and query of two actions are equal.
unfoldable pub same_action : Columns → Columns → Bool
same_action a b =
    a.method == b.method
    && a.origin == b.origin
    && a.host == b.host
    && a.path == b.path
    && a.query_hash == b.query_hash

-- The requester, the credential, the provider and the grant's scope are equal.
unfoldable pub same_parties : Columns → Columns → Bool
same_parties a b =
    a.team_id == b.team_id
    && a.user_id == b.user_id
    && a.owner_kind == b.owner_kind
    && a.owner_id == b.owner_id
    && a.credential_id == b.credential_id
    && a.provider == b.provider
    && a.grant == b.grant
    && a.channel == b.channel
    && a.thread == b.thread

-- MATCH_SQL, the stored row's columns first
unfoldable pub match_sql : Columns → Columns → Bool
unfolding same_parties same_action
match_sql r k =
    same_parties r k
    && (r.grant == thread || same_action r k)
    && r.governable_channel == k.governable_channel
    && r.delegated == k.delegated
