-- ===== src/Egress/Gate.antt =====
-- The gate itself, the approval rule and the key of an action: egressGate, pathAllowed, approvalNeeded
-- and approvalKey of src/core/injector.ts. A provider's methods are canonical already, so their
-- toUpperCase changes nothing.
pub mod Rule
pub mod Lock
pub mod Asks
pub mod ReadOnly
use vouchr.Base.{
  ℕ, ◌-◌, String, Bool, true, false, ◌&&◌, ◌||◌, List, [], ◌∷◌, ◌++◌, Option, none, some, leb, ltb,
  nat_beq, not, is_some, if◌then◌else◌,
}
use vouchr.Base.Eq.{◌==◌, string_eq}
use vouchr.Base.Lists.{any, length}
use vouchr.Base.Text.{code_points, is_prefix}
use vouchr.Owner.{SlackIdentity, Owner, channel, kind_eq}
use vouchr.Authz.{governance_channel_of}
use vouchr.Approval.{ApprovalKey, ApprovalGrant, once, thread}
use vouchr.Egress.{has_ambiguous_path_encoding, same_codes}

-- A URL as the WHATWG parser gives it.
pub record Url : Type 0 where
  pub protocol : String
  pub username : String
  pub password : String
  pub hostname : String
  pub port : String
  pub origin : String
  pub pathname : String
  pub search : String

pub record ApprovalRule : Type 0 where
  pub methods : Option (List String)
  pub paths : Option (List String)
  pub grant : ApprovalGrant
  pub ttl_ms : ℕ

pub record RateRule : Type 0 where
  pub per_minute : ℕ
  pub burst : Option ℕ

-- What the gate reads of a provider.
pub record Provider : Type 0 where
  pub id : String
  pub egress_allow : List String
  pub egress_paths : Option (List String)
  pub egress_methods : Option (List String)
  pub egress_validate : Option (Url → String → Bool)
  -- none where it is false
  pub approval : Option ApprovalRule
  pub rate_limit : Option RateRule

abbrev pub max_url_hostname_length : ℕ
max_url_hostname_length = 253

unfoldable pub is_loopback_host : String → Bool
is_loopback_host h = h == "127.0.0.1" || h == "::1" || h == "[::1]" || h == "localhost"

pub ends_in_slash : List ℕ → Bool
ends_in_slash [] = false
ends_in_slash (c ∷ []) = nat_beq c 47
ends_in_slash (c ∷ d ∷ s) = ends_in_slash (d ∷ s)

pub path_codes_allowed : List ℕ → List ℕ → Bool
unfolding ends_in_slash is_prefix
path_codes_allowed p a =
    if same_codes a (47 ∷ [])
    then true
    else if ends_in_slash a
    then is_prefix p a
    else same_codes p a || is_prefix p (a ++ 47 ∷ [])

unfoldable pub path_allowed : String → String → Bool
unfolding path_codes_allowed
path_allowed pathname allowed = path_codes_allowed (code_points pathname) (code_points allowed)

abbrev pub is_ambiguous : String → Bool
is_ambiguous pathname = has_ambiguous_path_encoding (code_points pathname)

pub data Reason : Type 0 where
  by_host by_path by_method by_validator : Reason

pub data Gate : Type 0 where
  invalid_url : Gate
  denied : Reason → Gate
  allowed : Gate

abbrev pub refuse_if : Bool → Gate → Gate → Gate
refuse_if true r rest = r
refuse_if false r rest = rest

gate_validator : Option (Url → String → Bool) → Url → String → Gate
gate_validator none u method = allowed
gate_validator (some v) u method = refuse_if (not (v u method)) (denied by_validator) allowed

gate_methods : Provider → Url → String → Option (List String) → Gate
unfolding gate_validator
gate_methods p u method none = gate_validator p.egress_validate u method
gate_methods p u method (some ms) =
    refuse_if (not (any (λ m. m == method) ms)) (denied by_method)
      (gate_validator p.egress_validate u method)

gate_paths : Provider → Url → String → Option (List String) → Gate
unfolding gate_methods
gate_paths p u method none = gate_methods p u method p.egress_methods
gate_paths p u method (some ps) = refuse_if (is_ambiguous u.pathname) (denied by_path) (
    refuse_if (not (any (λ a. path_allowed u.pathname a) ps)) (denied by_path)
      (gate_methods p u method p.egress_methods))

unfoldable pub egress_gate : Provider → Url → String → Gate
unfolding gate_paths
egress_gate p u method =
    refuse_if (ltb max_url_hostname_length (length (code_points u.hostname))) invalid_url (
      refuse_if (not (u.username == "") || not (u.password == "")) (denied by_host) (
        refuse_if (not (any (λ h. h == u.hostname) p.egress_allow)) (denied by_host) (
          refuse_if (not (u.port == "") && not (is_loopback_host u.hostname)) (denied by_host) (
            refuse_if (not (u.protocol == "https:") && not (is_loopback_host u.hostname))
              (denied by_host) (gate_paths p u method p.egress_paths)))))

pub method_asks : Option (List String) → String → Bool
method_asks none method = not (method == "GET") && not (method == "HEAD")
method_asks (some ms) method = any (λ m. m == method) ms

pub path_asks : Option (List String) → String → Bool
path_asks none pathname = true
path_asks (some ps) pathname =
    if is_ambiguous pathname then true else any (λ a. path_allowed pathname a) ps

unfoldable pub approval_needed : Option ApprovalRule → String → String → Bool
unfolding method_asks path_asks
approval_needed none method pathname = false
approval_needed (some a) method pathname =
    if method_asks a.methods method then path_asks a.paths pathname else false

-- What a handle knows of its request.
pub record Handle : Type 0 where
  pub acting : SlackIdentity
  pub owner : Owner
  pub provider : Provider
  pub worker : Bool
  pub origin_channel : Option String
  pub thread : Option String
  -- none where the adapter passed none
  pub approval_governable_channel : Option (Option String)

pub audit_channel_of : Option String → Owner → Option String
audit_channel_of (some c) o = some c
audit_channel_of none o = if o.kind == channel then some o.id else none

-- auditChannel
abbrev pub audit_channel : Handle → Option String
unfolding audit_channel_of
audit_channel h = audit_channel_of h.origin_channel h.owner

-- this.thread, as a truth value
abbrev pub has_thread : Option String → Bool
has_thread none = false
has_thread (some t) = not (t == "")

abbrev pub grant_of : Bool → ApprovalGrant → Option String → ApprovalGrant
grant_of true rule t = once
grant_of false once t = once
grant_of false thread t = if has_thread t then thread else once

unfoldable pub approval_key :
    (String → String) → Handle → Url → String → String → ApprovalRule → ApprovalKey
approval_key query_digest h u method credential_id rule = record {
  team_id = h.acting.team_id;
  user_id = h.acting.user_id;
  owner_kind = h.owner.kind;
  owner_id = h.owner.id;
  credential_id = credential_id;
  provider = h.provider.id;
  method = method;
  origin = u.origin;
  host = u.hostname;
  path = u.pathname;
  query_hash = query_digest u.search;
  grant = grant_of h.worker rule.grant h.thread;
  channel = audit_channel h;
  thread = h.thread;
  governable_channel = elim h.approval_governable_channel [
    | none ↦ governance_channel_of (audit_channel h) none
    | some scope ↦ scope
  ];
  delegated = h.worker;
}
