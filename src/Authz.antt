-- ===== src/Authz.antt =====
-- src/core/authz.ts: what may be used where, and whose credential serves a request. The stores are
-- the library's own classes, whose batch methods the snapshots then use.
pub mod Scope
pub mod Manifest
pub mod Resolution
pub mod Tests
use vouchr.Base.{
  String, Bool, true, false, ◌&&◌, ◌||◌, List, [], ◌∷◌, Option, none, some, get_or, is_some, map,
  not, if◌then◌else◌,
}
use vouchr.Base.Eq.{◌==◌, string_eq, option_eq}
use vouchr.Base.Text.{is_truthy, starts_with}
use vouchr.Owner.{SlackIdentity, Owner, user_owner, channel_owner}
use vouchr.Conversation.{ConversationType, mpim}
use vouchr.Policy.{Policy, check}
use vouchr.Tools.{Table, is_enabled, enabled_snapshot}
use vouchr.ChannelConfig.{ChannelIdentity, Identities, identity_snapshot}

pub data Denial : Type 0 where
  policy tool_disabled : Denial

unfoldable pub authorize_verdict : Bool → Bool → Option Denial
authorize_verdict policy_allows tool_allowed =
    if policy_allows then (if tool_allowed then none else some tool_disabled) else some policy

abbrev is_mpim : Option ConversationType → Bool
is_mpim (some mpim) = true
is_mpim _ = false

governance_of : String → Option ConversationType → Option String
governance_of channel channel_type =
    if starts_with channel "D"
    then none
    else if is_mpim channel_type && starts_with channel "G"
    then none
    else some channel

unfoldable pub governance_channel_of : Option String → Option ConversationType → Option String
unfolding governance_of
governance_channel_of none channel_type = none
governance_channel_of (some channel) channel_type = governance_of channel channel_type

unfoldable pub is_governance_channel_scope : Option String → Option String → Bool
is_governance_channel_scope none (some s) = false
is_governance_channel_scope (some c) (some s) = s == c
is_governance_channel_scope none none = true
is_governance_channel_scope (some c) none = starts_with c "D" || starts_with c "G"

-- !policy || policy.check(provider, channel)
abbrev pub policy_allows : Option Policy → String → Option String → Bool
policy_allows none provider channel = true
policy_allows (some p) provider channel = check p provider channel

-- governanceChannel && channelTools ? … : true. An empty scope is no scope.
abbrev pub tool_allows : Option Table → String → Option String → String → Bool
tool_allows none team_id scope provider = true
tool_allows (some t) team_id none provider = true
tool_allows (some t) team_id (some c) provider =
    if c == "" then true else is_enabled team_id c provider t

unfoldable pub authorize_provider :
    Option Policy
    → Option Table
    → SlackIdentity
    → Option String
    → Option String
    → String
    → Option Denial
unfolding authorize_verdict
authorize_provider p tools principal channel governance provider =
    let allowed = policy_allows p provider channel in
    authorize_verdict allowed
      (if allowed then tool_allows tools principal.team_id governance provider else true)

pub data ManifestIdentity : Type 0 where
  owned_by : ChannelIdentity → ManifestIdentity
  service : ManifestIdentity

pub record ManifestEntry : Type 0 where
  pub provider : String
  pub enabled : Bool
  pub identity : ManifestIdentity

pub record ManifestOptions : Type 0 where
  pub provider_ids : List String
  -- isBrokeredProvider of the registry's provider
  pub is_brokered : String → Bool
  pub policy : Option Policy
  pub channel_tools : Option Table
  pub channel_config : Option Identities
  pub principal : SlackIdentity
  pub channel : Option String
  -- none where the option is left out
  pub governance_channel : Option (Option String)

unfoldable pub governance_scope : ManifestOptions → Option String
governance_scope o = elim o.governance_channel [ none ↦ o.channel | some g ↦ g ]

snapshot_allows : Option Table → String → Option String → String → Bool
snapshot_allows none team_id scope provider = true
snapshot_allows (some t) team_id none provider = true
snapshot_allows (some t) team_id (some c) provider =
    if c == "" then true else enabled_snapshot team_id c t provider

snapshot_identity : Option Identities → String → Option String → String → ChannelIdentity
snapshot_identity none team_id scope provider = ChannelIdentity.person
snapshot_identity (some t) team_id none provider = ChannelIdentity.person
snapshot_identity (some t) team_id (some c) provider =
    if c == "" then ChannelIdentity.person else identity_snapshot team_id c t provider

pub manifest_entry : ManifestOptions → String → ManifestEntry
unfolding snapshot_allows snapshot_identity authorize_verdict governance_scope
manifest_entry o provider = record {
  provider = provider;
  enabled = not (
      is_some (
        authorize_verdict (policy_allows o.policy provider o.channel)
          (snapshot_allows o.channel_tools o.principal.team_id (governance_scope o) provider)));
  identity =
      if o.is_brokered provider
      then owned_by
          (snapshot_identity o.channel_config o.principal.team_id (governance_scope o) provider)
      else service;
}

-- buildToolManifest
unfoldable pub build_tool_manifest : ManifestOptions → List ManifestEntry
unfolding manifest_entry
build_tool_manifest o = map (manifest_entry o) o.provider_ids

pub data CredentialPath : Type 0 where
  user_path channel_path : CredentialPath

pub record OwnerInputs : Type 0 where
  pub path : CredentialPath
  pub identity : ChannelIdentity
  pub principal : SlackIdentity
  pub channel : Option String
  pub eligible : Option Bool
  pub has_user_credential : Option Bool

pub data RefusalCode : Type 0 where
  ineligible not_configured : RefusalCode

pub data OwnerResolution : Type 0 where
  resolved : Owner → SlackIdentity → OwnerResolution
  needs_consent : OwnerResolution
  refused : RefusalCode → OwnerResolution

abbrev is_false : Option Bool → Bool
is_false (some false) = true
is_false _ = false

abbrev is_true : Option Bool → Bool
is_true (some true) = true
is_true _ = false

-- i.identity === 'channel' && i.channel
channel_of : ChannelIdentity → Option String → Option String
channel_of ChannelIdentity.channel (some c) = if c == "" then none else some c
channel_of _ _ = none

resolve_channel : SlackIdentity → Option String → OwnerResolution
resolve_channel principal none = refused not_configured
resolve_channel principal (some c) = resolved (channel_owner principal.team_id c) principal

resolve_on : CredentialPath → OwnerInputs → OwnerResolution
unfolding resolve_channel channel_of
resolve_on user_path i =
    if is_false i.has_user_credential
    then needs_consent
    else resolved (user_owner i.principal) i.principal
resolve_on channel_path i =
    if is_true i.eligible
    then resolve_channel i.principal (channel_of i.identity i.channel)
    else refused ineligible

unfoldable pub resolve_credential_owner : OwnerInputs → OwnerResolution
unfolding resolve_on
resolve_credential_owner i = resolve_on i.path i
