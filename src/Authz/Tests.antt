-- ===== src/Authz/Tests.antt =====
-- A request in one channel, and the theorems at it.
use vouchr.Base.{◌≡◌, refl, ◌↔◌, true, false, [], ◌∷◌, none, some, map}
use vouchr.Base.Lists.{All}
use vouchr.Base.Assoc.{lookup}
use vouchr.Owner.{SlackIdentity, channel_owner}
use vouchr.Tools.{Table, key, enabled_snapshot}
use vouchr.Tools.Effect.{IsTable}
use vouchr.ChannelConfig.{ChannelIdentity, Identities, ChannelInfo}
use vouchr.Authz.{
  OwnerInputs, resolved, refused, ineligible, channel_path, resolve_credential_owner,
  ManifestOptions, ManifestEntry, build_tool_manifest, manifest_entry,
}
use vouchr.Authz.Resolution.{MayUse, resolve_iff}
use vouchr.Authz.Manifest.{decision, manifest-agrees}

abbrev alice : SlackIdentity
alice = record { enterprise_id = none; team_id = "T1"; user_id = "U1" }

abbrev shared : OwnerInputs
shared = record {
  path = channel_path;
  identity = ChannelIdentity.channel;
  principal = alice;
  channel = some "C1";
  eligible = some true;
  has_user_credential = none;
}

unverified_shared :
    resolve_credential_owner (record shared { eligible = none }) ≡ refused ineligible
unfolding resolve_credential_owner
unverified_shared = refl

resolve_iff_example :
    (resolve_credential_owner shared ≡ resolved (channel_owner "T1" "C1") alice)
    ↔ ((alice ≡ alice) × MayUse shared (channel_owner "T1" "C1"))
resolve_iff_example = resolve_iff shared (channel_owner "T1" "C1") alice

abbrev tools : Table
tools = (key "T1" "C1" "github", true) ∷ []

abbrev options : ManifestOptions
options = record {
  provider_ids = "github" ∷ "gitlab" ∷ [];
  is_brokered = λ p. true;
  policy = none;
  channel_tools = some tools;
  channel_config = none;
  principal = alice;
  channel = some "C1";
  governance_channel = none;
}

tools-IsTable : IsTable tools
unfolding lookup
tools-IsTable = (refl, tt)

shown : map (λ (e : ManifestEntry). e.enabled) (build_tool_manifest options) ≡ true ∷ false ∷ []
unfolding build_tool_manifest enabled_snapshot manifest_entry
shown = refl

manifest-agrees_example :
    (map (λ (e : ManifestEntry). e.provider) (build_tool_manifest options)
      ≡ "github" ∷ "gitlab" ∷ [])
    × All
        (λ (e : ManifestEntry). e.enabled ≡ decision options e.provider)
        (build_tool_manifest options)
manifest-agrees_example = manifest-agrees options tools-IsTable

abbrev identities : Identities
identities = (key "T1" "C1" "github", ChannelIdentity.channel) ∷ []

abbrev plain : ChannelInfo
plain = record {
  is_ext_shared = false;
  is_shared = false;
  is_pending_ext_shared = false;
  is_im = false;
  is_mpim = false;
  is_archived = false;
}
