-- ===== src/Authz/Manifest.antt =====
-- What the manifest of a channel's tools says, against the decision on a request.
use vouchr.Base.{
  String, ◌≡◌, refl, ap, Bool, true, List, [], ◌∷◌, Option, none, some, arith, is_some, map, not,
  if◌then◌else◌,
}
use vouchr.Base.Eq.{string_eq}
use vouchr.Base.Lists.{All}
use vouchr.Tools.{Table}
use vouchr.Tools.Effect.{IsTable, enabled_snapshot-is_enabled}
use vouchr.Authz.{
  ManifestEntry, ManifestOptions, manifest_entry, build_tool_manifest, authorize_provider,
  authorize_verdict, policy_allows, tool_allows, snapshot_allows, governance_scope,
}

-- The table of a store, where there is one, has at most one row for a key.
abbrev pub IsStore : Option Table → Type 0
IsStore none = Unit {0}
IsStore (some t) = IsTable t

snapshot_allows-tool_allows :
    (tools : Option Table)
    → IsStore tools
    → (team_id : String) (scope : Option String) (provider : String)
    → snapshot_allows tools team_id scope provider ≡ tool_allows tools team_id scope provider
unfolding snapshot_allows
snapshot_allows-tool_allows none d team_id scope provider = refl
snapshot_allows-tool_allows (some t) d team_id none provider = refl
snapshot_allows-tool_allows (some t) d team_id (some c) provider =
    rw (enabled_snapshot-is_enabled team_id c provider t d) refl

-- The decision that the entry of a provider must agree with.
abbrev pub decision : ManifestOptions → String → Bool
decision o provider = not (
    is_some (
      authorize_provider o.policy o.channel_tools o.principal o.channel (governance_scope o)
        provider))

verdict-enabled :
    (p t : Bool)
    → not (is_some (authorize_verdict p t))
      ≡ not (is_some (authorize_verdict p (if p then t else true)))
unfolding authorize_verdict
verdict-enabled p t = ground arith

entry-agrees :
    (o : ManifestOptions)
    → IsStore o.channel_tools
    → (provider : String)
    → ((manifest_entry o provider).provider ≡ provider)
      × ((manifest_entry o provider).enabled ≡ decision o provider)
unfolding manifest_entry authorize_provider
entry-agrees o d provider = (
  refl,
  rw
      (snapshot_allows-tool_allows o.channel_tools d o.principal.team_id (governance_scope o)
        provider)
      (verdict-enabled (policy_allows o.policy provider o.channel)
        (tool_allows o.channel_tools o.principal.team_id (governance_scope o) provider)),
)

-- Where the tools' table, if there is one, has at most one row for a key: the manifest has one entry
-- for every provider, in their order, and an entry says that its provider is enabled exactly if a
-- request for it in that channel is authorized.
pub manifest-agrees :
    (o : ManifestOptions)
    → IsStore o.channel_tools
    → (map (λ (e : ManifestEntry). e.provider) (build_tool_manifest o) ≡ o.provider_ids)
      × All (λ (e : ManifestEntry). e.enabled ≡ decision o e.provider) (build_tool_manifest o)
unfolding build_tool_manifest
manifest-agrees o d = (names o.provider_ids, entries o.provider_ids)
  where
    names :
        (ids : List String)
        → map (λ (e : ManifestEntry). e.provider) (map (manifest_entry o) ids) ≡ ids
    names [] = refl
    names (p ∷ ps) = rw (names ps) (ap (λ x. x ∷ ps) (entry-agrees o d p).0)

    entries :
        (ids : List String)
        → All
            (λ (e : ManifestEntry). e.enabled ≡ decision o e.provider)
            (map (manifest_entry o) ids)
    entries [] = tt
    entries (p ∷ ps) = (rw ((entry-agrees o d p).0) ((entry-agrees o d p).1), entries ps)
