-- ===== src/ChannelConfig.antt =====
-- src/core/channelConfig.ts: whose credential a channel's agent uses, and which channels may own one.
-- The table channel_config is a map from its primary key.
pub mod Snapshot
use vouchr.Base.{
  String, Bool, true, false, ◌&&◌, ◌||◌, List, [], ◌∷◌, Option, none, some, get_or, if◌then◌else◌,
}
use vouchr.Base.Eq.{◌==◌, string_eq}
use vouchr.Base.Assoc.{lookup, insert}
use vouchr.Tools.{Key, key, key_eq}

pub data ChannelIdentity : Type 0 where
  person channel : ChannelIdentity

-- The facts of conversations.info; a fact that is absent is false.
pub record ChannelInfo : Type 0 where
  pub is_ext_shared : Bool
  pub is_shared : Bool
  pub is_pending_ext_shared : Bool
  pub is_im : Bool
  pub is_mpim : Bool
  pub is_archived : Bool

pub data Ineligible : Type 0 where
  unverified externally_shared direct_message archived : Ineligible

unfoldable pub channel_ineligible_reason : Option ChannelInfo → Option Ineligible
channel_ineligible_reason none = some unverified
channel_ineligible_reason (some i) =
    if i.is_ext_shared || i.is_shared || i.is_pending_ext_shared
    then some externally_shared
    else if i.is_im || i.is_mpim
    then some direct_message
    else if i.is_archived
    then some archived
    else none

abbrev pub Identities : Type 0
Identities = List (Key × ChannelIdentity)

unfoldable pub get_identity : String → String → String → Identities → ChannelIdentity
get_identity team_id chan provider t =
    get_or (lookup (key team_id chan provider) t) ChannelIdentity.person

pub identity_rows : String → String → Identities → List (String × ChannelIdentity)
identity_rows team_id chan [] = []
identity_rows team_id chan ((k, i) ∷ t) =
    let rest = identity_rows team_id chan t in
    if k.team_id == team_id && k.channel == chan then (k.provider, i) ∷ rest else rest

-- new Map(rows): a later row would replace an earlier one
pub map_of :
    List (String × ChannelIdentity)
    → List (String × ChannelIdentity)
    → List (String × ChannelIdentity)
map_of m [] = m
map_of m ((p, i) ∷ rows) = map_of (insert p i m) rows

unfoldable pub identity_snapshot : String → String → Identities → String → ChannelIdentity
unfolding identity_rows map_of
identity_snapshot team_id chan t provider =
    get_or (lookup provider (map_of [] (identity_rows team_id chan t))) ChannelIdentity.person

-- [WRITE_CHANNEL_IDENTITY], where its beforeWrite hook does not throw
pub write_channel_identity : String → String → String → ChannelIdentity → Identities → Identities
write_channel_identity team_id chan provider identity t =
    insert (key team_id chan provider) identity t
