-- ===== src/Tools.antt =====
-- src/core/tools.ts: which providers a channel has enabled. The table channel_tool is a map from its
-- primary key. Where the source sorts rows it does so for the order of its locks only.
pub mod Effect
pub mod Tests
use vouchr.Base.{
  String, ◌≡◌, ◌↔◌, Bool, true, false, ◌&&◌, List, [], ◌∷◌, ◌++◌, Option, none, some, arith,
  is_some, get_or, map, if◌then◌else◌,
}
use text.Mathlib.TextEquality.{eq_iff}
use vouchr.Base.Eq.{Eq, ◌==◌, string_eq}
use vouchr.Base.Lists.{any}
use vouchr.Base.Assoc.{lookup, insert}

pub record Key : Type 0 where
  pub team_id : String
  pub channel : String
  pub provider : String

abbrev key_beq : Key → Key → Bool
key_beq a b = a.team_id == b.team_id && (a.channel == b.channel && a.provider == b.provider)

pub key_beq_iff : (a b : Key) → (key_beq a b ≡ true) ↔ (a ≡ b)
key_beq_iff a b =
    ground
      (arith, eq_iff a.team_id b.team_id, eq_iff a.channel b.channel, eq_iff a.provider b.provider)

instance abbrev pub key_eq : Eq Key
key_eq = record { equals = key_beq; equals_iff = key_beq_iff }

abbrev pub Table : Type 0
Table = List (Key × Bool)

abbrev pub key : String → String → String → Key
key team_id channel provider = record { team_id = team_id; channel = channel; provider = provider }

-- SELECT 1 … WHERE team_id=? AND channel=?
unfoldable pub is_configured : String → String → Table → Bool
is_configured team_id channel t =
    any (λ (r : Key × Bool). r.0.team_id == team_id && r.0.channel == channel) t

unfoldable pub is_enabled : String → String → String → Table → Bool
unfolding is_configured
is_enabled team_id channel provider t =
    if is_configured team_id channel t
    then get_or (lookup (key team_id channel provider) t) false
    else false

-- SELECT provider, enabled … WHERE team_id=? AND channel=?
pub channel_rows : String → String → Table → List (String × Bool)
channel_rows team_id channel [] = []
channel_rows team_id channel ((k, on) ∷ t) =
    let rest = channel_rows team_id channel t in
    if k.team_id == team_id && k.channel == channel then (k.provider, on) ∷ rest else rest

-- new Set(rows.filter((r) => !!r.enabled).map((r) => r.provider)).has(provider)
pub is_on : String → List (String × Bool) → Bool
is_on provider rows = any (λ (r : String × Bool). r.1 && r.0 == provider) rows

unfoldable pub enabled_snapshot : String → String → Table → String → Bool
unfolding channel_rows is_on
enabled_snapshot team_id channel t provider = elim (channel_rows team_id channel t) [
  | [] ↦ false
  | r ∷ rows ↦ is_on provider (r ∷ rows)
]

pub enabled_providers : List (String × Bool) → List String
enabled_providers [] = []
enabled_providers ((p, on) ∷ rows) =
    let rest = enabled_providers rows in if on then p ∷ rest else rest

pub list_enabled : String → String → Table → List String
unfolding enabled_providers channel_rows
list_enabled team_id channel t = enabled_providers (channel_rows team_id channel t)

-- setChannelToolEnabled
pub set_channel_tool_enabled : String → String → String → Bool → Table → Table
set_channel_tool_enabled team_id channel provider enabled t =
    insert (key team_id channel provider) enabled t

-- new Map(changes): a later entry for a provider replaces an earlier one.
pub desired_from : List (String × Bool) → List (String × Bool) → List (String × Bool)
desired_from m [] = m
desired_from m ((p, on) ∷ changes) = desired_from (insert p on m) changes

pub desired : List (String × Bool) → List (String × Bool)
unfolding desired_from
desired changes = desired_from [] changes

-- INSERT … ON CONFLICT DO NOTHING
insert_absent : Key → Bool → Table → Table
insert_absent k on t = if is_some (lookup k t) then t else insert k on t

-- The rows of a first configuration: every provider, those not asked for switched off.
pub materialize : String → String → List (String × Bool) → List String → Table → Table
unfolding insert_absent
materialize team_id channel wanted [] t = t
materialize team_id channel wanted (p ∷ ps) t =
    insert_absent (key team_id channel p) (get_or (lookup p wanted) false)
      (materialize team_id channel wanted ps t)

-- INSERT … ON CONFLICT DO UPDATE, over the entries of a Map
pub upsert_all : String → String → List (String × Bool) → Table → Table
upsert_all team_id channel [] t = t
upsert_all team_id channel ((p, on) ∷ m) t =
    insert (key team_id channel p) on (upsert_all team_id channel m t)

apply_wanted : String → String → List (String × Bool) → List String → Table → Table
unfolding materialize upsert_all
apply_wanted team_id channel wanted all_providers t = upsert_all team_id channel wanted (
    if is_configured team_id channel t
    then t
    else materialize team_id channel wanted
        (all_providers ++ map (λ (r : String × Bool). r.0) wanted) t)

-- applyChannelToolsEnabled; what `afterWrite` does is the caller's
pub apply_channel_tools_enabled :
    String → String → List (String × Bool) → List String → Table → Table
unfolding apply_wanted desired
apply_channel_tools_enabled team_id channel changes all_providers t = elim changes [
  | [] ↦ t
  | c ∷ cs ↦ apply_wanted team_id channel (desired (c ∷ cs)) all_providers t
]
