-- ===== src/Authz/Scope.antt =====
-- Where per-channel governance reaches.
use vouchr.Base.{String, ◌≡◌, refl, ◌↔◌, ◌⊎◌, inl, inr, true, Option, none, some, arith, Bool-cases}
use text.Mathlib.TextEquality.{eq_iff}
use vouchr.Base.Eq.{string_eq}
use vouchr.Base.Text.{starts_with}
use vouchr.Conversation.{ConversationType, channel, group, im, mpim, app_home}
use vouchr.Authz.{governance_channel_of, is_governance_channel_scope}

-- A channel is exempt from its own governance only as a direct message by its id, or as a group
-- message by its verified type and its id together.
pub governance-exempt_iff :
    (c : String) (type : Option ConversationType)
    → (governance_channel_of (some c) type ≡ none)
      ↔ ((starts_with c "D" ≡ true) ⊎ ((type ≡ some mpim) × (starts_with c "G" ≡ true)))
unfolding governance_channel_of
governance-exempt_iff c none = ground arith
governance-exempt_iff c (some channel) = ground arith
governance-exempt_iff c (some group) = ground arith
governance-exempt_iff c (some im) = ground arith
governance-exempt_iff c (some mpim) = ground arith
governance-exempt_iff c (some app_home) = ground arith

-- The scope that is derived for a channel is the channel itself or none, and passes the check that a
-- stored or forwarded scope must pass.
pub governance-scope_valid :
    (c : Option String) (type : Option ConversationType)
    → is_governance_channel_scope c (governance_channel_of c type) ≡ true
unfolding governance_channel_of is_governance_channel_scope
governance-scope_valid none type = refl
governance-scope_valid (some c) type = elim (Bool-cases (starts_with c "D")) [
  | inl dm ↦ ground (arith, eq_iff c c)
  | inr other ↦ ground (arith, eq_iff c c)
]
