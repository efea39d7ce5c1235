-- ===== src/Consent/Callback.antt =====
-- consume and finalizeProvisioning of the class Consent: what a callback does with its state.
use vouchr.Base.{
  ℕ, ◌+◌, String, Bool, true, false, ◌&&◌, ◌||◌, List, Option, none, some, ltb, not, is_some,
  if◌then◌else◌,
}
use vouchr.Base.Eq.{◌==◌, string_eq, option_eq}
use vouchr.Base.Table.{select, delete, update}
use vouchr.Fence.{Marks, ProvisioningScopeKind, tombstone_blocks}
use vouchr.Consent.{
  Row, Table, ConsentRow, consent_row, is_consent_state, state_ttl_us, user_fences,
}

pub data InvalidReason : Type 0 where
  offboarded revoked : InvalidReason

-- ConsentCallbackClaim, and the error of an owner or provider that has no scopes
pub data Claim : Type 0 where
  active expired superseded : ConsentRow → Claim
  invalidated : InvalidReason → ConsentRow → Claim
  unavailable invalid : Claim

abbrev pub is_unconsumed : String → Row → Bool
is_unconsumed state r = r.state == state && not (is_some r.consumed_at)

abbrev pub time_if : Bool → Option ℕ → Option ℕ
time_if true t = t
time_if false t = none

-- raw.superseded_at > blockingTime, the later of the marks that block
abbrev pub is_after : Option ℕ → ℕ → Bool
is_after none s = true
is_after (some t) s = ltb t s

abbrev pub superseded_after : Option ℕ → Option ℕ → Option ℕ → Bool
superseded_after none off rev = false
superseded_after (some s) off rev = is_after off s && is_after rev s

unfoldable pub classify_live : Row → ℕ → Claim
classify_live r observed_at =
    if is_some r.superseded_at
    then superseded (consent_row r)
    else if ltb (r.created_at + state_ttl_us) observed_at
    then expired (consent_row r)
    else active (consent_row r)

unfoldable pub classify : Row → ℕ → Option (Option ℕ × Option ℕ) → Claim
unfolding classify_live
classify r observed_at none = invalid
classify r observed_at (some (off, rev)) =
    if (tombstone_blocks off r.created_at || tombstone_blocks rev r.created_at)
      && not (
          superseded_after r.superseded_at (time_if (tombstone_blocks off r.created_at) off)
            (time_if (tombstone_blocks rev r.created_at) rev))
    then (if tombstone_blocks off r.created_at
        then invalidated offboarded (consent_row r)
        else invalidated revoked (consent_row r))
    else classify_live r observed_at

abbrev pub is_finalizable : ConsentRow → Row → Bool
is_finalizable c r =
    r.state == c.state
    && r.team_id == c.identity.team_id
    && r.user_id == c.identity.user_id
    && r.provider == c.provider
    && not (is_some r.superseded_at)
    && is_some r.consumed_at

unfoldable pub finalize_absent : ConsentRow → Option (Option ℕ × Option ℕ) → Option (Option ℕ)
finalize_absent c none = none
finalize_absent c (some (off, rev)) = some (
    if tombstone_blocks off c.created_at || tombstone_blocks rev c.created_at
    then some c.created_at
    else none)

module _ (scope_key : ProvisioningScopeKind → List String → String) where
  unfoldable pub consume_on : String → ℕ → ℕ → Marks → Table → Option Row → Claim × Table
  unfolding classify
  consume_on state now observed_at m t none = (unavailable, t)
  consume_on state now observed_at m t (some r) = (
    classify r observed_at (user_fences scope_key (consent_row r).identity r.provider m),
    update (is_unconsumed state) (λ x. record x { consumed_at = some now }) t,
  )

  -- The marks are read after the statement that spends the state.
  unfoldable pub consume : String → ℕ → ℕ → Marks → Table → Claim × Table
  unfolding consume_on
  consume state now observed_at m t =
      if is_consent_state state
      then consume_on state now observed_at m t (select (is_unconsumed state) t)
      else (unavailable, t)

  unfoldable pub finalize_on : ConsentRow → Marks → Table → Option Row → Option (Option ℕ) × Table
  unfolding finalize_absent
  finalize_on c m t (some r) = (some (some r.created_at), delete (is_finalizable c) t)
  finalize_on c m t none = (finalize_absent c (user_fences scope_key c.identity c.provider m), t)

  -- The issuance of a callback's write; the outer none is an error.
  unfoldable pub finalize_provisioning : ConsentRow → Marks → Table → Option (Option ℕ) × Table
  unfolding finalize_on
  finalize_provisioning c m t = finalize_on c m t (select (is_finalizable c) t)
