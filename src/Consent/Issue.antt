-- ===== src/Consent/Issue.antt =====
-- beginFenced of the class Consent: a state is issued, or the pending one is given again.
use vouchr.Base.{
  ℕ, ◌+◌, String, Bool, ◌&&◌, ◌||◌, List, ◌∷◌, Option, none, some, leb, ltb, not, is_some,
  if◌then◌else◌,
}
use vouchr.Base.Eq.{◌==◌, string_eq, option_eq}
use vouchr.Base.Table.{select, update}
use vouchr.Owner.{SlackIdentity}
use vouchr.Fence.{Marks, ProvisioningScopeKind, tombstone_blocks}
use vouchr.Consent.{Row, Table, is_current, supersede, state_ttl_us, user_fences}

abbrev pub new_row : SlackIdentity → String → Option String → ℕ → String → String → Row
new_row i provider channel issued_at state verifier = record {
  state = state;
  enterprise_id = i.enterprise_id;
  team_id = i.team_id;
  user_id = i.user_id;
  provider = provider;
  channel = channel;
  pkce_verifier = verifier;
  created_at = issued_at;
  consumed_at = none;
  superseded_at = none;
  delivery_token = none;
  delivery_lease_expires_at = 0;
  delivered_at = none;
  slack_verified_at = none;
}

-- What beginning a request takes: the identity, the provider, the channel, the issuance, the new state
-- and verifier, the time of its read and of its write.
pub record Begin : Type 0 where
  pub identity : SlackIdentity
  pub provider : String
  pub channel : Option String
  pub issued_at : ℕ
  pub state : String
  pub verifier : String
  pub observed_at : ℕ
  pub now : ℕ

-- The state that the prompt carries, nothing where the setup is invalid, or an error.
pub data Begun : Type 0 where
  prompt : String → Begun
  refused failed : Begun

unfoldable pub insert_new : Begin → Table → Begun × Table
insert_new b t =
    (prompt b.state, new_row b.identity b.provider b.channel b.issued_at b.state b.verifier ∷ t)

unfoldable pub is_reusable : Begin → Option ℕ → Option ℕ → Row → Bool
is_reusable b offboarded_at revoked_at r =
    r.enterprise_id == b.identity.enterprise_id
    && r.channel == b.channel
    && not (is_some r.consumed_at)
    && leb b.observed_at (r.created_at + state_ttl_us)
    && not (tombstone_blocks offboarded_at r.created_at)
    && not (tombstone_blocks revoked_at r.created_at)

unfoldable pub begin_on : Begin → Option ℕ → Option ℕ → Table → Option Row → Begun × Table
unfolding is_reusable insert_new
begin_on b offboarded_at revoked_at t none =
    if ltb (b.issued_at + state_ttl_us) b.observed_at then (refused, t) else insert_new b t
begin_on b offboarded_at revoked_at t (some r) =
    if is_reusable b offboarded_at revoked_at r
    then (prompt r.state, t)
    else if ltb b.issued_at r.created_at || ltb (b.issued_at + state_ttl_us) b.observed_at
    then (refused, t)
    else insert_new b
        (update (λ x. x.state == r.state && not (is_some x.superseded_at)) (supersede b.now) t)

module _ (scope_key : ProvisioningScopeKind → List String → String) where
  unfoldable pub begin_with : Begin → Table → Option (Option ℕ × Option ℕ) → Begun × Table
  unfolding begin_on
  begin_with b t none = (failed, t)
  begin_with b t (some (offboarded_at, revoked_at)) =
      if tombstone_blocks offboarded_at b.issued_at || tombstone_blocks revoked_at b.issued_at
      then (refused, t)
      else begin_on b offboarded_at revoked_at t (select (is_current b.identity b.provider) t)

  unfoldable pub begin_fenced : Begin → Marks → Table → Begun × Table
  unfolding begin_with
  begin_fenced b m t = begin_with b t (user_fences scope_key b.identity b.provider m)
