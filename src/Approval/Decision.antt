-- ===== src/Approval/Decision.antt =====
-- The decision on a request, and what its requester reads of it: get, discardPending, approve, denyOn,
-- decideAudited and authorizationStatus of src/core/approval.ts, on ids of the right form.
pub mod Kept
use vouchr.Base.{
  ℕ, ◌+◌, String, Bool, true, false, ◌&&◌, ◌||◌, List, [], ◌∷◌, Option, none, some, leb, ltb, not,
  is_some, if◌then◌else◌,
}
use vouchr.Base.Eq.{◌==◌, string_eq, option_eq, nat_eq}
use vouchr.Base.Table.{select, update, delete}
use vouchr.Owner.{user}
use vouchr.Interaction.{is_interaction_id}
use vouchr.Approval.{
  Columns, Row, Table, Status, status_eq, pending, granted, denied, pending_interaction_ttl_us,
  us_from_ms,
}
use vouchr.Approval.Who.{Asked, Delegation, ordinary, unbound, bound, delegation_of}

unfoldable pub is_live_pending : String → ℕ → Row → Bool
is_live_pending id now r = r.id == id && r.status == pending && ltb now r.expires_at

unfoldable pub get : String → ℕ → Table → Option Row
unfolding is_live_pending
get id now t = select (is_live_pending id now) t

unfoldable pub discard_pending : String → Table → Bool × Table
discard_pending id t =
    let p = λ (r : Row). r.id == id && r.status == pending in (is_some (select p t), delete p t)

abbrev pub grant_row : String → ℕ → ℕ → Row → Row
grant_row by ttl_us now r = record r {
  status = granted;
  approved_by = some by;
  expires_at = now + ttl_us;
}

unfoldable pub approve : String → String → ℕ → ℕ → Table → Bool × Table
unfolding is_live_pending
approve id by ttl_ms now t = (
  is_some (select (is_live_pending id now) t),
  update (is_live_pending id now) (grant_row by (us_from_ms ttl_ms) now) t,
)

abbrev pub deny_row : Option String → ℕ → Row → Row
deny_row by now r = record r {
  status = denied;
  approved_by = by;
  expires_at = now + pending_interaction_ttl_us;
}

-- denyOn
unfoldable pub deny : String → Option String → ℕ → Table → Bool × Table
deny id by now t =
    let p = λ (r : Row). r.id == id && r.status == pending in
    (is_some (select p t), update p (deny_row by now) t)

pub data AuthorizationStatus : Type 0 where
  waiting approved refused expired : AuthorizationStatus

abbrev status_at : Status → Bool → AuthorizationStatus
status_at denied live = refused
status_at granted true = approved
status_at pending true = waiting
status_at _ false = expired

unfoldable pub authorization_status :
    String → String → String → ℕ → Table → Option AuthorizationStatus
authorization_status id team_id user_id now t =
    elim (select
      (λ (r : Row). r.id == id && r.columns.team_id == team_id && r.columns.user_id == user_id) t) [
        | none ↦ none
        | some r ↦ some (status_at r.status (ltb now r.expires_at))
      ]

pub data Validity : Type 0 where
  valid invalidated ineligible : Validity

pub data DecisionKind : Type 0 where
  approves denies : DecisionKind

-- Whether the fences of actor and requester hold, and which fails first.
pub data Fenced : Type 0 where
  current actor_offboarded requester_offboarded : Fenced

pub record Delegate : Type 0 where
  pub owner_id : String
  pub credential_id : String
  -- the key of the action under the member's credential
  pub action_key : String
  -- whether bindWorkerSession of src/core/delegation.ts bound the session
  pub session_bound : Bool

pub record Decision : Type 0 where
  pub id : String
  pub kind : DecisionKind
  pub approved_by : String
  pub actor_user_id : String
  pub ttl_ms : ℕ
  pub fenced : Fenced
  -- the validator's answer for a row
  pub validate : Row → Validity
  pub delegate : Option Delegate

-- An audit record, with the row that its metadata are of.
pub data AuditEvent : Type 0 where
  audit_approved audit_denied : Row → String → AuditEvent

pub data DecisionError : Type 0 where
  wrong_actor wrong_delegate foreign_delegate : DecisionError

pub data DecisionResult : Type 0 where
  decided : Row → AuditEvent → DecisionResult
  was_stale was_invalidated was_ineligible actor_stale : DecisionResult
  failed : DecisionError → DecisionResult

abbrev pub asked : Row → Asked
asked r = record {
  delegated = r.columns.delegated;
  owner_kind = r.columns.owner_kind;
  owner_id = r.columns.owner_id;
  user_id = r.columns.user_id;
  governable_channel =
      if r.columns.governable_channel == "" then none else some r.columns.governable_channel;
}

grant_bound : Decision → ℕ → Row → Table → DecisionResult × Table
grant_bound d now r t =
    let after = grant_row d.approved_by (us_from_ms d.ttl_ms) now r in
    (
      decided after (audit_approved after d.approved_by),
      update (λ (x : Row). x.id == r.id) (grant_row d.approved_by (us_from_ms d.ttl_ms) now) t,
    )

abbrev pub bind_row : Delegate → Row → Row
bind_row g r = record r {
  action_key = g.action_key;
  columns = record r.columns {
    owner_kind = user;
    owner_id = g.owner_id;
    credential_id = g.credential_id;
  };
}

bind_and_grant : Decision → ℕ → Row → Table → Delegate → DecisionResult × Table
unfolding grant_bound
bind_and_grant d now r t g =
    if not (g.owner_id == d.approved_by) || not (is_interaction_id g.credential_id)
    then (failed foreign_delegate, t)
    else if not g.session_bound
    then (was_stale, t)
    else (let superseded =
          delete (λ (x : Row). x.action_key == g.action_key && not (x.id == r.id)) t in
        grant_bound d now (bind_row g r)
          (update (λ (x : Row). x.id == r.id) (bind_row g) superseded))

approve_locked : Decision → ℕ → Row → Table → Delegation → Option Delegate → DecisionResult × Table
unfolding bind_and_grant
approve_locked d now r t unbound (some g) = bind_and_grant d now r t g
approve_locked d now r t unbound none = (failed wrong_delegate, t)
approve_locked d now r t _ (some g) = (failed wrong_delegate, t)
approve_locked d now r t _ none = grant_bound d now r t

deny_locked : Decision → ℕ → Row → Table → DecisionResult × Table
deny_locked d now r t =
    let after = deny_row (some d.approved_by) now r in
    (decided after (audit_denied r d.approved_by), (deny r.id (some d.approved_by) now t).1)

decide_valid : Decision → ℕ → Row → Table → DecisionKind → DecisionResult × Table
unfolding approve_locked deny_locked
decide_valid d now r t approves = approve_locked d now r t (delegation_of (asked r)) d.delegate
decide_valid d now r t denies = deny_locked d now r t

decide_row : Decision → ℕ → Row → Table → Validity → DecisionResult × Table
unfolding decide_valid
decide_row d now r t valid = decide_valid d now r t d.kind
decide_row d now r t invalidated = (was_invalidated, delete (λ (x : Row). x.id == r.id) t)
decide_row d now r t ineligible = (was_ineligible, t)

decide_locked : Decision → ℕ → Table → Option Row → DecisionResult × Table
unfolding decide_row
decide_locked d now t none = (was_stale, t)
decide_locked d now t (some r) = decide_row d now r t (d.validate r)

-- DELETE of the very generation that was read before the lock.
abbrev pub same_generation : Row → Row → Bool
same_generation p r =
    r.id == p.id
    && r.status == pending
    && r.columns.team_id == p.columns.team_id
    && r.columns.user_id == p.columns.user_id
    && r.created_at == p.created_at

decide_fenced : Decision → ℕ → Row → Table → Fenced → DecisionResult × Table
unfolding decide_locked
decide_fenced d now p t current = decide_locked d now t (get d.id now t)
decide_fenced d now p t actor_offboarded = (actor_stale, t)
decide_fenced d now p t requester_offboarded = (was_invalidated, delete (same_generation p) t)

decide_read : Decision → ℕ → Table → Option Row → DecisionResult × Table
unfolding decide_fenced
decide_read d now t none = (was_stale, t)
decide_read d now t (some p) = decide_fenced d now p t d.fenced

-- decideAudited: `seen` is the table at its first read, outside the transaction, at `seen_at`.
unfoldable pub decide_audited : Decision → ℕ → Table → ℕ → Table → DecisionResult × Table
unfolding decide_read
decide_audited d seen_at seen now t =
    if d.actor_user_id == d.approved_by
    then decide_read d now t (get d.id seen_at seen)
    else (failed wrong_actor, t)
