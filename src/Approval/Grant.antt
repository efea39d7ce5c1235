-- ===== src/Approval/Grant.antt =====
-- The use of a grant and the end of rows: liveGrantOn, consumeIdOn, consumeAudited, revokeForUser,
-- sweepExpired and purgeApprovalsForOwner of src/core/approval.ts, and the purge of a channel of
-- src/core/interaction.ts.
pub mod Kept
pub mod Exact
use vouchr.Base.{
  ℕ, String, Bool, true, false, ◌&&◌, List, [], ◌∷◌, Option, none, some, leb, ltb, not, is_some,
  if◌then◌else◌,
}
use vouchr.Base.Eq.{◌==◌, string_eq}
use vouchr.Base.Table.{select, select_all, delete}
use vouchr.Owner.{OwnerKind, kind_eq, Owner}
use vouchr.Approval.{
  Columns, Row, Table, status_eq, granted, ApprovalGrant, grant_eq, once, thread, match_sql,
}

unfoldable pub is_live_grant : String → Columns → ℕ → Row → Bool
unfolding match_sql
is_live_grant action_key k now r =
    r.action_key == action_key
    && match_sql r.columns k
    && r.status == granted
    && ltb now r.expires_at

-- liveGrantOn
unfoldable pub live_grant : String → Columns → ℕ → Table → Option Row
unfolding is_live_grant
live_grant action_key k now t = select (is_live_grant action_key k now) t

unfoldable pub is_spendable : String → ApprovalGrant → ℕ → Row → Bool
is_spendable id grant now r =
    r.id == id && r.status == granted && r.columns.grant == grant && ltb now r.expires_at

-- consumeIdOn: the row that was spent, and the table after it
unfoldable pub consume_id : String → ApprovalGrant → ℕ → Table → Option Row × Table
unfolding is_spendable
consume_id id once now t =
    (select (is_spendable id once now) t, delete (is_spendable id once now) t)
consume_id id thread now t = (select (is_spendable id thread now) t, t)

-- consumeOn: the candidate is read at one time and spent at another. Nothing else writes to the table in
-- between; the spend tests the status and the expiry again.
spend_candidate : ApprovalGrant → ℕ → Table → Option Row → Option Row × Table
unfolding consume_id
spend_candidate grant now t none = (none, t)
spend_candidate grant now t (some c) = consume_id c.id grant now t

unfoldable pub consume_on : String → Columns → ℕ → ℕ → Table → Option Row × Table
unfolding spend_candidate
consume_on action_key k now later t =
    spend_candidate k.grant later t (live_grant action_key k now t)

-- What the transaction around a spend found: the fences of the requester and of a bound member, and
-- the validation of the action.
pub data Check : Type 0 where
  passed failed offboarded : Check

pub data Spent : Type 0 where
  nothing : Spent
  spent : Row → Spent
  authorization_changed : Spent

spend_checked : ApprovalGrant → ℕ → Table → Row → Check → Spent × Table
unfolding consume_id
spend_checked grant now t c passed =
    let r = consume_id c.id grant now t in (elim r.0 [ none ↦ nothing | some row ↦ spent row ], r.1)
spend_checked grant now t c failed = (authorization_changed, t)
spend_checked grant now t c offboarded = (nothing, delete (λ (r : Row). r.id == c.id) t)

spend_found : ApprovalGrant → ℕ → Table → (Row → Check) → Option Row → Spent × Table
unfolding spend_checked
spend_found grant now t check none = (nothing, t)
spend_found grant now t check (some c) = spend_checked grant now t c (check c)

-- consumeAudited, within its transaction: the audit record is written exactly if the row is spent.
unfoldable pub consume_audited : String → Columns → (Row → Check) → ℕ → ℕ → Table → Spent × Table
unfolding spend_found
consume_audited action_key k check now later t =
    spend_found k.grant later t check (live_grant action_key k now t)

unfoldable pub revoke_for_user : String → String → Table → Table
revoke_for_user team_id user_id t =
    delete (λ (r : Row). r.columns.team_id == team_id && r.columns.user_id == user_id) t

-- sweepExpired: the rows that it returns, and the table after it
unfoldable pub sweep_expired : ℕ → Table → Table × Table
sweep_expired now t =
    (select_all (λ (r : Row). ltb r.expires_at now) t, delete (λ (r : Row). ltb r.expires_at now) t)

unfoldable pub purge_approvals_for_owner : Owner → String → Table → Table
purge_approvals_for_owner o provider t =
    delete
      (λ (r : Row).
        r.columns.team_id == o.team_id
        && r.columns.owner_kind == o.kind
        && r.columns.owner_id == o.id
        && r.columns.provider == provider)
      t

unfoldable pub purge_channel : String → String → String → Table → Table
purge_channel team_id channel provider t =
    delete
      (λ (r : Row).
        r.columns.team_id == team_id
        && r.columns.channel == channel
        && r.columns.provider == provider)
      t
