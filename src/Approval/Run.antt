-- ===== src/Approval/Run.antt =====
-- The table of approvals under everything that writes to it, in any order: each database statement
-- of src/core/approval.ts, or each transaction that locks its row, is a step.
pub mod Kept
pub mod Once
pub mod Granted
pub mod Lease
use vouchr.Base.{ℕ, String, Bool, List, [], ◌∷◌, Option}
use vouchr.Owner.{Owner}
use vouchr.Approval.{Columns, Row, Table}
use vouchr.Approval.Request.{Inserted, ApprovalStatement, insert_request, adopt_statement}
use vouchr.Approval.Delivery.{take_lease, confirm_delivery, abandon_delivery}
use vouchr.Approval.Decision.{Decision, discard_pending, approve, deny, decide_audited}
use vouchr.Approval.Grant.{
  Check, consume_audited, revoke_for_user, sweep_expired, purge_approvals_for_owner, purge_channel,
}

pub data Step : Type 0 where
  inserts : Inserted → ℕ → Step
  adopts : ApprovalStatement → String → Step
  -- id, audience, redelivery, token, time
  claims : String → String → Bool → String → ℕ → Step
  confirms : String → String → String → ℕ → Step
  abandons : String → String → String → Bool → Step
  discards : String → Step
  -- id, approver, ttl in milliseconds, time
  approves : String → String → ℕ → ℕ → Step
  denies : String → Option String → ℕ → Step
  -- with the time and the table of its first read
  decides : Decision → ℕ → Table → ℕ → Step
  consumes : String → Columns → (Row → Check) → ℕ → ℕ → Step
  revokes : String → String → Step
  sweeps : ℕ → Step
  purges_owner : Owner → String → Step
  purges_channel : String → String → String → Step

unfoldable pub apply : Step → Table → Table
apply (inserts i now) t = (insert_request i now t).1
apply (adopts s id) t = adopt_statement s id t
apply (claims id audience redeliver token now) t = (take_lease id audience redeliver token now t).1
apply (confirms id token audience now) t = (confirm_delivery id token audience now t).1
apply (abandons id token audience remove) t = (abandon_delivery id token audience remove t).1
apply (discards id) t = (discard_pending id t).1
apply (approves id by ttl_ms now) t = (approve id by ttl_ms now t).1
apply (denies id by now) t = (deny id by now t).1
apply (decides d seen_at seen now) t = (decide_audited d seen_at seen now t).1
apply (consumes action_key k check now later) t = (consume_audited action_key k check now later t).1
apply (revokes team_id user_id) t = revoke_for_user team_id user_id t
apply (sweeps now) t = (sweep_expired now t).1
apply (purges_owner o provider) t = purge_approvals_for_owner o provider t
apply (purges_channel team_id channel provider) t = purge_channel team_id channel provider t

unfoldable pub run : List Step → Table → Table
run [] t = t
run (s ∷ steps) t = run steps (apply s t)
