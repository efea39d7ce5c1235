-- ===== src/Approval/Grant/Kept.antt =====
-- What the use of a grant keeps of each row.
use vouchr.Base.{ℕ, String, Option, none, some}
use vouchr.Base.Eq.{◌==◌, string_eq, option_eq, nat_eq}
use vouchr.Base.Lists.{All}
use vouchr.Base.Table.{All-delete}
use vouchr.Approval.{Columns, Row, Table, status_eq, once, thread, ApprovalGrant}
use vouchr.Approval.Grant.{
  Check, consume_audited, consume_id, live_grant, spend_found, spend_checked, is_spendable, passed,
  failed, offboarded,
}

module _ (P : Row → Type 0) where
  pub All-consume_id :
      (id : String) (g : ApprovalGrant) (now : ℕ) (t : Table)
      → All P t
      → All P (consume_id id g now t).1
  unfolding consume_id
  All-consume_id id once now t h = All-delete P (is_spendable id once now) t h
  All-consume_id id thread now t h = h

  pub All-consume_audited :
      (action_key : String) (c : Columns) (check : Row → Check) (now later : ℕ) (t : Table)
      → All P t
      → All P (consume_audited action_key c check now later t).1
  unfolding consume_audited spend_found spend_checked
  All-consume_audited action_key c check now later t h = go (live_grant action_key c now t)
    where
      checked : (r : Row) (v : Check) → All P (spend_checked c.grant later t r v).1
      checked r passed = All-consume_id r.id c.grant later t h
      checked r failed = h
      checked r offboarded = All-delete P (λ (x : Row). x.id == r.id) t h

      go : (o : Option Row) → All P (spend_found c.grant later t check o).1
      go none = h
      go (some r) = checked r (check r)
