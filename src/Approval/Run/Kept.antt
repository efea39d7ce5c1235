-- ===== src/Approval/Run/Kept.antt =====
-- What every step keeps of each row: a property of a row that its own changes keep holds of all rows
-- after any steps.
use vouchr.Base.{
  ◌≡◌, Bool, true, false, ◌&&◌, List, [], ◌∷◌, none, some, arith, not, is_some, ltb, if◌then◌else◌,
}
use text.Mathlib.TextEquality.{eq_iff}
use vouchr.Base.Eq.{◌==◌, string_eq, option_eq, nat_eq}
use vouchr.Base.Lists.{All}
use vouchr.Base.Table.{All-delete, All-update}
use vouchr.Approval.{Row, Table, status_eq, pending, us_from_ms}
use vouchr.Approval.Request.{
  insert_request, may_revive, revive, fresh_row, adopt_statement, with_statement,
}
use vouchr.Approval.Delivery.{
  take_lease, may_claim, lease, confirm_delivery, abandon_delivery, holds_lease,
}
use vouchr.Approval.Run.{
  Step, inserts, adopts, claims, confirms, abandons, discards, approves, denies, decides, consumes,
  revokes, sweeps, purges_owner, purges_channel, apply, run,
}
use vouchr.Approval.Decision.{discard_pending, approve, deny, grant_row, deny_row, is_live_pending}
use vouchr.Approval.Decision.Kept.{KeptBy, All-decide_audited}
use vouchr.Approval.Grant.{revoke_for_user, sweep_expired, purge_approvals_for_owner, purge_channel}
use vouchr.Approval.Grant.Kept.{All-consume_audited}

module _ (P : Row → Type 0) where
  All-if : (b : Bool) (x y : Table) → All P x → All P y → All P (if b then x else y)
  All-if true x y p q = p
  All-if false x y p q = q

  All-pair :
      (b c : Bool) (x y : Table)
      → All P x
      → All P y
      → All P (if◌then◌else◌ {A = Bool × Table} b (c, x) (true, y)).1
  All-pair true c x y p q = p
  All-pair false c x y p q = q

  -- That the changes of one step to single rows keep the property.
  abbrev pub Keeps : Step → Type 0
  Keeps (inserts i now) = P (fresh_row i now) × ((r : Row) → P r → P (revive i now r))
  Keeps (adopts s id) = (r : Row) → P r → P (with_statement s r)
  Keeps (claims id audience redeliver token now) = (r : Row) → P r → P (lease token audience now r)
  Keeps (confirms id token audience now) =
      (r : Row)
      → P r
      → P (record r {
        delivered_at = some now;
        delivery_token = none;
        delivery_lease_expires_at = 0;
      })
  Keeps (abandons id token audience remove) =
      (r : Row) → P r → P (record r { delivery_token = none; delivery_lease_expires_at = 0 })
  Keeps (approves id by ttl_ms now) =
      (r : Row) → P r → r.id ≡ id → P (grant_row by (us_from_ms ttl_ms) now r)
  Keeps (denies id by now) = (r : Row) → P r → P (deny_row by now r)
  Keeps (decides d seen_at seen now) = KeptBy P d now
  Keeps _ = Unit

  pub All-apply : (s : Step) (t : Table) → Keeps s → All P t → All P (apply s t)
  unfolding apply insert_request adopt_statement take_lease confirm_delivery abandon_delivery
      discard_pending approve deny revoke_for_user sweep_expired purge_approvals_for_owner
      purge_channel is_live_pending
  All-apply (inserts i now) t k h =
      All-pair _ _ _ (fresh_row i now ∷ t)
        (All-update P (λ (r : Row). r.action_key == i.action_key && may_revive i now r)
          (revive i now) (λ r p hit. k.1 r p) t h)
        (k.0, h)
  All-apply (adopts s id) t k h =
      All-if _ _ _
        (All-update P
          (λ (r : Row). r.id == id && r.status == pending && not (is_some r.delivered_at))
          (with_statement s) (λ r p hit. k r p) t h)
        h
  All-apply (claims id audience redeliver token now) t k h =
      All-update P (may_claim id audience redeliver now) (lease token audience now)
        (λ r p hit. k r p) t h
  All-apply (confirms id token audience now) t k h =
      All-update P (λ (r : Row). holds_lease id token audience r && ltb now r.expires_at)
        (λ r. record r {
          delivered_at = some now;
          delivery_token = none;
          delivery_lease_expires_at = 0;
        })
        (λ r p hit. k r p) t h
  All-apply (abandons id token audience true) t k h =
      All-delete P (holds_lease id token audience) t h
  All-apply (abandons id token audience false) t k h =
      All-update P (holds_lease id token audience)
        (λ r. record r { delivery_token = none; delivery_lease_expires_at = 0 }) (λ r p hit. k r p)
        t h
  All-apply (discards id) t k h = All-delete P (λ (r : Row). r.id == id && r.status == pending) t h
  All-apply (approves id by ttl_ms now) t k h =
      All-update P (is_live_pending id now) (grant_row by (us_from_ms ttl_ms) now)
        (λ r p hit. k r p (ground (arith, eq_iff r.id id))) t h
  All-apply (denies id by now) t k h =
      All-update P (λ (r : Row). r.id == id && r.status == pending) (deny_row by now)
        (λ r p hit. k r p) t h
  All-apply (decides d seen_at seen now) t k h = All-decide_audited P d now k seen_at seen t h
  All-apply (consumes action_key c check now later) t k h =
      All-consume_audited P action_key c check now later t h
  All-apply (revokes team_id user_id) t k h =
      All-delete P (λ (r : Row). r.columns.team_id == team_id && r.columns.user_id == user_id) t h
  All-apply (sweeps now) t k h = All-delete P (λ (r : Row). ltb r.expires_at now) t h
  All-apply (purges_owner o provider) t k h = All-delete P _ t h
  All-apply (purges_channel team_id channel provider) t k h = All-delete P _ t h

  pub All-run : (steps : List Step) (t : Table) → All Keeps steps → All P t → All P (run steps t)
  unfolding run
  All-run [] t k h = h
  All-run (s ∷ steps) t (k, ks) h = All-run steps (apply s t) ks (All-apply s t k h)
