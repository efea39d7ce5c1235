-- ===== src/Approval/Decision/Kept.antt =====
-- What a decision keeps of each row.
use vouchr.Base.{ℕ, ◌≡◌, refl, inl, inr, ◌&&◌, ◌||◌, Option, none, some, arith, not, Bool-cases}
use text.Mathlib.TextEquality.{eq_iff}
use vouchr.Base.Eq.{◌==◌, string_eq, option_eq, nat_eq}
use vouchr.Base.Lists.{All}
use vouchr.Base.Table.{All-delete, All-update, select-holds}
use vouchr.Interaction.{is_interaction_id}
use vouchr.Approval.{Row, Table, status_eq, pending, us_from_ms}
use vouchr.Approval.Who.{Delegation, delegation_of, ordinary, unbound, bound}
use vouchr.Approval.Decision.{
  Decision, Delegate, DecisionKind, deny, decide_audited, grant_row, deny_row, bind_row,
  is_live_pending, get, decide_read, decide_fenced, decide_locked, decide_row, decide_valid,
  approve_locked, deny_locked, bind_and_grant, grant_bound, Fenced, Validity, current,
  actor_offboarded, requester_offboarded, valid, invalidated, ineligible, asked, same_generation,
}

module _ (P : Row → Type 0) where
  -- The changes that a decision makes to a row keep the property.
  pub record KeptBy (d : Decision) (now : ℕ) : Type 0 where
    pub grants :
        (r : Row)
        → P r
        → r.id ≡ d.id
        → d.kind ≡ DecisionKind.approves
        → P (grant_row d.approved_by (us_from_ms d.ttl_ms) now r)
    pub denies : (r : Row) → P r → P (deny_row (some d.approved_by) now r)
    pub binds : (g : Delegate) (r : Row) → P r → P (bind_row g r)

  module _ (d : Decision) (now : ℕ) (k : KeptBy d now) where
    All-grant_bound :
        (r : Row) (t : Table)
        → r.id ≡ d.id
        → d.kind ≡ DecisionKind.approves
        → All P t
        → All P (grant_bound d now r t).1
    unfolding grant_bound
    All-grant_bound r t own kind h =
        All-update P (λ (x : Row). x.id == r.id) (grant_row d.approved_by (us_from_ms d.ttl_ms) now)
          (λ x px same. k.grants x px (ground (arith, eq_iff x.id r.id)) kind) t h

    All-bind_and_grant :
        (r : Row) (t : Table) (g : Delegate)
        → r.id ≡ d.id
        → d.kind ≡ DecisionKind.approves
        → All P t
        → All P (bind_and_grant d now r t g).1
    unfolding bind_and_grant
    All-bind_and_grant r t g own kind h =
        elim (Bool-cases
          (not (g.owner_id == d.approved_by) || not (is_interaction_id g.credential_id))) [
            | inl foreign ↦ rw foreign h
            | inr same ↦ elim (Bool-cases g.session_bound) [
              | inr lost ↦ rw (same, lost) h
              | inl held ↦
                  rw (same, held)
                    (All-grant_bound (bind_row g r) _ own kind (
                      All-update P (λ (x : Row). x.id == r.id) (bind_row g)
                        (λ x px same. k.binds g x px) _
                        (All-delete P
                          (λ (x : Row). x.action_key == g.action_key && not (x.id == r.id)) t h)))
            ]
          ]

    All-approve_locked :
        (r : Row) (t : Table) (e : Delegation) (g : Option Delegate)
        → r.id ≡ d.id
        → d.kind ≡ DecisionKind.approves
        → All P t
        → All P (approve_locked d now r t e g).1
    unfolding approve_locked
    All-approve_locked r t unbound (some g) own kind h = All-bind_and_grant r t g own kind h
    All-approve_locked r t unbound none own kind h = h
    All-approve_locked r t ordinary (some g) own kind h = h
    All-approve_locked r t ordinary none own kind h = All-grant_bound r t own kind h
    All-approve_locked r t bound (some g) own kind h = h
    All-approve_locked r t bound none own kind h = All-grant_bound r t own kind h

    All-decide_valid :
        (r : Row) (t : Table) (kind : DecisionKind)
        → r.id ≡ d.id
        → d.kind ≡ kind
        → All P t
        → All P (decide_valid d now r t kind).1
    unfolding decide_valid deny_locked deny
    All-decide_valid r t DecisionKind.approves own e h =
        All-approve_locked r t (delegation_of (asked r)) d.delegate own e h
    All-decide_valid r t DecisionKind.denies own e h =
        All-update P (λ (x : Row). x.id == r.id && x.status == pending)
          (deny_row (some d.approved_by) now) (λ x px hit. k.denies x px) t h

    All-decide_row :
        (r : Row) (t : Table) (v : Validity)
        → r.id ≡ d.id
        → All P t
        → All P (decide_row d now r t v).1
    unfolding decide_row
    All-decide_row r t valid own h = All-decide_valid r t d.kind own refl h
    All-decide_row r t invalidated own h = All-delete P (λ (x : Row). x.id == r.id) t h
    All-decide_row r t ineligible own h = h

    All-decide_locked :
        (t : Table) (o : Option Row)
        → ((r : Row) → o ≡ some r → r.id ≡ d.id)
        → All P t
        → All P (decide_locked d now t o).1
    unfolding decide_locked
    All-decide_locked t none own h = h
    All-decide_locked t (some r) own h = All-decide_row r t (d.validate r) (own r refl) h

    get-id : (t : Table) (r : Row) → get d.id now t ≡ some r → r.id ≡ d.id
    unfolding get is_live_pending
    get-id t r e =
        let hit = select-holds (is_live_pending d.id now) t e in ground (arith, eq_iff r.id d.id)

    All-decide_fenced :
        (p : Row) (t : Table) (f : Fenced) → All P t → All P (decide_fenced d now p t f).1
    unfolding decide_fenced
    All-decide_fenced p t current h = All-decide_locked t (get d.id now t) (get-id t) h
    All-decide_fenced p t actor_offboarded h = h
    All-decide_fenced p t requester_offboarded h = All-delete P (same_generation p) t h

    All-decide_read : (t : Table) (o : Option Row) → All P t → All P (decide_read d now t o).1
    unfolding decide_read
    All-decide_read t none h = h
    All-decide_read t (some p) h = All-decide_fenced p t d.fenced h

    pub All-decide_audited :
        (seen_at : ℕ) (seen t : Table) → All P t → All P (decide_audited d seen_at seen now t).1
    unfolding decide_audited
    All-decide_audited seen_at seen t h = elim (Bool-cases (d.actor_user_id == d.approved_by)) [
      | inl same ↦ rw same (All-decide_read t (get d.id seen_at seen) h)
      | inr other ↦ rw other h
    ]
