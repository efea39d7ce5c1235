-- ===== src/Approval/Run/Granted.antt =====
-- A grant has an approver, and is of the very action that is asked for.
use vouchr.Base.{ℕ, ◌<◌, String, ◌≡◌, refl, inl, inr, true, List, [], ◌∷◌, some, arith}
use text.Mathlib.TextEquality.{eq_iff}
use vouchr.Base.Eq.{string_eq}
use vouchr.Base.Lists.{All, Any}
use vouchr.Base.Table.{select, All-select, select-holds}
use vouchr.Approval.{
  Row, Table, ApprovalGrant, once, thread, grant_eq, status_eq, status_beq_iff, granted,
}
use vouchr.Approval.Decision.{DecisionKind}
use vouchr.Approval.Grant.{consume_id, is_spendable}
use vouchr.Approval.Run.{
  Step, inserts, adopts, claims, confirms, abandons, discards, approves, denies, decides, consumes,
  revokes, sweeps, purges_owner, purges_channel, run,
}
use vouchr.Approval.Run.Kept.{Keeps, All-run}

-- The step is the person's approval of the row with the id.
abbrev pub IsApproval : String → String → Step → Type 0
IsApproval id by (approves i b ttl now) = (i ≡ id) × (b ≡ by)
IsApproval id by (decides d seen_at seen now) =
    (d.id ≡ id) × (d.approved_by ≡ by) × (d.kind ≡ DecisionKind.approves)
IsApproval id by _ = ⊥

-- A granted row names its approver, who is in the log.
abbrev pub IsLogged : (String → String → Type 0) → Row → Type 0
IsLogged log r = r.status ≡ granted → (by : String) × (r.approved_by ≡ some by) × log r.id by

abbrev pub LoggedIn : (String → String → Type 0) → List Step → Type 0
LoggedIn log steps = (id by : String) → Any (IsApproval id by) steps → log id by

IsLogged-Keeps :
    (log : String → String → Type 0) (steps : List Step)
    → LoggedIn log steps
    → All (Keeps (IsLogged log)) steps
IsLogged-Keeps log [] f = tt
IsLogged-Keeps log (s ∷ steps) f =
    (one s (λ id by a. f id by (inl a)), IsLogged-Keeps log steps (λ id by a. f id by (inr a)))
  where
    one : (s : Step) → ((id by : String) → IsApproval id by s → log id by) → Keeps (IsLogged log) s
    one (inserts i now) f = ((λ e. absurd (ground arith)), (λ r h e. absurd (ground arith)))
    one (adopts s i) f = λ r h. h
    one (claims i a rd token now) f = λ r h. h
    one (confirms i token a now) f = λ r h. h
    one (abandons i token a remove) f = λ r h. h
    one (discards i) f = tt
    one (approves i by ttl now) f = λ r h own e. (by, refl, f r.id by (ground arith, refl))
    one (denies i by now) f = λ r h e. absurd (ground arith)
    one (decides d seen_at seen now) f = record {
      grants =
          λ r h own kind e. (d.approved_by, refl, f r.id d.approved_by (ground arith, refl, kind));
      denies = λ r h e. absurd (ground arith);
      binds = λ g r h. h;
    }
    one (consumes a k check now later) f = tt
    one (revokes team user) f = tt
    one (sweeps now) f = tt
    one (purges_owner o p) f = tt
    one (purges_channel team c p) f = tt

pub spent-selected :
    (id : String) (g : ApprovalGrant) (now : ℕ) (t : Table) (r : Row)
    → (consume_id id g now t).0 ≡ some r
    → select (is_spendable id g now) t ≡ some r
unfolding consume_id
spent-selected id once now t r e = e
spent-selected id thread now t r e = e

pub spendable-facts :
    (id : String) (g : ApprovalGrant) (now : ℕ) (r : Row)
    → is_spendable id g now r ≡ true
    → (r.id ≡ id) × (r.status ≡ granted) × (now < r.expires_at)
unfolding is_spendable
spendable-facts id g now r h =
    (ground (arith, eq_iff r.id id), ground (arith, status_beq_iff r.status granted), ground arith)

-- Whatever a table that begins empty went through: a row that is spent names its approver, that person
-- did approve it by a step before, and it has not expired at the time of the spend.
pub consume-approved :
    (steps : List Step) (id : String) (g : ApprovalGrant) (now : ℕ) (r : Row)
    → (consume_id id g now (run steps [])).0 ≡ some r
    → (r.id ≡ id)
      × (now < r.expires_at)
      × ((by : String) × (r.approved_by ≡ some by) × Any (IsApproval id by) steps)
consume-approved steps id g now r e =
    let log : String → String → Type 0 = λ i by. Any (IsApproval i by) steps in
    let chosen = spent-selected id g now (run steps []) r e in
    let facts =
      spendable-facts id g now r (select-holds (is_spendable id g now) (run steps []) chosen) in
    let kept : All (IsLogged log) (run steps []) =
      All-run (IsLogged log) steps [] (IsLogged-Keeps log steps (λ i by a. a)) tt in
    let logged =
      All-select (IsLogged log) (is_spendable id g now) (run steps []) kept chosen facts.1 in
    (facts.0, facts.2, (logged.0, logged.1, rw facts.0 at logged.2))
