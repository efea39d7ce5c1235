-- ===== src/Delegation/Run.antt =====
-- The table of sessions under everything that writes to it, in any order.

pub mod Once
use vouchr.Base.{
  ℕ, ◌+◌, ◌≤◌, min, String, ◌≡◌, refl, inl, inr, ◌⊎◌, ◌≢◌, Bool, true, false, ◌&&◌, List, [], ◌∷◌,
  Option, none, some, arith, get_or, ltb, leb, is_some, not, if◌then◌else◌, if-cases,
}
use vouchr.Base.Eq.{◌==◌, string_eq}
use vouchr.Base.Lists.{All}
use vouchr.Base.Table.{All-delete, All-update, select}
use vouchr.Owner.{SlackIdentity}
use vouchr.Interaction.{is_interaction_id, worker_session_max_ttl_us, worker_session_idle_ttl_us}
use vouchr.Delegation.{
  Row, Table, Session, SessionScope, in_scope, fresh_row, put_fresh, put_on, is_replaceable,
  bind_worker_session, bind_row, is_unbound_live, touch_worker_session, touch_row,
  end_worker_sessions_for_user, sweep_worker_sessions,
}

pub data Step : Type 0 where
  -- the new id, the scope, the id of the session that was read, and the time
  puts : String → SessionScope → Option String → ℕ → Step
  -- the id, the member, the credential and the time
  binds : String → String → String → ℕ → Step
  touches : String → ℕ → Step
  ends : SlackIdentity → Step
  sweeps : ℕ → Step

unfoldable pub apply : Step → Table → Table
apply (puts id scope seen now) t = (put_fresh id scope seen now t).1
apply (binds id member credential now) t = (bind_worker_session id member credential now t).1
apply (touches id now) t = touch_worker_session id now t
apply (ends who) t = end_worker_sessions_for_user who t
apply (sweeps now) t = (sweep_worker_sessions now t).1

unfoldable pub run : List Step → Table → Table
run [] t = t
run (s ∷ steps) t = run steps (apply s t)

module _ (P : Row → Type 0) where
  -- That the changes of one step to single rows keep the property.
  abbrev pub Keeps : Step → Type 0
  Keeps (puts id scope seen now) = P (fresh_row id scope now)
  Keeps (binds id member credential now) =
      (r : Row) → P r → is_unbound_live id now r ≡ true → P (bind_row member credential now r)
  Keeps (touches id now) = (r : Row) → P r → P (touch_row now r)
  Keeps _ = Unit {0}

  All-put :
      (id : String) (scope : SessionScope) (seen : Option String) (now : ℕ) (t : Table)
      → P (fresh_row id scope now)
      → All P t
      → All P (put_fresh id scope seen now t).1
  unfolding put_fresh put_on
  All-put id scope seen now t new h = go (select (in_scope scope) t)
    where
      go : (o : Option Row) → All P (put_on id scope seen now t o).1
      go none = (new, h)
      go (some r) =
          if-cases (λ (x : Option Session × Table). All P x.1) (is_replaceable seen now r) _ _
            (λ own.
              All-update P (in_scope scope) (λ _. fresh_row id scope now) (λ x q hit. new) t h)
            (λ other. h)

  pub All-apply : (s : Step) (t : Table) → Keeps s → All P t → All P (apply s t)
  unfolding apply bind_worker_session touch_worker_session end_worker_sessions_for_user
      sweep_worker_sessions
  All-apply (puts id scope seen now) t k h = All-put id scope seen now t k h
  All-apply (binds id member credential now) t k h =
      if-cases (λ (x : Bool × Table). All P x.1)
        (is_interaction_id id && is_interaction_id credential) _ _
        (λ ok. All-update P (is_unbound_live id now) (bind_row member credential now) k t h)
        (λ bad. h)
  All-apply (touches id now) t k h =
      if-cases (All P) (is_interaction_id id) _ _
        (λ ok. All-update P _ (touch_row now) (λ r q hit. k r q) t h) (λ bad. h)
  All-apply (ends who) t k h = All-delete P _ t h
  All-apply (sweeps now) t k h = All-delete P _ t h

  pub All-run : (steps : List Step) (t : Table) → All Keeps steps → All P t → All P (run steps t)
  unfolding run
  All-run [] t k h = h
  All-run (s ∷ steps) t (k, ks) h = All-run steps (apply s t) ks (All-apply s t k h)

-- The session is nobody's, or it has a member, a credential and the time of the binding, and ends at
-- most the absolute lifetime after that.
abbrev pub IsBounded : Row → Type 0
IsBounded r =
    ((r.member_user_id ≡ none) × (r.credential_id ≡ none) × (r.bound_at ≡ none))
    ⊎ ((m : String) × (c : String) × (b : ℕ) × (r.member_user_id ≡ some m)
        × (r.credential_id ≡ some c)
        × (r.bound_at ≡ some b)
        × (r.expires_at ≤ b + worker_session_max_ttl_us))

touch-IsBounded : (now : ℕ) (r : Row) → IsBounded r → IsBounded (touch_row now r)
touch-IsBounded now r (inl h) = inl h
touch-IsBounded now r (inr (m, c, b, p, q, e, h)) = inr (m, c, b, p, q, e, rw e (omega arith))

bind-IsBounded : (id m c : String) (now : ℕ) (r : Row) → IsBounded (bind_row m c now r)
bind-IsBounded id m c now r = inr (m, c, now, refl, refl, refl, omega arith)

IsBounded-Keeps : (steps : List Step) → All (Keeps IsBounded) steps
IsBounded-Keeps [] = tt
IsBounded-Keeps (puts id scope seen now ∷ steps) = (inl (refl, refl, refl), IsBounded-Keeps steps)
IsBounded-Keeps (binds id m c now ∷ steps) =
    (λ r h hit. bind-IsBounded id m c now r, IsBounded-Keeps steps)
IsBounded-Keeps (touches id now ∷ steps) = (touch-IsBounded now, IsBounded-Keeps steps)
IsBounded-Keeps (ends who ∷ steps) = (tt, IsBounded-Keeps steps)
IsBounded-Keeps (sweeps now ∷ steps) = (tt, IsBounded-Keeps steps)

-- Whatever is done to the sessions, in any order and at any times, each one is either nobody's, with
-- no credential, or has its member, credential and time of binding, and expires at most eight hours
-- after the binding, if that held of the table before.
pub run-IsBounded : (steps : List Step) (t : Table) → All IsBounded t → All IsBounded (run steps t)
run-IsBounded steps t h = All-run IsBounded steps t (IsBounded-Keeps steps) h
