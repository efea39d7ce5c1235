-- ===== src/Delegation/Run/Once.antt =====
-- A session is bound once.
use vouchr.Base.{
  ℕ, String, ◌≡◌, refl, sym, inl, inr, ◌≢◌, Bool, true, false, ◌&&◌, List, [], ◌∷◌, some, arith,
  nat_beq_iff, Bool-cases, if-cases,
}
use text.Mathlib.TextEquality.{eq_iff}
use vouchr.Base.Eq.{string_eq, nat_eq}
use vouchr.Base.Lists.{All}
use vouchr.Base.Table.{changes, update, All-update}
use vouchr.Interaction.{is_interaction_id}
use vouchr.Delegation.{Row, Table, is_unbound_live, bind_worker_session, bind_row}
use vouchr.Delegation.Run.{Step, puts, binds, touches, ends, sweeps, run, Keeps, All-run}

-- No two rows have one id: the primary key of the table.
abbrev pub IsKeyed : Table → Type 0
IsKeyed [] = Unit {0}
IsKeyed (r ∷ t) = All (λ (x : Row). x.id ≢ r.id) t × IsKeyed t

-- No session that is put has the id; the program's ids are random UUIDs, made for each row.
abbrev pub NotReissued : String → List Step → Type 0
NotReissued id [] = Unit {0}
NotReissued id (puts new scope seen now ∷ steps) = (new ≢ id) × NotReissued id steps
NotReissued id (_ ∷ steps) = NotReissued id steps

-- A row with the id is the member's, under the credential.
abbrev pub IsBoundTo : String → String → String → Row → Type 0
IsBoundTo id member credential r =
    r.id ≡ id → (r.member_user_id ≡ some member) × (r.credential_id ≡ some credential)

module _ (id m c : String) where
  unbound-id : (now : ℕ) (r : Row) → is_unbound_live id now r ≡ true → r.id ≡ id
  unbound-id now r e = ground (arith, eq_iff r.id id)

  bound-not : (now : ℕ) (r : Row) → IsBoundTo id m c r → is_unbound_live id now r ≡ false
  bound-not now r h = elim (Bool-cases (is_unbound_live id now r)) [
    | inr miss ↦ miss
    | inl hit ↦ absurd (ground (arith, (h (unbound-id now r hit)).0))
  ]

  bound-Keeps : (steps : List Step) → NotReissued id steps → All (Keeps (IsBoundTo id m c)) steps
  bound-Keeps [] f = tt
  bound-Keeps (puts new scope seen now ∷ steps) (other, f) =
      (λ e. absurd (other e), bound-Keeps steps f)
  bound-Keeps (binds i member credential now ∷ steps) f =
      (λ r h hit e. absurd (rebound r now i hit e (h e).0), bound-Keeps steps f)
    where
      rebound :
          (r : Row) (now : ℕ) (i : String)
          → is_unbound_live i now r ≡ true
          → r.id ≡ id
          → r.member_user_id ≡ some m
          → ⊥
      rebound r now i hit e p = ground arith
  bound-Keeps (touches i now ∷ steps) f = (λ r h e. h e, bound-Keeps steps f)
  bound-Keeps (ends who ∷ steps) f = (tt, bound-Keeps steps f)
  bound-Keeps (sweeps now ∷ steps) f = (tt, bound-Keeps steps f)

  none-changes :
      (now : ℕ) (t : Table) → All (IsBoundTo id m c) t → changes (is_unbound_live id now) t ≡ 0
  unfolding changes
  none-changes now [] h = refl
  none-changes now (x ∷ t) (h, hs) = rw (bound-not now x h) (none-changes now t hs)

  absent-changes :
      (now : ℕ) (t : Table)
      → All (λ (x : Row). x.id ≢ id) t
      → changes (is_unbound_live id now) t ≡ 0
  unfolding changes
  absent-changes now [] h = refl
  absent-changes now (x ∷ t) (h, hs) = elim (Bool-cases (is_unbound_live id now x)) [
    | inl hit ↦ absurd (h (unbound-id now x hit))
    | inr miss ↦ rw miss (absent-changes now t hs)
  ]

  absent-BoundTo : (t : Table) → All (λ (x : Row). x.id ≢ id) t → All (IsBoundTo id m c) t
  absent-BoundTo [] h = tt
  absent-BoundTo (x ∷ t) (h, hs) = (λ e. absurd (h e), absent-BoundTo t hs)

  -- The one row that a binding changes is the only one with the id.
  update-BoundTo :
      (now : ℕ) (t : Table)
      → IsKeyed t
      → changes (is_unbound_live id now) t ≡ 1
      → All (IsBoundTo id m c) (update (is_unbound_live id now) (bind_row m c now) t)
  unfolding changes update
  update-BoundTo now [] k e = tt
  update-BoundTo now (x ∷ t) (k, ks) e = elim (Bool-cases (is_unbound_live id now x)) [
    | inl hit ↦ rw hit (
      λ p. (refl, refl),
      All-update (IsBoundTo id m c) (is_unbound_live id now) (bind_row m c now)
          (λ r q h p. (refl, refl)) t (absent-BoundTo t (rename t (unbound-id now x hit) k)),
    )
    | inr miss ↦ rw miss (λ p. absurd (only p miss), update-BoundTo now t ks (ground arith))
  ]
    where
      rename :
          (t : Table)
          → x.id ≡ id
          → All (λ (y : Row). y.id ≢ x.id) t
          → All (λ (y : Row). y.id ≢ id) t
      rename t p h = rw (sym p) h

      only : x.id ≡ id → is_unbound_live id now x ≡ false → ⊥
      only p miss = ground (arith, absent-changes now t (rename t p k))

  bind-BoundTo :
      (now : ℕ) (t : Table)
      → IsKeyed t
      → (bind_worker_session id m c now t).0 ≡ true
      → All (IsBoundTo id m c) (bind_worker_session id m c now t).1
  unfolding bind_worker_session
  bind-BoundTo now t k =
      if-cases (λ (x : Bool × Table). x.0 ≡ true → All (IsBoundTo id m c) x.1)
        (is_interaction_id id && is_interaction_id c) _ _
        (λ ok e. update-BoundTo now t k ((nat_beq_iff (changes (is_unbound_live id now) t) 1).0 e))
        (λ bad e. absurd (ground arith))

  bound-again :
      (member credential : String) (later : ℕ) (u : Table)
      → All (IsBoundTo id m c) u
      → (bind_worker_session id member credential later u).0 ≡ false
  unfolding bind_worker_session
  bound-again member credential later u h =
      if-cases (λ (x : Bool × Table). x.0 ≡ false)
        (is_interaction_id id && is_interaction_id credential) _ _
        (λ ok. rw (none-changes later u h) refl) (λ bad. refl)

  -- A binding that succeeded is for good: whatever is done to the sessions afterwards, in any order and
  -- at any times, a row with its id is still that member's, under that credential, and no one binds
  -- the id again, as long as no new session gets the same id.
  pub bind_once :
      (now : ℕ) (t : Table)
      → IsKeyed t
      → (bind_worker_session id m c now t).0 ≡ true
      → (steps : List Step) → NotReissued id steps
      → (member credential : String) (later : ℕ)
      → All (IsBoundTo id m c) (run steps (bind_worker_session id m c now t).1)
        × ((bind_worker_session id member credential later
              (run steps (bind_worker_session id m c now t).1)).0
            ≡ false)
  bind_once now t k e steps f member credential later = (
    kept,
    bound-again member credential later (run steps (bind_worker_session id m c now t).1) kept,
  )
    where
      kept : All (IsBoundTo id m c) (run steps (bind_worker_session id m c now t).1)
      kept =
          All-run (IsBoundTo id m c) steps (bind_worker_session id m c now t).1
            (bound-Keeps steps f) (bind-BoundTo now t k e)
