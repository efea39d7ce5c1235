-- ===== src/Fence/Kept.antt =====
-- Marks are never lowered and never taken back, so what they block stays blocked.
use vouchr.Base.{
  ℕ, max, ◌≤◌, String, ◌≡◌, refl, sym, ap, ◌∙◌, inl, inr, Bool, true, false, List, [], ◌∷◌, Option,
  none, some, get_or, arith, if◌then◌else◌, Bool-cases, if-cases, ◌>>=◌,
}
use vouchr.Base.Eq.{◌==◌, string_eq, option_eq}
use vouchr.Base.Lists.{Any}
use vouchr.Base.Assoc.{lookup, lookup-insert}
use vouchr.Owner.{SlackIdentity}
use vouchr.Fence.{
  Mark, Marks, mark_eq, set_mark, set_marks, newer, latest_of, tombstone_blocks,
  user_interaction_is_current, team_mark, OffboardScope, scope_marks, everywhere_offboard_scopes,
  revocation_mark, ProvisioningScopeKind, ProvisioningRevocationFilter, exact_provisioning_scope,
  mark_user_offboarded, mark_user_offboarded_by_actor, mark_user_offboarded_everywhere,
  mark_user_offboarded_everywhere_by_actor, mark_provisioning_revoked,
}

-- The mark is set, at the time or later.
abbrev pub IsRaised : Mark → ℕ → Marks → Type 0
IsRaised k at t = (c : ℕ) × (lookup k t ≡ some c) × (at ≤ c)

lookup-set_mark :
    (own k : Mark) (now : ℕ) (t : Marks)
    → lookup k (set_mark own now t)
      ≡ (if own == k then some (max (get_or (lookup own t) 0) now) else lookup k t)
unfolding set_mark
lookup-set_mark own k now t = lookup-insert own k (max (get_or (lookup own t) 0) now) t

pub set_mark-IsRaised : (k : Mark) (now : ℕ) (t : Marks) → IsRaised k now (set_mark k now t)
set_mark-IsRaised k now t = (
  max (get_or (lookup k t) 0) now,
  lookup-set_mark k k now t
      ∙ ap (λ b. if b then some (max (get_or (lookup k t) 0) now) else lookup k t)
          ((mark_eq.equals_iff k k).1 refl),
  omega arith,
)

pub IsRaised-set_mark :
    (k own : Mark) (at now : ℕ) (t : Marks) → IsRaised k at t → IsRaised k at (set_mark own now t)
IsRaised-set_mark k own at now t (c, e, h) = elim (Bool-cases (own == k)) [
  | inl same ↦ (
    max (get_or (lookup own t) 0) now,
    lookup-set_mark own k now t
        ∙ ap (λ b. if b then some (max (get_or (lookup own t) 0) now) else lookup k t) same,
    older (ap (λ m. lookup m t) ((mark_eq.equals_iff own k).0 same) ∙ e),
  )
  | inr other ↦ (
    c,
    lookup-set_mark own k now t
        ∙ ap (λ b. if b then some (max (get_or (lookup own t) 0) now) else lookup k t) other
        ∙ e,
    h,
  )
]
  where
    older : lookup own t ≡ some c → at ≤ max (get_or (lookup own t) 0) now
    older q = rw q (omega arith)

pub IsRaised-set_marks :
    (k : Mark) (at : ℕ) (ks : List Mark) (now : ℕ) (t : Marks)
    → IsRaised k at t
    → IsRaised k at (set_marks ks now t)
unfolding set_marks
IsRaised-set_marks k at [] now t h = h
IsRaised-set_marks k at (own ∷ ks) now t h =
    IsRaised-set_marks k at ks now (set_mark own now t) (IsRaised-set_mark k own at now t h)

pub set_marks-IsRaised :
    (k : Mark) (ks : List Mark) (now : ℕ) (t : Marks)
    → Any (λ m. m ≡ k) ks
    → IsRaised k now (set_marks ks now t)
unfolding set_marks
set_marks-IsRaised k [] now t m = elim m [ ]
set_marks-IsRaised k (own ∷ ks) now t (inl e) =
    IsRaised-set_marks k now ks now (set_mark own now t) (rw (sym e) (set_mark-IsRaised own now t))
set_marks-IsRaised k (own ∷ ks) now t (inr m) = set_marks-IsRaised k ks now (set_mark own now t) m

-- A raised mark among those that apply blocks what was issued at its time or before.
pub IsRaised-blocks :
    (k : Mark) (at : ℕ) (ks : List Mark) (t : Marks) (issued_at : ℕ)
    → Any (λ m. m ≡ k) ks
    → IsRaised k at t
    → issued_at ≤ at
    → tombstone_blocks (latest_of ks t) issued_at ≡ true
unfolding latest_of
IsRaised-blocks k at [] t issued_at m h le = elim m [ ]
IsRaised-blocks k at (own ∷ ks) t issued_at (inl e) (c, p, h) le =
    first (lookup own t) (latest_of ks t) (ap (λ x. lookup x t) e ∙ p)
  where
    first : (o rest : Option ℕ) → o ≡ some c → tombstone_blocks (newer o rest) issued_at ≡ true
    first none rest q = absurd (ground arith)
    first (some x) none q = ground arith
    first (some x) (some y) q = ground arith
IsRaised-blocks k at (own ∷ ks) t issued_at (inr m) h le =
    later (lookup own t) (latest_of ks t) (IsRaised-blocks k at ks t issued_at m h le)
  where
    later :
        (o rest : Option ℕ)
        → tombstone_blocks rest issued_at ≡ true
        → tombstone_blocks (newer o rest) issued_at ≡ true
    later none rest q = q
    later (some x) none q = absurd (ground arith)
    later (some x) (some y) q = ground arith

-- Everything that writes marks, each under its locks.
pub data Step : Type 0 where
  offboards : SlackIdentity → ℕ → Step
  offboards_by : SlackIdentity → ℕ → SlackIdentity → ℕ → Step
  offboards_everywhere : Option String → String → ℕ → Step
  offboards_everywhere_by : SlackIdentity → ℕ → String → String → ℕ → Step
  revokes : ProvisioningRevocationFilter → ℕ → Step

abbrev or_same : Marks → Option Marks → Marks
or_same t none = t
or_same t (some marked) = marked

abbrev or_same_after : Marks → Option (Bool × Marks) → Marks
or_same_after t none = t
or_same_after t (some (done, marked)) = marked

module _ (scope_key : ProvisioningScopeKind → List String → String) where
  -- A call that throws changes nothing.
  unfoldable pub apply : Step → Marks → Marks
  apply (offboards i now) t = mark_user_offboarded i now t
  apply (offboards_by actor issued_at target now) t =
      or_same_after t (mark_user_offboarded_by_actor actor issued_at target now t)
  apply (offboards_everywhere e user_id now) t =
      or_same t (mark_user_offboarded_everywhere e user_id now t)
  apply (offboards_everywhere_by actor issued_at e user_id now) t =
      or_same_after t (mark_user_offboarded_everywhere_by_actor actor issued_at e user_id now t)
  apply (revokes f now) t = or_same t (mark_provisioning_revoked scope_key f now t)

  unfoldable pub run : List Step → Marks → Marks
  run [] t = t
  run (s ∷ steps) t = run steps (apply s t)

  module _ (k : Mark) (at : ℕ) where
    everywhere-IsRaised :
        (e : Option String) (user_id : String) (now : ℕ) (t : Marks)
        → IsRaised k at t
        → IsRaised k at (or_same t (mark_user_offboarded_everywhere e user_id now t))
    unfolding mark_user_offboarded_everywhere
    everywhere-IsRaised e user_id now t h = go (everywhere_offboard_scopes e)
      where
        go :
            (o : Option (List OffboardScope))
            → IsRaised k at
                (or_same t (o >>= λ scopes. some (set_marks (scope_marks user_id scopes) now t)))
        go none = h
        go (some scopes) = IsRaised-set_marks k at (scope_marks user_id scopes) now t h

    apply-IsRaised : (s : Step) (t : Marks) → IsRaised k at t → IsRaised k at (apply s t)
    unfolding apply mark_user_offboarded mark_user_offboarded_by_actor
        mark_user_offboarded_everywhere_by_actor mark_provisioning_revoked
    apply-IsRaised (offboards i now) t h =
        IsRaised-set_mark k (team_mark i.team_id i.user_id) at now t h
    apply-IsRaised (offboards_by actor issued_at target now) t h =
        if-cases (λ o. IsRaised k at (or_same_after t o)) (actor.team_id == target.team_id) _ _
          (λ same. go (user_interaction_is_current actor issued_at t)) (λ other. h)
      where
        go :
            (o : Option Bool)
            → IsRaised k at (
                or_same_after t (
                  o >>= λ fresh. some (
                    if fresh
                    then (true, set_mark (team_mark target.team_id target.user_id) now t)
                    else (false, t))))
        go none = h
        go (some true) = IsRaised-set_mark k (team_mark target.team_id target.user_id) at now t h
        go (some false) = h
    apply-IsRaised (offboards_everywhere e user_id now) t h = everywhere-IsRaised e user_id now t h
    apply-IsRaised (offboards_everywhere_by actor issued_at e user_id now) t h =
        if-cases (λ o. IsRaised k at (or_same_after t o)) (actor.enterprise_id == some e) _ _
          (λ same.
            go (user_interaction_is_current actor issued_at t)
              (mark_user_offboarded_everywhere (some e) user_id now t)
              (everywhere-IsRaised (some e) user_id now t h))
          (λ other. h)
      where
        go :
            (o : Option Bool) (w : Option Marks)
            → IsRaised k at (or_same t w)
            → IsRaised k at (
                or_same_after t (
                  o >>= λ fresh.
                  w >>= λ marked. some (if fresh then (true, marked) else (false, t))))
        go none w q = h
        go (some b) none q = h
        go (some true) (some marked) q = q
        go (some false) (some marked) q = h
    apply-IsRaised (revokes f now) t h = go (exact_provisioning_scope scope_key f)
      where
        go :
            (o : Option String)
            → IsRaised k at
                (or_same t (o >>= λ key. some (set_mark (revocation_mark f.provider key) now t)))
        go none = h
        go (some key) = IsRaised-set_mark k (revocation_mark f.provider key) at now t h

    pub run-IsRaised :
        (steps : List Step) (t : Marks) → IsRaised k at t → IsRaised k at (run steps t)
    unfolding run
    run-IsRaised [] t h = h
    run-IsRaised (s ∷ steps) t h = run-IsRaised steps (apply s t) (apply-IsRaised s t h)
