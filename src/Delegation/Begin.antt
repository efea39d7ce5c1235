-- ===== src/Delegation/Begin.antt =====
-- Which session a worker's request gets, and that it gets one.
use vouchr.Base.{
  ℕ, ◌≤◌, ◌<◌, String, ◌≡◌, refl, sym, ap, ◌∙◌, inl, inr, ◌⊎◌, true, List, [], ◌∷◌, ◌++◌, Option,
  none, some, arith, is_some, some_inj, get_or, ltb, if◌then◌else◌, Bool-cases, if-cases,
}
use text.Mathlib.TextEquality.{eq_iff}
use vouchr.Base.Eq.{string_eq, option_eq}
use vouchr.Base.Lists.{Any}
use vouchr.Base.Table.{select, select-in, select-holds}
use vouchr.Delegation.{
  Session, SessionScope, Row, Table, Attempt, to_session, in_scope, is_live_in, session_of,
  worker_session_for, still_holds, is_replaceable, put_on, put_fresh, id_of, finish, attempt,
  begin_worker_session,
}

module _ (scope : SessionScope) where
  select-live :
      (now : ℕ) (t : Table) (r : Row)
      → select (in_scope scope) t ≡ some r
      → (select (is_live_in scope now) t ≡ some r) ⊎ (r.expires_at ≤ now)
  unfolding select
  select-live now [] r e = absurd (ground arith)
  select-live now (x ∷ t) r e = elim (Bool-cases (in_scope scope x)) [
    | inl hit ↦ elim (Bool-cases (ltb now x.expires_at)) [
      | inl live ↦ inl (ground arith)
      | inr dead ↦ inr (rw (sym (same x t r hit e)) (ground arith))
    ]
    | inr miss ↦ elim (select-live now t r (ground arith)) [
      | inl found ↦ inl (ground arith)
      | inr dead ↦ inr dead
    ]
  ]
    where
      same :
          (x : Row) (t : Table) (r : Row)
          → in_scope scope x ≡ true
          → (if in_scope scope x then some x else select (in_scope scope) t) ≡ some r
          → x ≡ r
      same x t r hit e = ground arith

  put_on-some :
      (id : String) (seen : Option String) (now : ℕ) (t : Table) (o : Option Row)
      → ((r : Row) → o ≡ some r → is_replaceable seen now r ≡ true)
      → is_some (put_on id scope seen now t o).0 ≡ true
  unfolding put_on
  put_on-some id seen now t none h = refl
  put_on-some id seen now t (some r) h = rw (h r refl) refl

  -- Nobody touches this scope's session between the attempt's read and its write.
  abbrev pub IsQuiet : Attempt → Type 0
  IsQuiet a =
      (a.read_at ≤ a.write_at)
      × ((u : Table) → select (in_scope scope) (a.meanwhile u) ≡ select (in_scope scope) u)

  replaceable-own : (now : ℕ) (r : Row) → is_replaceable (some r.id) now r ≡ true
  replaceable-own now r = ground (arith, eq_iff r.id r.id)

  replaceable-expired :
      (seen : Option String) (now : ℕ) (r : Row)
      → r.expires_at ≤ now
      → is_replaceable seen now r ≡ true
  replaceable-expired seen now r h = ground arith

  seen-replaceable :
      (a : Attempt) (t : Table) (r : Row)
      → a.read_at ≤ a.write_at
      → select (in_scope scope) t ≡ some r
      → is_replaceable (id_of (worker_session_for scope a.read_at t)) a.write_at r ≡ true
  unfolding worker_session_for
  seen-replaceable a t r order e = elim (select-live a.read_at t r e) [
    | inl found ↦
        ap (λ o. is_replaceable (id_of (session_of o)) a.write_at r) found
        ∙ replaceable-own a.write_at r
    | inr dead ↦ replaceable-expired _ a.write_at r (omega arith)
  ]

  quiet-put :
      (a : Attempt) (t : Table)
      → IsQuiet a
      → is_some
          (put_fresh a.id scope
            (id_of (worker_session_for scope a.read_at t))
            a.write_at
            (a.meanwhile t)).0
        ≡ true
  unfolding put_fresh
  quiet-put a t (order, same) =
      put_on-some a.id _ a.write_at (a.meanwhile t) (select (in_scope scope) (a.meanwhile t))
        (λ r e. seen-replaceable a t r order (sym (same t) ∙ e))

  finish-some :
      (again : Table → Option Session × Table) (p : Option Session × Table)
      → (is_some p.0 ≡ true) ⊎ ((u : Table) → is_some (again u).0 ≡ true)
      → is_some (finish again p).0 ≡ true
  unfolding finish
  finish-some again (some s, t) h = refl
  finish-some again (none, t) (inl e) = absurd (ground arith)
  finish-some again (none, t) (inr h) = h t

  attempt-some :
      (a : Attempt) (again : Table → Option Session × Table) (o : Option Session) (t : Table)
      → (is_some (put_fresh a.id scope (id_of o) a.write_at (a.meanwhile t)).0 ≡ true)
        ⊎ ((u : Table) → is_some (again u).0 ≡ true)
      → is_some (attempt a scope again o t).0 ≡ true
  unfolding attempt
  attempt-some a again none t h = finish-some again _ h
  attempt-some a again (some s) t h =
      if-cases (λ (p : Option Session × Table). is_some p.0 ≡ true) (still_holds a.live s) _ _
        (λ keeps. refl) (λ lost. finish-some again _ h)

  -- A worker's request gets a session as soon as nobody else writes its scope's session between the
  -- read and the write of one of its attempts, whatever happens in the others.
  pub begin_quiet :
      (before after : List Attempt) (a : Attempt) (t : Table)
      → IsQuiet a
      → is_some (begin_worker_session (before ++ a ∷ after) scope t).0 ≡ true
  unfolding begin_worker_session
  begin_quiet [] after a t q =
      attempt-some a (begin_worker_session after scope) (worker_session_for scope a.read_at t) t
        (inl (quiet-put a t q))
  begin_quiet (b ∷ before) after a t q =
      attempt-some b (begin_worker_session (before ++ a ∷ after) scope)
        (worker_session_for scope b.read_at t) t (inr (λ u. begin_quiet before after a u q))

  put-fresh :
      (id : String) (seen : Option String) (now : ℕ) (t : Table) (s : Session)
      → (put_fresh id scope seen now t).0 ≡ some s
      → s.member_user_id ≡ none
  unfolding put_fresh put_on
  put-fresh id seen now t s = put (select (in_scope scope) t)
    where
      put : (o : Option Row) → (put_on id scope seen now t o).0 ≡ some s → s.member_user_id ≡ none
      put none e = ground arith
      put (some r) e =
          if-cases (λ (p : Option Session × Table). p.0 ≡ some s → s.member_user_id ≡ none)
            (is_replaceable seen now r) _ _ (λ own q. ground arith)
            (λ other q. absurd (ground arith)) e

  put-lost :
      (id : String) (seen : Option String) (now : ℕ) (t : Table)
      → (put_fresh id scope seen now t).0 ≡ none
      → (put_fresh id scope seen now t).1 ≡ t
  unfolding put_fresh put_on
  put-lost id seen now t = put (select (in_scope scope) t)
    where
      put :
          (o : Option Row)
          → (put_on id scope seen now t o).0 ≡ none
          → (put_on id scope seen now t o).1 ≡ t
      put none e = absurd (ground arith)
      put (some r) e =
          if-cases (λ (p : Option Session × Table). p.0 ≡ none → p.1 ≡ t)
            (is_replaceable seen now r) _ _ (λ own q. absurd (ground arith)) (λ other q. refl) e

  -- The row is of the scope, column by column.
  abbrev pub IsInScope : Row → Type 0
  IsInScope r =
      (r.team_id ≡ scope.team_id)
      × (r.channel ≡ scope.channel)
      × (r.thread ≡ get_or scope.thread "")
      × (r.worker_user_id ≡ scope.worker_user_id)
      × (r.provider ≡ scope.provider)

  live-IsInScope :
      (now : ℕ) (r : Row) → is_live_in scope now r ≡ true → IsInScope r × (now < r.expires_at)
  unfolding in_scope
  live-IsInScope now r h = (
    (
      ground (arith, eq_iff r.team_id scope.team_id),
      ground (arith, eq_iff r.channel scope.channel),
      ground (arith, eq_iff r.thread (get_or scope.thread "")),
      ground (arith, eq_iff r.worker_user_id scope.worker_user_id),
      ground (arith, eq_iff r.provider scope.provider),
    ),
    ground arith,
  )

  -- A session of the scope that is live in the table, and whose member holds its credential.
  abbrev pub Holding : Attempt → Table → Session → Type 0
  Holding a t s =
      (r : Row) × Any (λ x. x ≡ r) t
      × (IsInScope r × (a.read_at < r.expires_at))
      × (to_session r ≡ s)
      × (still_holds a.live s ≡ true)

  -- One of the attempts finds the session so, in the table as the attempts before it left it.
  abbrev pub Held : List Attempt → Table → Session → Type 0
  Held [] t s = ⊥
  Held (a ∷ attempts) t s = Holding a t s ⊎ Held attempts (a.meanwhile t) s

  -- What one attempt gives: a fresh session, one whose member still holds its credential, or what the
  -- next attempts give.
  abbrev Given : Attempt → (Table → Option Session × Table) → Table → Session → Type 0
  Given a again t s =
      (s.member_user_id ≡ none) ⊎ (Holding a t s ⊎ ((again (a.meanwhile t)).0 ≡ some s))

  finish-Given :
      (a : Attempt) (again : Table → Option Session × Table) (p : Option Session × Table)
      (t : Table) (s : Session)
      → (p.0 ≡ some s → s.member_user_id ≡ none)
      → (p.0 ≡ none → p.1 ≡ a.meanwhile t)
      → (finish again p).0 ≡ some s
      → Given a again t s
  unfolding finish
  finish-Given a again (some x, u) t s h same e = inl (h e)
  finish-Given a again (none, u) t s h same e =
      inr (inr (ap (λ v. (again v).0) (sym (same refl)) ∙ e))

  read-Holding :
      (a : Attempt) (t : Table) (s : Session) (o : Option Row)
      → select (is_live_in scope a.read_at) t ≡ o
      → session_of o ≡ some s
      → still_holds a.live s ≡ true
      → Holding a t s
  read-Holding a t s none p e h = absurd (ground arith)
  read-Holding a t s (some r) p e h = (
    r,
    select-in (is_live_in scope a.read_at) t r p,
    live-IsInScope a.read_at r (select-holds (is_live_in scope a.read_at) t p),
    some_inj e,
    h,
  )

  attempt-Given :
      (a : Attempt) (again : Table → Option Session × Table) (t : Table) (s : Session)
      (o : Option Session)
      → worker_session_for scope a.read_at t ≡ o
      → (attempt a scope again o t).0 ≡ some s
      → Given a again t s
  unfolding attempt worker_session_for
  attempt-Given a again t s none q e =
      finish-Given a again _ t s (put-fresh a.id none a.write_at (a.meanwhile t) s)
        (put-lost a.id none a.write_at (a.meanwhile t)) e
  attempt-Given a again t s (some x) q p =
      if-cases (λ (p : Option Session × Table). p.0 ≡ some s → Given a again t s)
        (still_holds a.live x) _ _
        (λ keeps e. inr (
          inl (
            read-Holding a t s (select (is_live_in scope a.read_at) t) refl (q ∙ e)
              (ap (still_holds a.live) (sym (some_inj e)) ∙ keeps))))
        (λ lost e.
          finish-Given a again _ t s (put-fresh a.id (some x.id) a.write_at (a.meanwhile t) s)
            (put-lost a.id (some x.id) a.write_at (a.meanwhile t)) e)
        p

  -- A session that a request runs under is nobody's, or an attempt found it live in its scope, with a
  -- member who held its credential when asked.
  pub begin-Held :
      (attempts : List Attempt) (t : Table) (s : Session)
      → (begin_worker_session attempts scope t).0 ≡ some s
      → (s.member_user_id ≡ none) ⊎ Held attempts t s
  unfolding begin_worker_session
  begin-Held [] t s e = absurd (ground arith)
  begin-Held (a ∷ attempts) t s e =
      elim (attempt-Given a (begin_worker_session attempts scope) t s
        (worker_session_for scope a.read_at t) refl e) [
          | inl fresh ↦ inl fresh
          | inr (inl held) ↦ inr (inl held)
          | inr (inr next) ↦ elim (begin-Held attempts (a.meanwhile t) s next) [
            | inl fresh ↦ inl fresh
            | inr held ↦ inr (inr held)
          ]
        ]
