-- ===== src/Delegation/Resolve.antt =====
-- Whose credential a worker's request runs under.
use vouchr.Base.{
  String, ◌<◌, ◌≡◌, refl, sym, ap, ◌∙◌, ◌≢◌, inl, inr, ◌⊎◌, true, List, [], ◌∷◌, Option, none, some,
  arith, not, Bool-cases, if-cases,
}
use mathlib.Core.Path.{subst}
use vouchr.Base.Eq.{◌==◌, string_eq, option_eq, option_equals_iff}
use vouchr.Base.Lists.{Any}
use vouchr.Owner.{Owner, user_owner}
use vouchr.ChannelConfig.{ChannelIdentity, person, channel}
use vouchr.Delegation.{
  Session, SessionScope, Row, Table, Attempt, ResolveInputs, Resolution, resolved, still_holds,
  member_of, binding_of, pair_of, member_holds, owned_by, scope_of, run_as, begin_worker_session,
  resolved_from, is_person, in_channel, resolve_worker_owner,
}
use vouchr.Delegation.Begin.{IsInScope, Held, begin-Held}

module _ (attempts : List Attempt) (i : ResolveInputs) where
  -- A session of the request's own scope, live when an attempt read the table as those before it left
  -- it, names the member and the credential, which the vault then says is the member's live one.
  abbrev pub Lends : SessionScope → String → String → List Attempt → Table → Type 0
  Lends scope m credential [] t = ⊥
  Lends scope m credential (a ∷ rest) t =
      ((r : Row) × Any (λ x. x ≡ r) t
        × (IsInScope scope r × (a.read_at < r.expires_at))
        × (r.member_user_id ≡ some m)
        × (r.credential_id ≡ some credential)
        × (a.live m ≡ some credential))
      ⊎ Lends scope m credential rest (a.meanwhile t)

  abbrev pub IsLent : Table → String → Owner → String → Type 0
  IsLent t conversation owner credential =
      (m : String) × (owner ≡ owned_by i.acting m)
      × Lends (scope_of i conversation) m credential attempts t

  -- Nobody has lent one, and the session's id stands in for it.
  abbrev pub IsOpen : Table → String → Owner → String → Type 0
  IsOpen t conversation owner credential =
      (owner ≡ user_owner i.acting)
      × ((s : Session) × ((begin_worker_session attempts (scope_of i conversation) t).0 ≡ some s)
          × (binding_of s ≡ none)
          × (credential ≡ s.id))

  present : (o : Option String) (c : String) → member_of o ≡ some c → o ≡ some c
  present none c e = absurd (ground arith)
  present (some x) c e = elim (Bool-cases (x == "")) [
    | inl empty ↦ absurd (ground arith)
    | inr full ↦ ground arith
  ]

  pair-parts :
      (o p : Option String) (m c : String) → pair_of o p ≡ some (m, c) → (o ≡ some m) × (p ≡ some c)
  pair-parts none p m c e = absurd (ground arith)
  pair-parts (some x) none m c e = absurd (ground arith)
  pair-parts (some x) (some y) m c e = (ground arith, ground arith)

  holds-live :
      (live : String → Option String) (s : Session) (m c : String)
      → binding_of s ≡ some (m, c)
      → still_holds live s ≡ true
      → live m ≡ some c
  unfolding still_holds
  holds-live live s m c e h =
      let parts = pair-parts (member_of s.member_user_id) (member_of s.credential_id) m c e in
      (option_equals_iff string_eq (live m) s.credential_id).0
        (ap (member_holds live s.credential_id) (sym parts.0) ∙ h)
      ∙ present s.credential_id c parts.1

  Held-Lends :
      (scope : SessionScope) (m c : String) (s : Session) (l : List Attempt) (t : Table)
      → binding_of s ≡ some (m, c)
      → Held scope l t s
      → Lends scope m c l t
  Held-Lends scope m c s [] t pair h = elim h [ ]
  Held-Lends scope m c s (a ∷ l) t pair (inl (r, here, live, own, holds)) =
      let parts = pair-parts (member_of s.member_user_id) (member_of s.credential_id) m c pair in
      inl (
        r,
        here,
        live,
        ap (λ (x : Session). x.member_user_id) own ∙ present s.member_user_id m parts.0,
        ap (λ (x : Session). x.credential_id) own ∙ present s.credential_id c parts.1,
        holds-live a.live s m c pair holds,
      )
  Held-Lends scope m c s (a ∷ l) t pair (inr h) =
      inr (Held-Lends scope m c s l (a.meanwhile t) pair h)

  no-member : (s : Session) (m c : String) → binding_of s ≡ some (m, c) → s.member_user_id ≢ none
  no-member s m c e none_member = absurd (
      ground (
        arith,
        pair-parts (member_of s.member_user_id) (member_of s.credential_id) m c e,
        present s.member_user_id m,
      ))

  credential_of_run :
      {o : Owner} {x : String} (m c : String)
      → resolved (owned_by i.acting m) c ≡ resolved o x
      → c ≡ x
  credential_of_run m c e = ground arith

  run_as-IsLent :
      (t : Table) (conversation : String) (s : Session) (owner : Owner) (credential : String)
      → (begin_worker_session attempts (scope_of i conversation) t).0 ≡ some s
      → (o : Option (String × String)) → binding_of s ≡ o
      → run_as i.acting s o ≡ resolved owner credential
      → IsLent t conversation owner credential ⊎ IsOpen t conversation owner credential
  unfolding run_as
  run_as-IsLent t conversation s owner credential begun none unbound e =
      inr (ground arith, (s, begun, unbound, ground arith))
  run_as-IsLent t conversation s owner credential begun (some (m, c)) pair e = inl (
    m,
    ground arith,
    elim (begin-Held (scope_of i conversation) attempts t s begun) [
      | inl fresh ↦ absurd (no-member s m c pair fresh)
      | inr held ↦
          subst (λ x. Lends (scope_of i conversation) m x attempts t) (credential_of_run m c e)
            (Held-Lends (scope_of i conversation) m c s attempts t pair held)
    ],
  )

  resolved_from-IsLent :
      (t : Table) (conversation : String) (owner : Owner) (credential : String)
      (p : Option Session × Table)
      → begin_worker_session attempts (scope_of i conversation) t ≡ p
      → (resolved_from i.acting p).0 ≡ resolved owner credential
      → IsLent t conversation owner credential ⊎ IsOpen t conversation owner credential
  unfolding resolved_from
  resolved_from-IsLent t conversation owner credential (none, u) begun e = absurd (ground arith)
  resolved_from-IsLent t conversation owner credential (some s, u) begun e =
      run_as-IsLent t conversation s owner credential (ap (λ x. x.0) begun) (binding_of s) refl e

  person-of : (c : ChannelIdentity) → is_person c ≡ true → c ≡ person
  unfolding is_person
  person-of person e = refl
  person-of channel e = absurd (ground arith)

  -- What resolving a request answers with: nothing but the credential that a member lends, or the
  -- placeholder of a session that nobody has bound.
  abbrev pub IsEntitled : Table → Option String → Owner → String → Type 0
  IsEntitled t governed owner credential =
      (conversation : String) × (governed ≡ some conversation)
      × (i.eligible ≡ true)
      × (i.identity ≡ person)
      × (IsLent t conversation owner credential ⊎ IsOpen t conversation owner credential)

  in_channel-IsEntitled :
      (t : Table) (owner : Owner) (credential : String) (o : Option String)
      → (in_channel attempts i t o).0 ≡ resolved owner credential
      → IsEntitled t o owner credential
  unfolding in_channel
  in_channel-IsEntitled t owner credential none e = absurd (ground arith)
  in_channel-IsEntitled t owner credential (some conversation) e =
      if-cases
        (λ (r : Resolution × Table).
          r.0 ≡ resolved owner credential → IsEntitled t (some conversation) owner credential)
        (not i.eligible) _ _ (λ no_one q. absurd (ground arith))
        (λ cleared.
          if-cases
            (λ (r : Resolution × Table).
              r.0 ≡ resolved owner credential → IsEntitled t (some conversation) owner credential)
            (not (is_person i.identity)) _ _ (λ shared q. absurd (ground arith))
            (λ own q. (
              conversation,
              refl,
              ground (arith, cleared),
              person-of i.identity (ground (arith, own)),
              resolved_from-IsLent t conversation owner credential
                  (begin_worker_session attempts (scope_of i conversation) t) refl q,
            )))
        e

  -- A worker's request resolves to an owner and a credential only in a governed channel that is
  -- eligible and whose identity is the person's. Then a session for this worker, provider, workspace,
  -- channel and thread is in the table, live when it was read, it names a member and the credential,
  -- and the vault, asked in this call, says that it is the member's live one; or the session is
  -- nobody's, and the owner is the worker and the session's id stands in for the credential.
  pub resolve-IsEntitled :
      (t : Table) (owner : Owner) (credential : String)
      → (resolve_worker_owner attempts i t).0 ≡ resolved owner credential
      → IsEntitled t (member_of i.governable_channel) owner credential
  unfolding resolve_worker_owner
  resolve-IsEntitled t owner credential e =
      in_channel-IsEntitled t owner credential (member_of i.governable_channel) e
