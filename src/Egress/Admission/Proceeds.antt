-- ===== src/Egress/Admission/Proceeds.antt =====
-- What has been decided when the secret is read.
use vouchr.Base.{
  ◌*◌, ◌≤◌, String, ◌≡◌, refl, inl, inr, ◌⊎◌, ◌≢◌, Bool, true, false, ◌&&◌, Option, none, some,
  arith, get_or, ltb, if◌then◌else◌, Bool-cases, if-cases,
}
use vouchr.Base.Eq.{◌==◌, string_eq, option_eq, option_equals_iff}
use vouchr.Base.Text.{len}
use vouchr.RateLimit.{Taken, take}
use vouchr.RateLimit
use vouchr.Approval.{ApprovalKey, Columns, Row, Table, key_params, max_approval_path_bytes}
use vouchr.Approval.Who.{Delegation, unbound, bound, ordinary, delegation_of}
use vouchr.Approval.Request.{ApprovalStatement, RequestResult, request_on}
use vouchr.Approval.Grant.{Spent, nothing, spent, authorization_changed, consume_audited}
use vouchr.Egress.Method.{canonical_method}
use vouchr.Egress.Gate.{
  Url, ApprovalRule, RateRule, Handle, Gate, allowed, invalid_url, denied, egress_gate,
  approval_needed, approval_key,
}
use vouchr.Egress.Gate.Rule.{Passes, egress_gate_iff}
use vouchr.Egress.Admission.{
  State, Answers, Digests, Admission, proceeds, asked_of, statement_ok, requested_with, ask,
  spent_with, spend_live, spend, approve_with, bind_with, taken_with, rate_with, valid_with,
  gate_with, method_with, admit,
}

abbrev same_true : (o : Option String) (c : String) → (o == some c) ≡ true → o ≡ some c
same_true o c e = (option_equals_iff string_eq o (some c)).0 e

pub admission-cases :
    (P : Admission × State → Type 0) (b : Bool) (x y : Admission × State)
    → (b ≡ true → P x)
    → (b ≡ false → P y)
    → P (if b then x else y)
admission-cases P b x y p q = if-cases P b x y p q

module _ (dig : Digests) (a : Answers) where
  -- The grant is one that consuming the action's key gave, in this call, and for the live credential.
  pub record IsSpent (k : ApprovalKey) (s s' : State) (g : Option Row) : Type 0 where
    pub columns : Columns
    pub keyed : key_params k ≡ some columns
    pub live : a.live_id ≡ some k.credential_id
    pub row : Row
    pub given : g ≡ some row
    pub consumed :
        consume_audited (dig.action k) columns a.check a.now_us a.later_us s.approvals
        ≡ (spent row, s'.approvals)

  ask-stops :
      (k : ApprovalKey) (st : ApprovalStatement) (s : State) (g : Option Row)
      → (ask dig a k st s).0 ≢ proceeds g
  unfolding ask requested_with
  ask-stops k st s g = elim (Bool-cases a.request_valid) [
    | inl ok ↦ rw ok (answer (request_on (dig.action k) k st k.delegated a.attempts s.approvals))
    | inr bad ↦ rw bad (λ e. absurd (ground arith))
  ]
    where
      answer : (r : RequestResult) → (requested_with dig a s r).0 ≢ proceeds g
      answer (RequestResult.refused e) q = absurd (ground arith)
      answer (RequestResult.answered (r, t)) q = absurd (ground arith)

  spent_with-proceeds :
      (k : ApprovalKey) (st : ApprovalStatement) (s : State) (x : Spent × Table) (g : Option Row)
      → (spent_with dig a k st s x).0 ≡ proceeds g
      → (r : Row) × (g ≡ some r) × (x ≡ (spent r, (spent_with dig a k st s x).1.approvals))
  unfolding spent_with
  spent_with-proceeds k st s (nothing, t) g e =
      absurd (ask-stops k st (record s { approvals = t }) g e)
  spent_with-proceeds k st s (spent r, t) g e = (r, ground arith, refl)
  spent_with-proceeds k st s (authorization_changed, t) g e = absurd (ground arith)

  spend_live-proceeds :
      (k : ApprovalKey) (st : ApprovalStatement) (s : State) (o : Option Columns) (g : Option Row)
      → key_params k ≡ o
      → a.live_id ≡ some k.credential_id
      → (spend_live dig a k st s o).0 ≡ proceeds g
      → IsSpent k s (spend_live dig a k st s o).1 g
  unfolding spend_live
  spend_live-proceeds k st s none g p l e = absurd (ground arith)
  spend_live-proceeds k st s (some c) g p l e =
      let r =
        spent_with-proceeds k st s
          (consume_audited (dig.action k) c a.check a.now_us a.later_us s.approvals) g e in
      record { columns = c; keyed = p; live = l; row = r.0; given = r.1; consumed = r.2 }

  live-proceeds :
      (k : ApprovalKey) (st : ApprovalStatement) (s : State) (g : Option Row)
      → (spend dig a k st s ordinary).0 ≡ proceeds g
      → IsSpent k s (spend dig a k st s ordinary).1 g
  unfolding spend
  live-proceeds k st s g e = elim (Bool-cases (a.live_id == some k.credential_id)) [
    | inl live ↦ rw live (
        spend_live-proceeds k st s (key_params k) g refl (same_true a.live_id k.credential_id live)
          (rw live at e))
    | inr gone ↦ absurd (ground arith)
  ]

  spend-proceeds :
      (k : ApprovalKey) (st : ApprovalStatement) (s : State) (d : Delegation) (g : Option Row)
      → (spend dig a k st s d).0 ≡ proceeds g
      → IsSpent k s (spend dig a k st s d).1 g
  unfolding spend
  spend-proceeds k st s unbound g e = absurd (ask-stops k st s g e)
  spend-proceeds k st s ordinary g e = live-proceeds k st s g e
  spend-proceeds k st s bound g e = live-proceeds k st s g e

  none-needed : (m p : String) → approval_needed none m p ≡ false
  unfolding approval_needed
  none-needed m p = refl

  module _ (h : Handle) (u : Url) (st : ApprovalStatement) where
    -- No approval is needed, or one is spent.
    abbrev pub IsApproved : String → String → State → State → Option Row → Type 0
    IsApproved method c s s' g =
        ((approval_needed h.provider.approval method u.pathname ≡ false) × (g ≡ none) × (s' ≡ s))
        ⊎ ((rule : ApprovalRule) × (h.provider.approval ≡ some rule)
            × IsSpent (approval_key dig.query h u method c rule) s s' g)

    approve_with-proceeds :
        (method c : String) (s : State) (o : Option ApprovalRule) (g : Option Row)
        → h.provider.approval ≡ o
        → (approve_with dig a h u st method c s o).0 ≡ proceeds g
        → IsApproved method c s (approve_with dig a h u st method c s o).1 g
    unfolding approve_with
    approve_with-proceeds method c s none g p =
        λ e. inl (rw p (none-needed method u.pathname), ground arith, refl)
    approve_with-proceeds method c s (some rule) g p =
        admission-cases (λ r. r.0 ≡ proceeds g → IsApproved method c s r.1 g)
          (approval_needed (some rule) method u.pathname) _ _
          (λ needed.
            admission-cases (λ r. r.0 ≡ proceeds g → IsApproved method c s r.1 g) a.approvals_wired
              _ _
              (λ wired e. inr (
                rule,
                p,
                spend-proceeds (approval_key dig.query h u method c rule) st s
                    (delegation_of (asked_of (approval_key dig.query h u method c rule))) g e,
              ))
              (λ missing e. absurd (ground arith)))
          (λ free e. inl (rw p free, ground arith, refl))

    -- The rate of the provider, if it has one, admitted the call.
    abbrev pub IsRated : State → State → Type 0
    IsRated s s' =
        (s'.approvals ≡ s.approvals)
        × (((h.provider.rate_limit ≡ none) × (s'.rates ≡ s.rates))
            ⊎ ((rl : RateRule) × (h.provider.rate_limit ≡ some rl)
                × (take a.now_ms a.lock_key 60000 rl.per_minute
                      (get_or rl.burst rl.per_minute * 60000) s.rates
                    ≡ (Taken.ok, s'.rates))))

    -- What holds when the secret is read: `s` is the state at the call, `s'` the state then.
    pub record Admitted (raw : String) (s s' : State) (g : Option Row) : Type 0 where
      pub method : String
      pub canonical : canonical_method raw ≡ some method
      pub passes : Passes h.provider u method
      pub within :
          approval_needed h.provider.approval method u.pathname ≡ true
          → len u.pathname ≤ max_approval_path_bytes
      pub current : a.use_still_valid ≡ true
      pub middle : State
      pub rated : IsRated s middle
      pub credential_id : String
      pub pinned : a.bound ≡ some credential_id
      pub approved : IsApproved method credential_id middle s' g

    bind_with-proceeds :
        (method : String) (s : State) (o : Option String) (g : Option Row)
        → a.bound ≡ o
        → (bind_with dig a h u st method s o).0 ≡ proceeds g
        → (c : String) × (a.bound ≡ some c)
          × IsApproved method c s (bind_with dig a h u st method s o).1 g
    unfolding bind_with
    bind_with-proceeds method s none g p e = absurd (ground arith)
    bind_with-proceeds method s (some c) g p e =
        (c, p, approve_with-proceeds method c s h.provider.approval g refl e)

    -- What the rate and the credential leave.
    abbrev Rated : String → State → State → Option Row → Type 0
    Rated method s s' g =
        (m : State) × IsRated s m × ((c : String) × (a.bound ≡ some c) × IsApproved method c m s' g)

    taken_with-proceeds :
        (method : String) (s : State) (rl : RateRule) (x : Taken × RateLimit.Store) (g : Option Row)
        → h.provider.rate_limit ≡ some rl
        → take a.now_ms a.lock_key 60000 rl.per_minute
            (get_or rl.burst rl.per_minute * 60000)
            s.rates
          ≡ x
        → (taken_with dig a h u st method s x).0 ≡ proceeds g
        → Rated method s (taken_with dig a h u st method s x).1 g
    unfolding taken_with
    taken_with-proceeds method s rl (Taken.ok, rates) g p t e = (
      record s { rates = rates },
      (refl, inr (rl, p, t)),
      bind_with-proceeds method (record s { rates = rates }) a.bound g refl e,
    )
    taken_with-proceeds method s rl (Taken.retry_after ms, rates) g p t e = absurd (ground arith)

    rate_with-proceeds :
        (method : String) (s : State) (o : Option RateRule) (g : Option Row)
        → h.provider.rate_limit ≡ o
        → (rate_with dig a h u st method s o).0 ≡ proceeds g
        → Rated method s (rate_with dig a h u st method s o).1 g
    unfolding rate_with
    rate_with-proceeds method s none g p e =
        (s, (refl, inl (p, refl)), bind_with-proceeds method s a.bound g refl e)
    rate_with-proceeds method s (some rl) g p e =
        taken_with-proceeds method s rl
          (take a.now_ms a.lock_key 60000 rl.per_minute (get_or rl.burst rl.per_minute * 60000)
            s.rates)
          g p refl e

    abbrev too_large : String → Bool
    too_large method =
        approval_needed h.provider.approval method u.pathname
        && ltb max_approval_path_bytes (len u.pathname)

    abbrev Valid : String → State → State → Option Row → Type 0
    Valid method s s' g =
        (too_large method ≡ false) × (a.use_still_valid ≡ true) × Rated method s s' g

    valid_with-proceeds :
        (method : String) (s : State) (g : Option Row)
        → (valid_with dig a h u st method s).0 ≡ proceeds g
        → Valid method s (valid_with dig a h u st method s).1 g
    unfolding valid_with
    valid_with-proceeds method s g =
        admission-cases (λ r. r.0 ≡ proceeds g → Valid method s r.1 g) (too_large method) _ _
          (λ large e. absurd (ground arith))
          (λ small.
            admission-cases (λ r. r.0 ≡ proceeds g → Valid method s r.1 g) a.use_still_valid _ _
              (λ now e. (small, now, rate_with-proceeds method s h.provider.rate_limit g refl e))
              (λ gone e. absurd (ground arith)))

    gate_with-proceeds :
        (method : String) (s : State) (o : Gate) (g : Option Row)
        → (gate_with dig a h u st method s o).0 ≡ proceeds g
        → (o ≡ allowed) × Valid method s (gate_with dig a h u st method s o).1 g
    unfolding gate_with
    gate_with-proceeds method s allowed g e = (refl, valid_with-proceeds method s g e)
    gate_with-proceeds method s invalid_url g e = absurd (ground arith)
    gate_with-proceeds method s (denied r) g e = absurd (ground arith)

    method_with-proceeds :
        (raw : String) (s : State) (o : Option String) (g : Option Row)
        → canonical_method raw ≡ o
        → (method_with dig a h u st s o).0 ≡ proceeds g
        → Admitted raw s (method_with dig a h u st s o).1 g
    unfolding method_with
    method_with-proceeds raw s none g p = λ e. absurd (ground arith)
    method_with-proceeds raw s (some method) g p =
        admission-cases (λ r. r.0 ≡ proceeds g → Admitted raw s r.1 g) (statement_ok st.reason) _ _
          (λ stated e.
            let r = gate_with-proceeds method s (egress_gate h.provider u method) g e in
            let v = r.1 in
            record {
              method = method;
              canonical = p;
              passes = (egress_gate_iff h.provider u method).0 r.0;
              within = λ needed. ground (arith, v.0);
              current = v.1;
              middle = v.2.0;
              rated = v.2.1;
              credential_id = v.2.2.0;
              pinned = v.2.2.1;
              approved = v.2.2.2;
            })
          (λ bad e. absurd (ground arith))

    -- Where `fetch` goes on to read the secret: the method is canonical, the request passes every check
    -- of the gate, the path of an action that needs approval is bounded, the handle still has its
    -- authority, the rate admitted the call, a credential is pinned, and either no approval is needed
    -- and the table of approvals is as it was, or a grant for this very action was consumed in this
    -- call, under the credential that is live.
    pub admit-Admitted :
        (raw : String) (s : State) (g : Option Row)
        → (admit dig a h u st raw s).0 ≡ proceeds g
        → Admitted raw s (admit dig a h u st raw s).1 g
    unfolding admit
    admit-Admitted raw s g e = method_with-proceeds raw s (canonical_method raw) g refl e
