-- ===== src/Approval/Grant/Exact.antt =====
-- What a spend covers.
use vouchr.Base.{
  ℕ, String, ◌≡◌, refl, ◌≢◌, inl, inr, true, [], ◌∷◌, Option, none, some, arith, sym, ap, ◌∙◌,
}
use text.Mathlib.TextEquality.{eq_iff}
use vouchr.Base.Eq.{string_eq}
use vouchr.Base.Lists.{All, Any}
use vouchr.Base.Table.{select-in, select-holds}
use vouchr.Owner.{kind_eq, kind_beq_iff}
use vouchr.Approval.{
  Columns, Row, Table, once, thread, grant_eq, grant_beq_iff, bool_eq, bool_beq_iff, match_sql,
  same_parties, same_action,
}
use vouchr.Approval.Grant.{is_spendable, consume_on, live_grant, is_live_grant, spend_candidate}
use vouchr.Approval.Run.Once.{IsKeyed}
use vouchr.Approval.Run.Granted.{spent-selected, spendable-facts}

no-row :
    (t : Table) (a b : Row)
    → All (λ (x : Row). x.id ≢ a.id) t
    → Any (λ (x : Row). x ≡ b) t
    → a.id ≢ b.id
no-row [] a b h q = elim q [ ]
no-row (x ∷ t) a b (other, h) (inl q) = λ e. other (ap (λ (y : Row). y.id) q ∙ sym e)
no-row (x ∷ t) a b (other, h) (inr q) = no-row t a b h q

-- Two rows of a table with one id are one row.
keyed_unique :
    (t : Table)
    → IsKeyed t
    → (a b : Row) → Any (λ x. x ≡ a) t
    → Any (λ x. x ≡ b) t
    → a.id ≡ b.id
    → a ≡ b
keyed_unique [] d a b p q e = elim p [ ]
keyed_unique (x ∷ t) (others, d) a b (inl p) (inl q) e = cc
keyed_unique (x ∷ t) (others, d) a b (inl p) (inr q) e =
    absurd (no-row t x b others q (ap (λ (y : Row). y.id) p ∙ e))
keyed_unique (x ∷ t) (others, d) a b (inr p) (inl q) e =
    absurd (no-row t x a others p (ap (λ (y : Row). y.id) q ∙ sym e))
keyed_unique (x ∷ t) (others, d) a b (inr p) (inr q) e = keyed_unique t d a b p q e

-- What `match_sql` compares.
abbrev pub Covers : Columns → Columns → Type 0
Covers r k =
    (r.team_id ≡ k.team_id)
    × (r.user_id ≡ k.user_id)
    × (r.owner_kind ≡ k.owner_kind)
    × (r.owner_id ≡ k.owner_id)
    × (r.credential_id ≡ k.credential_id)
    × (r.provider ≡ k.provider)
    × (r.grant ≡ k.grant)
    × (r.channel ≡ k.channel)
    × (r.thread ≡ k.thread)
    × (r.governable_channel ≡ k.governable_channel)
    × (r.delegated ≡ k.delegated)

abbrev pub IsExact : Columns → Columns → Type 0
IsExact r k =
    (r.method ≡ k.method)
    × (r.origin ≡ k.origin)
    × (r.host ≡ k.host)
    × (r.path ≡ k.path)
    × (r.query_hash ≡ k.query_hash)

match_sql-Covers : (r k : Columns) → match_sql r k ≡ true → Covers r k
unfolding match_sql same_parties
match_sql-Covers r k h = (
  ground (arith, eq_iff r.team_id k.team_id),
  ground (arith, eq_iff r.user_id k.user_id),
  ground (arith, kind_beq_iff r.owner_kind k.owner_kind),
  ground (arith, eq_iff r.owner_id k.owner_id),
  ground (arith, eq_iff r.credential_id k.credential_id),
  ground (arith, eq_iff r.provider k.provider),
  ground (arith, grant_beq_iff r.grant k.grant),
  ground (arith, eq_iff r.channel k.channel),
  ground (arith, eq_iff r.thread k.thread),
  ground (arith, eq_iff r.governable_channel k.governable_channel),
  ground (arith, bool_beq_iff r.delegated k.delegated),
)

match_sql-IsExact : (r k : Columns) → match_sql r k ≡ true → r.grant ≡ once → IsExact r k
unfolding match_sql same_action
match_sql-IsExact r k h e = (
  ground (arith, eq_iff r.method k.method, grant_beq_iff r.grant thread),
  ground (arith, eq_iff r.origin k.origin, grant_beq_iff r.grant thread),
  ground (arith, eq_iff r.host k.host, grant_beq_iff r.grant thread),
  ground (arith, eq_iff r.path k.path, grant_beq_iff r.grant thread),
  ground (arith, eq_iff r.query_hash k.query_hash, grant_beq_iff r.grant thread),
)

live_grant-match_sql :
    (action_key : String) (k : Columns) (now : ℕ) (r : Row)
    → is_live_grant action_key k now r ≡ true
    → match_sql r.columns k ≡ true
unfolding is_live_grant
live_grant-match_sql action_key k now r h = ground arith

-- Where the table has one row at most for an id: a grant that is spent for an action is of the same
-- requester, credential, provider, conversation and scope, and, where it is for one use, of the same
-- method, origin, host, path and query.
pub consume_on-Covers :
    (action_key : String) (k : Columns) (now later : ℕ) (t : Table) (r : Row)
    → IsKeyed t
    → (consume_on action_key k now later t).0 ≡ some r
    → Covers r.columns k × (k.grant ≡ once → IsExact r.columns k)
unfolding consume_on spend_candidate live_grant
consume_on-Covers action_key k now later t r d e = go (live_grant action_key k now t) refl e
  where
    go :
        (o : Option Row)
        → live_grant action_key k now t ≡ o
        → (spend_candidate k.grant later t o).0 ≡ some r
        → Covers r.columns k × (k.grant ≡ once → IsExact r.columns k)
    go none p e = absurd (ground arith)
    go (some c) p e =
        let chosen = spent-selected c.id k.grant later t r e in
        let facts =
          spendable-facts c.id k.grant later r
            (select-holds (is_spendable c.id k.grant later) t chosen) in
        let same : c ≡ r =
          keyed_unique t d c r (select-in (is_live_grant action_key k now) t c p)
            (select-in (is_spendable c.id k.grant later) t r chosen) (sym facts.0) in
        let m : match_sql r.columns k ≡ true = rw same at (
          live_grant-match_sql action_key k now c
            (select-holds (is_live_grant action_key k now) t p)) in
        (
          match_sql-Covers r.columns k m,
          λ one. match_sql-IsExact r.columns k m ((match_sql-Covers r.columns k m).6 ∙ one),
        )
