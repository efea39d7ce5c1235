-- ===== src/Approval/Run/Once.antt =====
-- A grant for one use is used once.
use vouchr.Base.{
  ℕ, String, ◌≡◌, refl, ◌≢◌, inl, inr, true, false, List, [], ◌∷◌, none, some, arith, Bool-cases,
}
use text.Mathlib.TextEquality.{eq_iff}
use vouchr.Base.Eq.{string_eq}
use vouchr.Base.Lists.{All}
use vouchr.Base.Table.{select, delete}
use vouchr.Approval.{Row, Table, ApprovalGrant, once, thread, grant_eq, status_eq}
use vouchr.Approval.Grant.{consume_id, is_spendable}
use vouchr.Approval.Run.{
  Step, inserts, adopts, claims, confirms, abandons, discards, approves, denies, decides, consumes,
  revokes, sweeps, purges_owner, purges_channel, run,
}
use vouchr.Approval.Run.Kept.{Keeps, All-run}

-- No two rows have one id: the primary key of the table.
abbrev pub IsKeyed : Table → Type 0
IsKeyed [] = Unit {0}
IsKeyed (r ∷ t) = All (λ (x : Row). x.id ≢ r.id) t × IsKeyed t

-- None of the steps makes a row with the id; the program's ids are random UUIDs, made for each row.
abbrev pub NotReissued : String → List Step → Type 0
NotReissued id [] = Unit {0}
NotReissued id (inserts i now ∷ steps) = (i.id ≢ id) × NotReissued id steps
NotReissued id (_ ∷ steps) = NotReissued id steps

abbrev HasOther : String → Row → Type 0
HasOther id r = r.id ≢ id

absent-Keeps :
    (id : String) (steps : List Step) → NotReissued id steps → All (Keeps (HasOther id)) steps
absent-Keeps id [] f = tt
absent-Keeps id (inserts i now ∷ steps) (new, f) = ((new, λ r other. new), absent-Keeps id steps f)
absent-Keeps id (adopts s i ∷ steps) f = (λ r other. other, absent-Keeps id steps f)
absent-Keeps id (claims i a rd token now ∷ steps) f = (λ r other. other, absent-Keeps id steps f)
absent-Keeps id (confirms i token a now ∷ steps) f = (λ r other. other, absent-Keeps id steps f)
absent-Keeps id (abandons i token a remove ∷ steps) f = (λ r other. other, absent-Keeps id steps f)
absent-Keeps id (discards i ∷ steps) f = (tt, absent-Keeps id steps f)
absent-Keeps id (approves i by ttl now ∷ steps) f = (λ r other own. other, absent-Keeps id steps f)
absent-Keeps id (denies i by now ∷ steps) f = (λ r other. other, absent-Keeps id steps f)
absent-Keeps id (decides d seen_at seen now ∷ steps) f = (
  record {
    grants = λ r other own kind. other;
    denies = λ r other. other;
    binds = λ g r other. other;
  },
  absent-Keeps id steps f,
)
absent-Keeps id (consumes a k check now later ∷ steps) f = (tt, absent-Keeps id steps f)
absent-Keeps id (revokes team user ∷ steps) f = (tt, absent-Keeps id steps f)
absent-Keeps id (sweeps now ∷ steps) f = (tt, absent-Keeps id steps f)
absent-Keeps id (purges_owner o p ∷ steps) f = (tt, absent-Keeps id steps f)
absent-Keeps id (purges_channel team c p ∷ steps) f = (tt, absent-Keeps id steps f)

spendable-id :
    (id : String) (g : ApprovalGrant) (now : ℕ) (r : Row)
    → is_spendable id g now r ≡ true
    → r.id ≡ id
unfolding is_spendable
spendable-id id g now r e = ground (arith, eq_iff r.id id)

spendable-other :
    (id : String) (g : ApprovalGrant) (now : ℕ) (r : Row)
    → r.id ≢ id
    → is_spendable id g now r ≡ false
spendable-other id g now r other = elim (Bool-cases (is_spendable id g now r)) [
  | inl hit ↦ absurd (other (spendable-id id g now r hit))
  | inr miss ↦ miss
]

delete-none :
    (id : String) (now : ℕ) (t : Table)
    → All (HasOther id) t
    → All (HasOther id) (delete (is_spendable id once now) t)
unfolding delete
delete-none id now [] h = tt
delete-none id now (r ∷ t) (other, h) =
    rw (spendable-other id once now r other) (other, delete-none id now t h)

select-absent :
    (id : String) (g : ApprovalGrant) (now : ℕ) (t : Table)
    → All (HasOther id) t
    → select (is_spendable id g now) t ≡ none
unfolding select
select-absent id g now [] h = refl
select-absent id g now (r ∷ t) (other, h) =
    rw (spendable-other id g now r other) (select-absent id g now t h)

-- After a spend no row has its id.
spent-absent :
    (id : String) (now : ℕ) (t : Table)
    → IsKeyed t
    → (r : Row) → select (is_spendable id once now) t ≡ some r
    → All (HasOther id) (delete (is_spendable id once now) t)
unfolding select delete
spent-absent id now [] d r e = absurd (ground arith)
spent-absent id now (x ∷ t) (others, d) r e = elim (Bool-cases (is_spendable id once now x)) [
  | inl hit ↦
      let own : x.id ≡ id = spendable-id id once now x hit in
      rw hit (delete-none id now t (rw own at others))
  | inr miss ↦
      let later : select (is_spendable id once now) t ≡ some r = ground arith in
      rw miss (
        λ own. absurd (ground (arith, later, select-absent id once now t (rw own at others))),
        spent-absent id now t d r later,
      )
]

-- Where the table has one row at most for an id: once a grant for one use is spent, no attempt to
-- spend its id, as a grant of either kind, at any time and after any steps that do not make a row with
-- that id again, finds anything.
pub consume-once :
    (id : String) (now : ℕ) (t : Table) (r : Row)
    → IsKeyed t
    → (consume_id id once now t).0 ≡ some r
    → (steps : List Step) → NotReissued id steps
    → (g : ApprovalGrant) (later : ℕ)
    → (consume_id id g later (run steps (consume_id id once now t).1)).0 ≡ none
unfolding consume_id
consume-once id now t r d e steps f once later =
    select-absent id once later _
      (All-run (HasOther id) steps _ (absent-Keeps id steps f) (spent-absent id now t d r e))
consume-once id now t r d e steps f thread later =
    select-absent id thread later _
      (All-run (HasOther id) steps _ (absent-Keeps id steps f) (spent-absent id now t d r e))
