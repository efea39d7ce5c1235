-- ===== src/Base/Table.antt =====
-- A database table as the list of its rows, and the statements that the program runs on it.
use Prim.Native.Nat.{ℕ, suc}
use mathlib.Core.Path.{◌≡◌, refl, subst}
use mathlib.Core.Logic.{inl, inr}
use mathlib.Core.Bool.{Bool, true, false}
use mathlib.Core.List.{List, [], ◌∷◌}
use mathlib.Core.Option.{Option, none, some}
use native.Mathlib.Omega.{arith}
use vouchr.Base.Tests.{if◌then◌else◌, Bool-cases}
use vouchr.Base.Lists.{All, Any}

module _ {ℓ} {R : Type ℓ} where
  -- SELECT … WHERE p LIMIT 1
  unfoldable pub select : (R → Bool) → List R → Option R
  select p [] = none
  select p (r ∷ t) = if p r then some r else select p t

  -- SELECT … WHERE p
  unfoldable pub select_all : (R → Bool) → List R → List R
  select_all p [] = []
  select_all p (r ∷ t) = let rest = select_all p t in if p r then r ∷ rest else rest

  -- DELETE … WHERE p
  unfoldable pub delete : (R → Bool) → List R → List R
  delete p [] = []
  delete p (r ∷ t) = let rest = delete p t in if p r then rest else r ∷ rest

  -- UPDATE … SET f WHERE p
  unfoldable pub update : (R → Bool) → (R → R) → List R → List R
  update p f [] = []
  update p f (r ∷ t) = (if p r then f r else r) ∷ update p f t

  -- The number of rows that a statement with WHERE p changes.
  unfoldable pub changes : (R → Bool) → List R → ℕ
  changes p [] = 0
  changes p (r ∷ t) = if p r then suc (changes p t) else changes p t

module _ {R : Type 0} (p : R → Bool) where
  -- A selected row is in the table and meets the condition.
  pub select-Any : (t : List R) {r : R} → select p t ≡ some r → Any (λ x. (x ≡ r) × (p x ≡ true)) t
  unfolding select
  select-Any [] e = cc
  select-Any (x ∷ t) e = elim (Bool-cases (p x)) [
    | inl hit ↦ inl (ground arith, hit)
    | inr miss ↦ inr (select-Any t (ground arith))
  ]

  -- A selected row is in the table.
  pub select-in : (t : List R) (r : R) → select p t ≡ some r → Any (λ x. x ≡ r) t
  unfolding select
  select-in [] r e = absurd (ground arith)
  select-in (x ∷ t) r e = elim (Bool-cases (p x)) [
    | inl hit ↦ inl (ground arith)
    | inr miss ↦ inr (select-in t r (ground arith))
  ]

  pub select-holds : (t : List R) {r : R} → select p t ≡ some r → p r ≡ true
  unfolding select
  select-holds [] e = cc
  select-holds (x ∷ t) e = elim (Bool-cases (p x)) [
    | inl hit ↦ ground arith
    | inr miss ↦ select-holds t (ground arith)
  ]

  pub select-eq-none : (t : List R) → All (λ r. p r ≡ false) t → select p t ≡ none
  unfolding select
  select-eq-none [] h = refl
  select-eq-none (x ∷ t) h = ground (arith, select-eq-none t h.1)

  pub All-of_select-eq-none : (t : List R) → select p t ≡ none → All (λ r. p r ≡ false) t
  unfolding select
  All-of_select-eq-none [] e = tt
  All-of_select-eq-none (x ∷ t) e = elim (Bool-cases (p x)) [
    | inl hit ↦ ground arith
    | inr miss ↦ (miss, All-of_select-eq-none t (ground arith))
  ]

module _ {ℓ κ} {R : Type ℓ} (P : R → Type κ) (p : R → Bool) where
  pub All-delete : (t : List R) → All P t → All P (delete p t)
  unfolding delete
  All-delete [] h = tt
  All-delete (x ∷ t) h = elim (Bool-cases (p x)) [
    | inl hit ↦ rw hit (All-delete t h.1)
    | inr miss ↦ rw miss (h.0, All-delete t h.1)
  ]

  pub All-update :
      (f : R → R)
      → ((r : R) → P r → p r ≡ true → P (f r))
      → (t : List R) → All P t
      → All P (update p f t)
  unfolding update
  All-update f keep [] h = tt
  All-update f keep (x ∷ t) h = elim (Bool-cases (p x)) [
    | inl hit ↦ rw hit (keep x h.0 hit, All-update f keep t h.1)
    | inr miss ↦ rw miss (h.0, All-update f keep t h.1)
  ]

  pub All-select : (t : List R) → All P t → {r : R} → select p t ≡ some r → P r
  unfolding select
  All-select [] h e = cc
  All-select (x ∷ t) h e = elim (Bool-cases (p x)) [
    | inl hit ↦ subst P (ground arith) h.0
    | inr miss ↦ All-select t h.1 (ground arith)
  ]
