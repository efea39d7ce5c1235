-- ===== src/Base/Eq.antt =====
-- Equality tests by instance, as `===` on texts, numbers and nullable values.
use Prim.Native.Nat.{ℕ}
use Prim.Native.String.{String}
use mathlib.Core.Path.{◌≡◌, ap}
use mathlib.Core.Logic.{◌↔◌}
use mathlib.Core.Bool.{Bool, true, false}
use mathlib.Core.Option.{Option, none, some}
use native.Mathlib.Omega.{arith}
use text.Mathlib.Text.{◌==◌ as same_text}
use text.Mathlib.TextEquality.{eq_iff}
use vouchr.Base.Tests.{nat_beq, nat_beq_iff}

-- A test of the values of a type, and that it decides their equality.
pub record Eq {ℓ} (V : Type ℓ) : Type ℓ where
  pub equals : V → V → Bool
  pub equals_iff : (x y : V) → (equals x y ≡ true) ↔ (x ≡ y)

instance abbrev pub string_eq : Eq String
string_eq = record { equals = same_text; equals_iff = eq_iff }

abbrev option_equals {ℓ} : {V : Type ℓ} → Eq V → Option V → Option V → Bool
option_equals e none none = true
option_equals e (some x) (some y) = e.equals x y
option_equals e _ _ = false

pub option_equals_iff {ℓ} :
    {V : Type ℓ} (e : Eq V) (x y : Option V) → (option_equals e x y ≡ true) ↔ (x ≡ y)
option_equals_iff e none none = ground arith
option_equals_iff e none (some y) = ground arith
option_equals_iff e (some x) none = ground arith
option_equals_iff e (some x) (some y) =
    ((λ h. ap some ((e.equals_iff x y).0 h)), (λ h. (e.equals_iff x y).1 (cc)))

instance abbrev pub option_eq {ℓ} : {V : Type ℓ} ⦃e : Eq V⦄ → Eq (Option V)
option_eq ⦃e⦄ = record { equals = option_equals e; equals_iff = option_equals_iff e }

instance abbrev pub nat_eq : Eq ℕ
nat_eq = record { equals = nat_beq; equals_iff = nat_beq_iff }

infix 50 ◌==◌
abbrev pub ◌==◌ {ℓ} : {V : Type ℓ} ⦃test : Eq V⦄ → V → V → Bool
◌==◌ ⦃test⦄ x y = test.equals x y
