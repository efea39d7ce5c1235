-- ===== src/Base/Assoc.antt =====
-- A JavaScript Map as an association list: get, set, delete and their laws.
use mathlib.Core.Path.{◌≡◌, refl}
use mathlib.Core.List.{List, [], ◌∷◌}
use mathlib.Core.Option.{Option, none, some}
use native.Mathlib.Omega.{arith}
use vouchr.Base.Tests.{if◌then◌else◌}
use vouchr.Base.Eq.{Eq, ◌==◌}

module _ {ℓ κ} {Key : Type ℓ} {Value : Type κ} ⦃test : Eq Key⦄ where
  -- map.delete(gone)
  unfoldable pub erase : Key → List (Key × Value) → List (Key × Value)
  erase gone [] = []
  erase gone ((own, held) ∷ others) =
      let kept = erase gone others in if own == gone then kept else (own, held) ∷ kept

  -- map.get(wanted)
  unfoldable pub lookup : Key → List (Key × Value) → Option Value
  lookup wanted [] = none
  lookup wanted ((own, held) ∷ others) = if own == wanted then some held else lookup wanted others

  -- What is found after a deletion.
  pub lookup-erase :
      (gone wanted : Key) (m : List (Key × Value))
      → lookup wanted (erase gone m) ≡ (if gone == wanted then none else lookup wanted m)
  unfolding lookup erase
  lookup-erase gone wanted [] = ground arith
  lookup-erase gone wanted ((own, held) ∷ others) = ground (
    arith,
    lookup-erase gone wanted others,
    test.equals_iff gone wanted,
    test.equals_iff own gone,
    test.equals_iff own wanted,
  )

  -- map.set(at, value)
  unfoldable pub insert : Key → Value → List (Key × Value) → List (Key × Value)
  insert at value [] = (at, value) ∷ []
  insert at value ((own, held) ∷ others) =
      let rest = insert at value others in
      if own == at then (at, value) ∷ others else (own, held) ∷ rest

  -- What is found after an entry is set.
  pub lookup-insert :
      (at wanted : Key) (value : Value) (m : List (Key × Value))
      → lookup wanted (insert at value m) ≡ (if at == wanted then some value else lookup wanted m)
  unfolding lookup insert
  lookup-insert at wanted value [] = refl
  lookup-insert at wanted value ((own, held) ∷ others) = ground (
    arith,
    lookup-insert at wanted value others,
    test.equals_iff at wanted,
    test.equals_iff own at,
    test.equals_iff own wanted,
  )
