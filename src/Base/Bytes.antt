-- ===== src/Base/Bytes.antt =====
-- Byte sequences: their equality, and the parts that Buffer.subarray and String.slice take.
use mathlib.Core.Path.{◌≡◌, refl, sym, ap, ◌∙◌}
use mathlib.Core.Logic.{◌↔◌}
use mathlib.Core.Bool.{Bool, true, false, ◌&&◌}
use mathlib.Core.List.{List, [], ◌∷◌, ◌++◌}
use Prim.Native.Nat.{ℕ, zero, suc, ◌+◌, ◌≤◌}
use native.Mathlib.Omega.{arith}
use vouchr.Base.Eq.{Eq}
use vouchr.Base.Lists.{length}

abbrev list_equals {ℓ} : {V : Type ℓ} → Eq V → List V → List V → Bool
list_equals e [] [] = true
list_equals e (x ∷ xs) (y ∷ ys) = e.equals x y && list_equals e xs ys
list_equals e _ _ = false

pub list_equals_iff {ℓ} :
    {V : Type ℓ} (e : Eq V) (xs ys : List V) → (list_equals e xs ys ≡ true) ↔ (xs ≡ ys)
list_equals_iff e [] [] = ground arith
list_equals_iff e [] (y ∷ ys) = ground arith
list_equals_iff e (x ∷ xs) [] = ground arith
list_equals_iff e (x ∷ xs) (y ∷ ys) = ground (arith, e.equals_iff x y, list_equals_iff e xs ys)

instance abbrev pub list_eq {ℓ} : {V : Type ℓ} ⦃e : Eq V⦄ → Eq (List V)
list_eq ⦃e⦄ = record { equals = list_equals e; equals_iff = list_equals_iff e }

shift : (m n : ℕ) → suc m + n ≡ suc (m + n)
shift m n = omega arith

module _ {ℓ} {A : Type ℓ} where
  abbrev pub take : ℕ → List A → List A
  take zero xs = []
  take (suc n) [] = []
  take (suc n) (x ∷ xs) = x ∷ take n xs

  abbrev pub drop : ℕ → List A → List A
  drop zero xs = xs
  drop (suc n) [] = []
  drop (suc n) (x ∷ xs) = drop n xs

  pub take-append : (n : ℕ) (xs ys : List A) → length xs ≡ n → take n (xs ++ ys) ≡ xs
  take-append zero [] ys e = refl
  take-append zero (x ∷ xs) ys e = absurd (omega (arith, e))
  take-append (suc n) [] ys e = absurd (omega (arith, e))
  take-append (suc n) (x ∷ xs) ys e = ap (λ l. x ∷ l) (take-append n xs ys (omega (arith, e)))

  pub drop-append : (n : ℕ) (xs ys : List A) → length xs ≡ n → drop n (xs ++ ys) ≡ ys
  drop-append zero [] ys e = refl
  drop-append zero (x ∷ xs) ys e = absurd (omega (arith, e))
  drop-append (suc n) [] ys e = absurd (omega (arith, e))
  drop-append (suc n) (x ∷ xs) ys e = drop-append n xs ys (omega (arith, e))

  drop-nil : (n : ℕ) → ◌≡◌ {A = List A} (drop n []) []
  drop-nil zero = refl
  drop-nil (suc n) = refl

  pub drop-add : (m n : ℕ) (xs : List A) → drop (m + n) xs ≡ drop n (drop m xs)
  drop-add zero n xs = ap (λ k. drop k xs) (omega arith)
  drop-add (suc m) n [] = drop-nil (suc m + n) ∙ sym (drop-nil n)
  drop-add (suc m) n (x ∷ xs) = rw (shift m n) (drop-add m n xs)

  pub length-take : (n : ℕ) (xs : List A) → n ≤ length xs → length (take n xs) ≡ n
  length-take zero xs h = refl
  length-take (suc n) [] h = absurd (omega (arith, h))
  length-take (suc n) (x ∷ xs) h = omega (arith, length-take n xs (omega (arith, h)))

  pub length-drop : (n : ℕ) (xs : List A) → n ≤ length xs → n + length (drop n xs) ≡ length xs
  length-drop zero xs h = omega arith
  length-drop (suc n) [] h = absurd (omega (arith, h))
  length-drop (suc n) (x ∷ xs) h = omega (arith, length-drop n xs (omega (arith, h)))
