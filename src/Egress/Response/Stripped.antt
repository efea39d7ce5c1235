-- ===== src/Egress/Response/Stripped.antt =====
-- What deleting headers leaves.
use vouchr.Base.{
  String, ◌≡◌, refl, inl, inr, false, List, [], ◌∷◌, none, arith, is_some, Bool-cases,
}
use vouchr.Base.Lists.{any, All}
use vouchr.Egress.Response.{same_name, header, without, without_all}

header-without : (h : String) (l : List (String × String)) → header h (without h l) ≡ none
unfolding header without
header-without h [] = refl
header-without h ((own, value) ∷ l) = elim (Bool-cases (same_name own h)) [
  | inl same ↦ rw same (header-without h l)
  | inr other ↦ rw (other, other) (header-without h l)
]

absent-without :
    (g h : String) (l : List (String × String)) → header h l ≡ none → header h (without g l) ≡ none
unfolding header without
absent-without g h [] e = refl
absent-without g h ((own, value) ∷ l) e = elim (Bool-cases (same_name own h)) [
  | inl same ↦ absurd (ground arith)
  | inr other ↦ elim (Bool-cases (same_name own g)) [
    | inl gone ↦ rw gone (absent-without g h l (ground arith))
    | inr stays ↦ rw (stays, other) (absent-without g h l (ground arith))
  ]
]

absent-without_all :
    (names : List String) (h : String) (l : List (String × String))
    → header h l ≡ none
    → header h (without_all names l) ≡ none
unfolding without_all
absent-without_all [] h l e = e
absent-without_all (g ∷ names) h l e =
    absent-without_all names h (without g l) (absent-without g h l e)

-- None of the names is left.
abbrev pub IsStripped : List String → List (String × String) → Type 0
IsStripped names headers = All (λ h. header h headers ≡ none) names

pub without_all-IsStripped :
    (names : List String) (l : List (String × String)) → IsStripped names (without_all names l)
unfolding without_all
without_all-IsStripped [] l = tt
without_all-IsStripped (h ∷ names) l = (
  absent-without_all names h (without h l) (header-without h l),
  without_all-IsStripped names (without h l),
)

pub none-IsStripped :
    (names : List String) (l : List (String × String))
    → any (λ h. is_some (header h l)) names ≡ false
    → IsStripped names l
none-IsStripped [] l e = tt
none-IsStripped (h ∷ names) l e = (ground arith, none-IsStripped names l (ground arith))
