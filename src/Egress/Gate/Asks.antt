-- ===== src/Egress/Gate/Asks.antt =====
-- Which requests the approval rule of a provider covers.
use text.Mathlib.TextEquality.{eq_iff}
use vouchr.Base.{
  String, ◌≡◌, refl, inl, inr, ◌⊎◌, ◌≢◌, ◌↔◌, true, List, Option, none, some, arith, Bool-cases,
}
use vouchr.Base.Eq.{string_eq}
use vouchr.Base.Lists.{any, Any}
use vouchr.Base.Text.{code_points}
use vouchr.Egress.Gate.{
  ApprovalRule, is_ambiguous, path_allowed, method_asks, path_asks, approval_needed,
}
use vouchr.Egress.Gate.Lock.{IsUnder, path_allowed_iff}
use vouchr.Egress.Gate.Rule.{any_eq, any_iff}

-- The method is one that the rule names, or is no reading method where it names none.
abbrev pub Writes : Option (List String) → String → Type 0
Writes none method = (method ≢ "GET") × (method ≢ "HEAD")
Writes (some ms) method = Any (λ m. m ≡ method) ms

-- The path is under one that the rule names, or cannot be told, or the rule names none.
abbrev pub Touches : Option (List String) → String → Type 0
Touches none pathname = Unit
Touches (some ps) pathname =
    (is_ambiguous pathname ≡ true) ⊎ Any (λ a. IsUnder (code_points pathname) (code_points a)) ps

method_asks_iff : (o : Option (List String)) (m : String) → (method_asks o m ≡ true) ↔ Writes o m
unfolding method_asks
method_asks_iff none m = (
  λ e. (ground (arith, eq_iff m "GET"), ground (arith, eq_iff m "HEAD")),
  λ h. ground (arith, eq_iff m "GET", eq_iff m "HEAD", h.0, h.1),
)
method_asks_iff (some ms) m = any_eq m ms

path_asks_iff : (o : Option (List String)) (p : String) → (path_asks o p ≡ true) ↔ Touches o p
unfolding path_asks
path_asks_iff none p = ((λ e. tt), (λ h. refl))
path_asks_iff (some ps) p = elim (Bool-cases (is_ambiguous p)) [
  | inl odd ↦ rw odd ((λ e. inl refl), (λ h. refl))
  | inr clear ↦ rw clear (
    λ e. inr ((paths ps).0 e),
    λ h. elim h [ inl e ↦ absurd (ground arith) | inr q ↦ (paths ps).1 q ],
  )
]
  where
    paths :
        (qs : List String)
        → (any (λ a. path_allowed p a) qs ≡ true)
          ↔ Any (λ a. IsUnder (code_points p) (code_points a)) qs
    paths qs =
        any_iff (λ a. path_allowed p a) (λ a. IsUnder (code_points p) (code_points a))
          (path_allowed_iff p) qs

-- A request wants an approval, one that a person gives or gave before, exactly if the provider has an
-- approval rule, the method is one that it names (any but GET and HEAD, where it names none), and the
-- path is ambiguous, or the rule names no paths, or the path is under one that it names: that one is
-- '/', or the path is its text and a rest, where it ends in a slash, or the rest is empty or begins
-- with a slash.
pub approval_needed_iff :
    (rule : Option ApprovalRule) (method pathname : String)
    → (approval_needed rule method pathname ≡ true)
      ↔ ((a : ApprovalRule) × (rule ≡ some a) × Writes a.methods method × Touches a.paths pathname)
unfolding approval_needed
approval_needed_iff none method pathname =
    ((λ e. absurd (ground arith)), (λ h. absurd (ground (arith, h.1))))
approval_needed_iff (some a) method pathname = (
  λ e. elim (Bool-cases (method_asks a.methods method)) [
    | inl asks ↦ (
      a,
      refl,
      (method_asks_iff a.methods method).0 asks,
      (path_asks_iff a.paths pathname).0 (rw asks at e),
    )
    | inr reads ↦ absurd (ground arith)
  ],
  λ h.
      let same : a ≡ h.0 = ground (arith, h.1) in
      rw
        (
          (method_asks_iff a.methods method).1 (rw (← same) at h.2),
          (path_asks_iff a.paths pathname).1 (rw (← same) at h.3),
        )
        refl,
)
