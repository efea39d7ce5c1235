-- ===== src/Egress/Gate/Lock.antt =====
-- What a path lock covers.
use mathlib.Core.List.{append_assoc, append-nil}
use vouchr.Base.{
  ℕ, String, ◌≡◌, refl, ap, sym, ◌∙◌, inl, inr, ◌⊎◌, ◌↔◌, true, ◌||◌, List, [], ◌∷◌, ◌++◌, arith,
  Bool-cases,
}
use vouchr.Base.Text.{code_points, is_prefix}
use vouchr.Egress.{same_codes}
use vouchr.Egress.Gate.{ends_in_slash, path_codes_allowed, path_allowed}

same_codes_iff : (s t : List ℕ) → (same_codes s t ≡ true) ↔ (s ≡ t)
same_codes_iff [] [] = ((λ e. refl), (λ e. refl))
same_codes_iff [] (b ∷ t) = ((λ e. absurd (ground arith)), (λ e. absurd (ground arith)))
same_codes_iff (a ∷ s) [] = ((λ e. absurd (ground arith)), (λ e. absurd (ground arith)))
same_codes_iff (a ∷ s) (b ∷ t) =
    let ih = same_codes_iff s t in ((λ e. ground (arith, ih.0)), (λ e. ground (arith, ih.1)))

is_prefix_iff : (s p : List ℕ) → (is_prefix s p ≡ true) ↔ ((rest : List ℕ) × (s ≡ p ++ rest))
unfolding is_prefix
is_prefix_iff s [] = ((λ e. (s, refl)), (λ h. refl))
is_prefix_iff [] (w ∷ p) = ((λ e. absurd (ground arith)), (λ h. absurd (ground (arith, h.1))))
is_prefix_iff (c ∷ s) (w ∷ p) = (
  λ e.
      let r = (is_prefix_iff s p).0 (ground arith) in
      let same : w ≡ c = ground arith in (r.0, ground (arith, r.1)),
  λ h.
      let tail : s ≡ p ++ h.0 = ground (arith, h.1) in
      let r = (is_prefix_iff s p).1 (h.0, tail) in ground (arith, r, h.1),
)

-- The lock is the whole tree, or the path goes on from it at the border of a segment.
abbrev pub IsUnder : List ℕ → List ℕ → Type 0
IsUnder p a =
    (a ≡ 47 ∷ [])
    ⊎ ((rest : List ℕ) × (p ≡ a ++ rest)
        × ((ends_in_slash a ≡ true) ⊎ ((rest ≡ []) ⊎ ((t : List ℕ) × (rest ≡ 47 ∷ t)))))

prefix-or-same :
    (p a : List ℕ)
    → ((same_codes p a || is_prefix p (a ++ 47 ∷ [])) ≡ true)
      ↔ ((rest : List ℕ) × (p ≡ a ++ rest) × ((rest ≡ []) ⊎ ((t : List ℕ) × (rest ≡ 47 ∷ t))))
prefix-or-same p a = (
  λ e. elim (Bool-cases (same_codes p a)) [
    | inl same ↦ ([], (same_codes_iff p a).0 same ∙ sym (append-nil a), inl refl)
    | inr other ↦
        let r = (is_prefix_iff p (a ++ 47 ∷ [])).0 (rw other at e) in
        (47 ∷ r.0, r.1 ∙ append_assoc a (47 ∷ []) r.0, inr (r.0, refl))
  ],
  λ h. elim h.2 [
    | inl nothing ↦
        let whole : p ≡ a = h.1 ∙ ap (λ r. a ++ r) nothing ∙ append-nil a in
        rw ((same_codes_iff p a).1 whole) refl
    | inr deeper ↦
        let under : p ≡ (a ++ 47 ∷ []) ++ deeper.0 =
          h.1 ∙ ap (λ r. a ++ r) deeper.1 ∙ sym (append_assoc a (47 ∷ []) deeper.0) in
        let found = (is_prefix_iff p (a ++ 47 ∷ [])).1 (deeper.0, under) in ground (arith, found)
  ],
)

path_codes_allowed_iff : (p a : List ℕ) → (path_codes_allowed p a ≡ true) ↔ IsUnder p a
unfolding path_codes_allowed
path_codes_allowed_iff p a = elim (Bool-cases (same_codes a (47 ∷ []))) [
  | inl root ↦ rw root ((λ e. inl ((same_codes_iff a (47 ∷ [])).0 root)), (λ h. refl))
  | inr other ↦ elim (Bool-cases (ends_in_slash a)) [
    | inl tree ↦
        rw (other, tree)
          (
            λ e. let r = (is_prefix_iff p a).0 e in inr (r.0, r.1, inl refl),
            λ h. elim h [
              | inl e ↦ absurd (ground (arith, other, (same_codes_iff a (47 ∷ [])).1 e))
              | inr q ↦ (is_prefix_iff p a).1 (q.0, q.1)
            ],
          )
    | inr file ↦
        rw (other, file)
          (
            λ e. let r = (prefix-or-same p a).0 e in inr (r.0, r.1, inr r.2),
            λ h. elim h [
              | inl e ↦ absurd (ground (arith, other, (same_codes_iff a (47 ∷ [])).1 e))
              | inr q ↦ elim q.2 [
                | inl e ↦ absurd (ground arith)
                | inr t ↦ (prefix-or-same p a).1 (q.0, q.1, t)
              ]
            ],
          )
  ]
]

-- A path is under a lock exactly if the lock is '/', or the path is the lock's text and a rest, where
-- the lock ends in a slash, or the rest is empty or begins with a slash.
pub path_allowed_iff :
    (pathname a : String)
    → (path_allowed pathname a ≡ true) ↔ IsUnder (code_points pathname) (code_points a)
unfolding path_allowed
path_allowed_iff pathname a = path_codes_allowed_iff (code_points pathname) (code_points a)
