-- ===== src/Egress/Method/Canonical.antt =====
-- What a canonical method is.
use Prim.Native.Char.{Char, code}
use vouchr.Base.{String, ◌≡◌, refl, ap, ◌∙◌, ◌≢◌, true, false, some, arith, nat_beq}
use text.Mathlib.TextEquality.{eq_iff}
use vouchr.Base.Eq.{string_eq}
use vouchr.Egress.Method.{
  is_lower_case, is_upper_case, every_char, is_method_char, upper_char, to_upper_case, trim_start,
  add_before, trim_end, is_forbidden, checked_method, canonical_method,
}

-- A text of capital letters.
abbrev IsCapital : String → Type 0
IsCapital t = every_char is_upper_case t ≡ true

capital-method : (t : String) → IsCapital t → every_char is_method_char t ≡ true
unfolding every_char
capital-method String.[] h = refl
capital-method (String.◌∷◌ c s) h = ground (arith, capital-method s)

trim_start-capital : (t : String) → IsCapital t → trim_start t ≡ t
unfolding every_char trim_start
trim_start-capital String.[] h = refl
trim_start-capital (String.◌∷◌ c s) h =
    let other : nat_beq (code c) 32 ≡ false = ground arith in rw other refl

trim_end-capital : (t : String) → IsCapital t → trim_end t ≡ t
unfolding every_char trim_end add_before
trim_end-capital String.[] h = refl
trim_end-capital (String.◌∷◌ c s) h =
    let other : nat_beq (code c) 32 ≡ false = ground arith in
    ap (add_before c) (trim_end-capital s (ground arith)) ∙ kept c s other
  where
    kept : (c : Char) (s : String) → nat_beq (code c) 32 ≡ false → add_before c s ≡ String.◌∷◌ c s
    kept c String.[] e = rw e refl
    kept c (String.◌∷◌ d s) e = refl

to_upper_case-capital : (t : String) → IsCapital t → to_upper_case t ≡ t
unfolding every_char to_upper_case upper_char
to_upper_case-capital String.[] h = refl
to_upper_case-capital (String.◌∷◌ c s) h =
    let other : is_lower_case (code c) ≡ false = ground arith in
    rw other (ap (λ r. String.◌∷◌ c r) (to_upper_case-capital s (ground arith)))

checked_method-eq-some :
    (x t : String)
    → checked_method x ≡ some t
    → (t ≢ "") × IsCapital t × (is_forbidden t ≡ false) × (checked_method t ≡ some t)
unfolding checked_method
checked_method-eq-some x t h =
    let same : x ≡ t = ground arith in
    let again : checked_method t ≡ some t = rw same at h in
    (ground (arith, again, eq_iff t ""), ground (arith, again), ground (arith, again), again)

-- What the canonical spelling is: a text of capital letters, not empty, none of the methods that fetch
-- forbids, and its own canonical spelling.
pub canonical_method_stable :
    (m t : String)
    → canonical_method m ≡ some t
    → (t ≢ "")
      × (every_char is_upper_case t ≡ true)
      × (is_forbidden t ≡ false)
      × (canonical_method t ≡ some t)
unfolding canonical_method
canonical_method_stable m t h =
    let checked : checked_method (to_upper_case (trim_end (trim_start m))) ≡ some t =
      ground arith in
    let facts = checked_method-eq-some (to_upper_case (trim_end (trim_start m))) t checked in
    let itself : to_upper_case (trim_end (trim_start t)) ≡ t =
      ap to_upper_case (ap trim_end (trim_start-capital t facts.1) ∙ trim_end-capital t facts.1)
      ∙ to_upper_case-capital t facts.1 in
    (facts.0, facts.1, facts.2, rw (capital-method t facts.1, itself) facts.3)
