-- ===== src/Base/Text.antt =====
-- What the program asks of a text: its code points, its length in bytes, JavaScript's white space.
use Prim.Native.Nat.{ℕ}
use Prim.Native.Char.{code}
use Prim.Native.String.{String}
use mathlib.Core.Path.{◌≡◌, refl, sym, subst}
use mathlib.Core.Logic.{◌↔◌}
use mathlib.Core.Bool.{Bool, true, false, ◌||◌, ◌&&◌, not}
use native.Mathlib.Omega.{arith}
use mathlib.Core.List.{List, [], ◌∷◌}
use mathlib.Core.Option.{Option, none, some}
use vouchr.Base.Tests.{leb, ltb, nat_beq}
use vouchr.Base.Eq.{◌==◌, string_eq}
use vouchr.Base.Lists.{any}
pub use Prim.Native.String.{len}

-- The truth value of a text or of a nullable text: '' and null are false.
abbrev pub is_truthy : Option String → Bool
is_truthy none = false
is_truthy (some s) = not (s == "")

-- s.codePointAt(0) of each character
abbrev pub code_points : String → List ℕ
code_points String.[] = []
code_points (String.◌∷◌ first rest) = code first ∷ code_points rest

-- What String.prototype.trim removes.
unfoldable pub is_space : ℕ → Bool
is_space c =
    (leb 9 c && leb c 13)
    || nat_beq c 32
    || nat_beq c 160
    || nat_beq c 5760
    || (leb 8192 c && leb c 8202)
    || nat_beq c 8232
    || nat_beq c 8233
    || nat_beq c 8239
    || nat_beq c 8287
    || nat_beq c 12288
    || nat_beq c 65279

last_is_space : ℕ → List ℕ → Bool
unfolding is_space
last_is_space c [] = is_space c
last_is_space c (d ∷ ds) = last_is_space d ds

trimmed_codes : List ℕ → Bool
unfolding last_is_space
trimmed_codes [] = true
trimmed_codes (c ∷ cs) = not (is_space c) && not (last_is_space c cs)

-- s === s.trim()
unfoldable pub is_trimmed : String → Bool
unfolding trimmed_codes
is_trimmed s = trimmed_codes (code_points s)

abbrev pub last : ℕ → List ℕ → ℕ
last c [] = c
last c (d ∷ ds) = last d ds

-- Neither the first nor the last is white space.
abbrev pub IsTrimmed : List ℕ → Type 0
IsTrimmed [] = Unit
IsTrimmed (c ∷ cs) = (is_space c ≡ false) × (is_space (last c cs) ≡ false)

last_is_space-last : (c : ℕ) (cs : List ℕ) → last_is_space c cs ≡ is_space (last c cs)
unfolding last_is_space
last_is_space-last c [] = refl
last_is_space-last c (d ∷ ds) = last_is_space-last d ds

neither : (a b : Bool) → ((not a && not b) ≡ true) ↔ ((a ≡ false) × (b ≡ false))
neither a b = ground arith

trimmed_codes_iff : (cs : List ℕ) → (trimmed_codes cs ≡ true) ↔ IsTrimmed cs
unfolding trimmed_codes
trimmed_codes_iff [] = ((λ e. tt), (λ h. refl))
trimmed_codes_iff (c ∷ cs) =
    subst (λ b. ((not (is_space c) && not b) ≡ true) ↔ IsTrimmed (c ∷ cs))
      (sym (last_is_space-last c cs)) (neither (is_space c) (is_space (last c cs)))

pub is_trimmed_iff : (s : String) → (is_trimmed s ≡ true) ↔ IsTrimmed (code_points s)
unfolding is_trimmed
is_trimmed_iff s = trimmed_codes_iff (code_points s)

-- A control character: up to 0x1f, or 0x7f.
unfoldable pub has_control_characters : String → Bool
has_control_characters s = any (λ c. leb c 31 || nat_beq c 127) (code_points s)

unfoldable pub is_prefix : List ℕ → List ℕ → Bool
is_prefix text [] = true
is_prefix [] (wanted ∷ rest) = false
is_prefix (c ∷ text) (wanted ∷ rest) = is_prefix text rest && nat_beq wanted c

unfoldable pub starts_with : String → String → Bool
unfolding is_prefix
starts_with s p = is_prefix (code_points s) (code_points p)

all_space : List ℕ → Bool
unfolding is_space
all_space [] = true
all_space (c ∷ cs) = is_space c && all_space cs

-- s.trim() === ''
unfoldable pub is_blank : String → Bool
unfolding all_space
is_blank s = all_space (code_points s)

-- A control character other than a new line or a tab, or 0x7f.
unfoldable pub has_reason_controls : String → Bool
has_reason_controls s =
    any (λ c. (ltb c 32 && not (nat_beq c 10) && not (nat_beq c 9)) || nat_beq c 127)
      (code_points s)
