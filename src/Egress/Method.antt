-- ===== src/Egress/Method.antt =====
-- The canonical spelling of an HTTP method: canonicalMethod of src/core/providers.ts. Past its first
-- test a text holds letters and ASCII spaces only, so that is all that trim and toUpperCase meet.
pub mod Canonical
use Prim.Native.Char.{Char, code}
use Prim.Native.String.{char_at}
use vouchr.Base.{
  ℕ, ◌-◌, String, Bool, true, false, ◌&&◌, ◌||◌, List, [], ◌∷◌, Option, none, some, leb, nat_beq,
  not, if◌then◌else◌,
}
use vouchr.Base.Eq.{◌==◌, string_eq}

abbrev pub is_lower_case : ℕ → Bool
is_lower_case c = leb 97 c && leb c 122

abbrev pub is_upper_case : ℕ → Bool
is_upper_case c = leb 65 c && leb c 90

-- Every character of the text meets the test.
unfoldable pub every_char : (ℕ → Bool) → String → Bool
every_char p String.[] = true
every_char p (String.◌∷◌ c s) = p (code c) && every_char p s

-- !/[^ A-Za-z]/.test(m)
abbrev pub is_method_char : ℕ → Bool
is_method_char c = nat_beq c 32 || is_upper_case c || is_lower_case c

abbrev pub letters : String
letters = "ABCDEFGHIJKLMNOPQRSTUVWXYZ"

pub upper_char : Char → Char
upper_char c = if is_lower_case (code c) then char_at letters (code c - 97) else c

unfoldable pub to_upper_case : String → String
unfolding upper_char
to_upper_case String.[] = String.[]
to_upper_case (String.◌∷◌ c s) = String.◌∷◌ (upper_char c) (to_upper_case s)

unfoldable pub trim_start : String → String
trim_start String.[] = String.[]
trim_start (String.◌∷◌ c s) =
    let rest = trim_start s in if nat_beq (code c) 32 then rest else String.◌∷◌ c s

pub add_before : Char → String → String
add_before c String.[] = if nat_beq (code c) 32 then String.[] else String.◌∷◌ c String.[]
add_before c (String.◌∷◌ d s) = String.◌∷◌ c (String.◌∷◌ d s)

unfoldable pub trim_end : String → String
unfolding add_before
trim_end String.[] = String.[]
trim_end (String.◌∷◌ c s) = add_before c (trim_end s)

abbrev pub is_forbidden : String → Bool
is_forbidden t = t == "CONNECT" || t == "TRACE" || t == "TRACK"

-- /^[A-Z]+$/.test(t), and no method that fetch forbids
pub checked_method : String → Option String
checked_method t =
    if not (t == "") && every_char is_upper_case t && not (is_forbidden t) then some t else none

unfoldable pub canonical_method : String → Option String
unfolding checked_method
canonical_method m =
    if every_char is_method_char m
    then checked_method (to_upper_case (trim_end (trim_start m)))
    else none
