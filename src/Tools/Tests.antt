-- ===== src/Tools/Tests.antt =====
-- A channel's first configuration, and the theorems at it.
use vouchr.Base.{String, ◌≡◌, refl, inr, Bool, true, false, List, [], ◌∷◌, get_or, arith}
use text.Mathlib.TextEquality.{eq_iff}
use vouchr.Base.Eq.{string_eq}
use vouchr.Base.Assoc.{lookup, insert}
use vouchr.Tools.{
  Table, key, is_enabled, enabled_snapshot, list_enabled, apply_channel_tools_enabled,
  set_channel_tool_enabled, desired,
}
use vouchr.Tools.Effect.{IsTable, is_enabled-apply, is_enabled-apply_other}

abbrev changes : List (String × Bool)
changes = ("github", false) ∷ ("github", true) ∷ []

abbrev providers : List String
providers = "github" ∷ "gitlab" ∷ []

abbrev configured : Table
configured = (key "T1" "C1" "github", true) ∷ (key "T1" "C1" "gitlab", false) ∷ []

tools : Unit {0}
unfolding apply_channel_tools_enabled is_enabled enabled_snapshot list_enabled lookup insert
tools = tt

first_configuration :
    (is_enabled "T1" "C1" "github" (apply_channel_tools_enabled "T1" "C1" changes providers [])
      ≡ true)
    × (is_enabled "T1" "C1" "gitlab" (apply_channel_tools_enabled "T1" "C1" changes providers [])
        ≡ false)
    × (list_enabled "T1" "C1" (apply_channel_tools_enabled "T1" "C1" changes providers [])
        ≡ "github" ∷ [])
unfolding tools
first_configuration = (refl, refl, refl)

turned_off :
    is_enabled "T1" "C1" "github" (set_channel_tool_enabled "T1" "C1" "github" false configured)
    ≡ false
unfolding tools set_channel_tool_enabled
turned_off = refl

is_enabled-apply_example :
    is_enabled "T1" "C1" "github"
      (apply_channel_tools_enabled "T1" "C1" changes providers configured)
    ≡ get_or (lookup "github" (desired changes)) (is_enabled "T1" "C1" "github" configured)
is_enabled-apply_example = is_enabled-apply "T1" "C1" changes providers configured "github"

is_enabled-apply_other_example :
    is_enabled "T1" "C1" "github"
      (apply_channel_tools_enabled "T1" "C2" changes providers configured)
    ≡ is_enabled "T1" "C1" "github" configured
is_enabled-apply_other_example =
    is_enabled-apply_other "T1" "C2" changes providers configured "T1" "C1" "github"
      (inr (λ e. ground (arith, eq_iff "C1" "C2")))

configured-IsTable : IsTable configured
unfolding lookup
configured-IsTable = (refl, (refl, tt))
