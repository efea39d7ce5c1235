-- ===== src/Policy.antt =====
-- src/core/policy.ts: the static policy of a deployment.
use vouchr.Base.{String, Bool, true, false, ◌&&◌, List, Option, none, some, not, if◌then◌else◌}
use vouchr.Base.Eq.{◌==◌, string_eq}
use vouchr.Base.Lists.{any}
use vouchr.Base.Assoc.{lookup}

pub record PolicyRule : Type 0 where
  pub default_allow : Bool
  pub allow_channels : Option (List String)
  pub deny_channels : Option (List String)

pub record Policy : Type 0 where
  pub rules : List (String × PolicyRule)
  pub default_deny : Bool

-- xs?.includes(x), as a truth value
abbrev pub includes : Option (List String) → String → Bool
includes none x = false
includes (some xs) x = any (λ y. y == x) xs

-- channel && xs?.includes(channel)
abbrev pub names_channel : Option (List String) → Option String → Bool
names_channel xs none = false
names_channel xs (some c) = not (c == "") && includes xs c

check_rule : Option PolicyRule → Bool → Option String → Bool
check_rule none default_deny channel = not default_deny
check_rule (some r) default_deny channel =
    if names_channel r.deny_channels channel
    then false
    else if r.default_allow
    then true
    else names_channel r.allow_channels channel

unfoldable pub check : Policy → String → Option String → Bool
unfolding check_rule
check p provider channel = check_rule (lookup provider p.rules) p.default_deny channel
