-- ===== src/Egress/Tests.antt =====
-- One provider and requests to it, and the theorems at them.
use vouchr.Base.{ℕ, String, ◌≡◌, refl, ◌≢◌, ◌↔◌, true, false, List, [], ◌∷◌, none, some, arith}
use vouchr.Base.Assoc.{lookup, insert}
use vouchr.Base.Text.{code_points, is_prefix}
use vouchr.Owner.{SlackIdentity, user}
use vouchr.RateLimit.{empty_store, take, prune, drop_full}
use vouchr.Approval.{once}
use vouchr.Approval.Grant.{passed}
use vouchr.Egress.{
  has_ambiguous_path_encoding, decode_uri_component, has_encoded_separator, changes_routing,
  has_dot_segment,
}
use vouchr.Egress.Decode.{decoded, IsRouted, decoded-IsRouted}
use vouchr.Egress.Decode.Slashes.{slashes, slashes-decoded}
use vouchr.Egress.Method.{
  canonical_method, every_char, is_upper_case, is_forbidden, to_upper_case, trim_end, trim_start,
}
use vouchr.Egress.Method.Canonical.{canonical_method_stable}
use vouchr.Egress.Gate.{
  Url, Provider, ApprovalRule, Handle, allowed, denied, by_method, by_path, egress_gate,
  path_allowed, approval_needed, is_loopback_host,
}
use vouchr.Egress.Gate.ReadOnly.{read_only_egress, IsReading, read_only_iff}
use vouchr.Base.Table.{select_all}
use vouchr.Egress.Gate.Rule.{Passes, egress_gate_iff}
use vouchr.Egress.Gate.Asks.{Writes, Touches, approval_needed_iff}
use vouchr.Egress.Admission.{State, Answers, Digests, proceeds, admit}
use vouchr.Egress.Admission.Proceeds.{Admitted, admit-Admitted}

ambiguity : Unit {0}
unfolding has_ambiguous_path_encoding decode_uri_component has_encoded_separator changes_routing
    has_dot_segment
ambiguity = tt

abbrev clear_path : String
clear_path = "/repos/a%20b"

abbrev hidden_path : String
hidden_path = "/repos/%252e%252e/admin"

clear : has_ambiguous_path_encoding (code_points clear_path) ≡ false
unfolding ambiguity
clear = refl

hidden : has_ambiguous_path_encoding (code_points hidden_path) ≡ true
unfolding ambiguity
hidden = refl

snowman : decode_uri_component (code_points "%E2%98%83") ≡ some (9731 ∷ [])
unfolding ambiguity
snowman = refl

overlong : decode_uri_component (code_points "%C0%AF") ≡ none
unfolding ambiguity
overlong = refl

decoded-IsRouted_example :
    (q : List ℕ) × (decoded 2 (code_points clear_path) ≡ some q)
    × IsRouted (code_points clear_path) q
decoded-IsRouted_example = decoded-IsRouted (code_points clear_path) clear 2

once_decoded : decoded 1 (code_points clear_path) ≡ some (code_points "/repos/a b")
unfolding ambiguity
once_decoded = refl

slashes-decoded_example : slashes (code_points "/repos/a b") ≡ slashes (code_points clear_path)
slashes-decoded_example =
    slashes-decoded (code_points clear_path) clear 1 (code_points "/repos/a b") once_decoded

post : canonical_method " post" ≡ some "POST"
unfolding canonical_method every_char to_upper_case trim_end trim_start
post = refl

traced : canonical_method "trace" ≡ none
unfolding canonical_method every_char to_upper_case trim_end trim_start
traced = refl

canonical_method_stable_example :
    (◌≢◌ {A = String} "POST" "")
    × (every_char is_upper_case "POST" ≡ true)
    × (is_forbidden "POST" ≡ false)
    × (canonical_method "POST" ≡ some "POST")
canonical_method_stable_example = canonical_method_stable " post" "POST" post

abbrev rule : ApprovalRule
rule = record { methods = none; paths = none; grant = once; ttl_ms = 300000 }

abbrev github : Provider
github = record {
  id = "github";
  egress_allow = "api.github.com" ∷ [];
  egress_paths = some ("/repos" ∷ []);
  egress_methods = none;
  egress_validate = none;
  approval = some rule;
  rate_limit = some (record { per_minute = 60; burst = none });
}

abbrev url_of : String → Url
url_of path = record {
  protocol = "https:";
  username = "";
  password = "";
  hostname = "api.github.com";
  port = "";
  origin = "https://api.github.com";
  pathname = path;
  search = "";
}

gates : Unit {0}
unfolding ambiguity egress_gate path_allowed approval_needed is_prefix is_loopback_host
gates = tt

passes : egress_gate github (url_of clear_path) "GET" ≡ allowed
unfolding gates
passes = refl

locked : egress_gate github (url_of "/reposx") "GET" ≡ denied by_path
unfolding gates
locked = refl

egress_gate_iff_example :
    (egress_gate github (url_of clear_path) "GET" ≡ allowed)
    ↔ Passes github (url_of clear_path) "GET"
egress_gate_iff_example = egress_gate_iff github (url_of clear_path) "GET"

approval_needed_iff_example : (approval_needed (some rule) "POST" "/repos" ≡ true) ↔ (
    (a : ApprovalRule) × (some rule ≡ some a) × Writes a.methods "POST" × Touches a.paths "/repos")
approval_needed_iff_example = approval_needed_iff (some rule) "POST" "/repos"

abbrev alice : SlackIdentity
alice = record { enterprise_id = none; team_id = "T1"; user_id = "U1" }

abbrev handle : Handle
handle = record {
  acting = alice;
  owner = record { team_id = "T1"; kind = user; id = "U1"; enterprise_id = none };
  provider = github;
  worker = false;
  origin_channel = some "C1";
  thread = none;
  approval_governable_channel = none;
}

abbrev answers : Answers
answers = record {
  use_still_valid = true;
  bound = some "K1";
  live_id = some "K1";
  approvals_wired = true;
  check = λ r. passed;
  request_valid = true;
  attempts = [];
  lock_key = "T1:user:U1:github";
  now_ms = 100000;
  now_us = 100000000;
  later_us = 100000000;
}

abbrev digests : Digests
digests = record { query = λ s. s; action = λ k. k.path }

abbrev state : State
state = record { rates = empty_store; approvals = [] }

reads :
    (admit digests answers handle
      (url_of clear_path)
      (record { reason = none; link = none })
      "get"
      state).0
    ≡ proceeds none
unfolding gates admit canonical_method every_char to_upper_case trim_end trim_start take prune
    drop_full lookup insert
reads = refl

admit-Admitted_example :
    Admitted digests answers handle
      (url_of clear_path)
      (record { reason = none; link = none })
      "get"
      state
      (admit digests answers handle
        (url_of clear_path)
        (record { reason = none; link = none })
        "get"
        state).1
      none
admit-Admitted_example =
    admit-Admitted digests answers handle (url_of clear_path)
      (record { reason = none; link = none }) "get" state none reads

locked-ne : egress_gate github (url_of hidden_path) "POST" ≢ allowed
unfolding gates
locked-ne e = absurd (ground arith)

read_only_iff_example :
    (egress_gate (read_only_egress github) (url_of clear_path) "GET" ≡ allowed)
    ↔ ((egress_gate github (url_of clear_path) "GET" ≡ allowed) × IsReading "GET")
read_only_iff_example = read_only_iff github (url_of clear_path) "GET"

written : egress_gate (read_only_egress github) (url_of clear_path) "DELETE" ≡ denied by_method
unfolding gates select_all
written = refl
