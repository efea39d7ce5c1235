-- ===== src/Egress/Response/Tests.antt =====
-- One response under a rule, and the theorem at it.
use vouchr.Base.{ℕ, String, ◌≡◌, refl, List, [], ◌∷◌, Option, none, some}
use vouchr.Base.Text.{is_space}
use vouchr.Egress.Response.{
  Response, EgressResponse, ended, next, passed, by_size, by_content_type, header, without,
  without_all, same_name, normalize_content_type, read_capped, guard_response,
}
use vouchr.Egress.Response.Compliant.{Compliant, guard_response-Compliant}

abbrev rule : EgressResponse
rule = record {
  max_bytes = some 4;
  allow_content_types = some ("application/json" ∷ []);
  strip_headers = some ("X-Trace" ∷ []);
}

abbrev came : List ℕ → Response
came bytes = record {
  status = 200;
  status_text = "OK";
  headers =
      ("content-type", "Application/JSON ; charset=utf-8")
      ∷ ("set-cookie", "a=b")
      ∷ ("x-trace", "1")
      ∷ ("etag", "v1")
      ∷ [];
  body = some (next (123 ∷ []) (next bytes ended));
  url = "https://api.github.com/repos";
}

abbrev undeclared : Option String → Option ℕ
undeclared text = some 0

abbrev given : Response
given = record (came (125 ∷ [])) {
  headers = ("content-type", "Application/JSON ; charset=utf-8") ∷ ("etag", "v1") ∷ [];
  body = some (next (123 ∷ 125 ∷ []) ended);
}

guards : Unit {0}
unfolding guard_response header without without_all same_name normalize_content_type read_capped
    is_space
guards = tt

handed_back : guard_response undeclared (some 100) rule (came (125 ∷ [])) ≡ passed given
unfolding guards
handed_back = refl

too_long : guard_response undeclared none rule (came (1 ∷ 2 ∷ 3 ∷ 4 ∷ [])) ≡ by_size 5
unfolding guards
too_long = refl

wrong_type :
    guard_response undeclared none
      (record rule { allow_content_types = some ("text/html" ∷ []) })
      (came [])
    ≡ by_content_type
unfolding guards
wrong_type = refl

guard_response-Compliant_example : Compliant (some 100) rule (came (125 ∷ [])) given
guard_response-Compliant_example =
    guard_response-Compliant undeclared (some 100) rule (came (125 ∷ [])) given handed_back
