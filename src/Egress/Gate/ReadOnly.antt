-- ===== src/Egress/Gate/ReadOnly.antt =====
-- readOnlyEgress and withEgressDefaults of src/core/providers.ts: a provider narrowed to reading, or
-- given reading as its default. A provider's methods are canonical already.
use mathlib.Core.Path.{subst}
use text.Mathlib.TextEquality.{eq_iff}
use vouchr.Base.{
  String, ◌≡◌, refl, sym, inl, inr, ◌⊎◌, ◌↔◌, Bool, true, ◌||◌, List, [], ◌∷◌, Option, none, some,
  arith, get_or, if-cases,
}
use vouchr.Base.Eq.{◌==◌, string_eq}
use vouchr.Base.Lists.{Any}
use vouchr.Base.Table.{select_all}
use vouchr.Egress.Gate.{Url, Provider, allowed, egress_gate}
use vouchr.Egress.Gate.Rule.{egress_gate_iff}

abbrev pub read_only_methods : List String
read_only_methods = "GET" ∷ "HEAD" ∷ []

abbrev pub is_reading : String → Bool
is_reading m = m == "GET" || m == "HEAD"

abbrev pub read_only_egress : Provider → Provider
read_only_egress p = record p {
  egress_methods = some (select_all is_reading (get_or p.egress_methods read_only_methods));
}

abbrev pub defaulted : Bool → Option (List String) → Option (List String)
defaulted true none = some read_only_methods
defaulted _ methods = methods

abbrev pub with_egress_defaults : Bool → Provider → Provider
with_egress_defaults default_deny_non_get p = record p {
  egress_methods = defaulted default_deny_non_get p.egress_methods;
}

abbrev pub IsReading : String → Type 0
IsReading m = (m ≡ "GET") ⊎ (m ≡ "HEAD")

is_reading_iff : (m : String) → (is_reading m ≡ true) ↔ IsReading m
is_reading_iff m = ground (arith, eq_iff m "GET", eq_iff m "HEAD")

Any-select_all :
    (m : String) (ms : List String)
    → Any (λ x. x ≡ m) (select_all is_reading ms) ↔ (Any (λ x. x ≡ m) ms × IsReading m)
unfolding select_all
Any-select_all m [] = ((λ h. elim h [ ]), (λ h. elim h.0 [ ]))
Any-select_all m (x ∷ ms) =
    let rest = Any-select_all m ms in
    if-cases (λ l. Any (λ y. y ≡ m) l ↔ (((x ≡ m) ⊎ Any (λ y. y ≡ m) ms) × IsReading m))
      (is_reading x) _ _
      (λ reads. (
        λ h. elim h [
          | inl same ↦ (inl same, subst IsReading same ((is_reading_iff x).0 reads))
          | inr later ↦ (inr (rest.0 later).0, (rest.0 later).1)
        ],
        λ h. elim h.0 [ inl same ↦ inl same | inr later ↦ inr (rest.1 (later, h.1)) ],
      ))
      (λ writes. (
        λ h. (inr (rest.0 h).0, (rest.0 h).1),
        λ h. elim h.0 [
          | inl same ↦
              absurd (ground (arith, writes, is_reading_iff x, subst IsReading (sym same) h.1))
          | inr later ↦ rest.1 (later, h.1)
        ],
      ))

-- A provider that is narrowed to reading lets through exactly the requests that it lets through on its
-- own and that are a GET or a HEAD.
pub read_only_iff :
    (p : Provider) (u : Url) (m : String)
    → (egress_gate (read_only_egress p) u m ≡ allowed)
      ↔ ((egress_gate p u m ≡ allowed) × IsReading m)
read_only_iff p u m = (
  λ e.
      let h = (egress_gate_iff (read_only_egress p) u m).0 e in
      (
        (egress_gate_iff p u m).1 (record {
          bounded = h.bounded;
          username = h.username;
          password = h.password;
          host = h.host;
          port = h.port;
          scheme = h.scheme;
          path = h.path;
          validator = h.validator;
          methods = λ ms q. (widened ms q (h.methods _ refl)).0;
        }),
        narrowed p.egress_methods (h.methods _ refl),
      ),
  λ both.
      let h = (egress_gate_iff p u m).0 both.0 in
      (egress_gate_iff (read_only_egress p) u m).1 (record {
        bounded = h.bounded;
        username = h.username;
        password = h.password;
        host = h.host;
        port = h.port;
        scheme = h.scheme;
        path = h.path;
        validator = h.validator;
        methods = λ ms q. subst (Any (λ x. x ≡ m)) (some_inj q) (
            (Any-select_all m (get_or p.egress_methods read_only_methods)).1
              (allowed_by p.egress_methods h.methods both.1, both.1));
      }),
)
  where
    some_inj : {a b : List String} → some a ≡ some b → a ≡ b
    some_inj q = ground arith

    widened :
        (ms : List String)
        → p.egress_methods ≡ some ms
        → Any (λ x. x ≡ m) (select_all is_reading (get_or p.egress_methods read_only_methods))
        → Any (λ x. x ≡ m) ms × IsReading m
    widened ms q h =
        (Any-select_all m ms).0
          (subst (λ o. Any (λ x. x ≡ m) (select_all is_reading (get_or o read_only_methods))) q h)

    narrowed :
        (o : Option (List String))
        → Any (λ x. x ≡ m) (select_all is_reading (get_or o read_only_methods))
        → IsReading m
    narrowed o h = ((Any-select_all m (get_or o read_only_methods)).0 h).1

    allowed_by :
        (o : Option (List String))
        → ((ms : List String) → o ≡ some ms → Any (λ x. x ≡ m) ms)
        → IsReading m
        → Any (λ x. x ≡ m) (get_or o read_only_methods)
    allowed_by none f (inl get) = inl (sym get)
    allowed_by none f (inr head) = inr (inl (sym head))
    allowed_by (some ms) f r = f ms refl
