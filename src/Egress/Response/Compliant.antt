-- ===== src/Egress/Response/Compliant.antt =====
-- What a response that is handed back meets.
use mathlib.Core.Path.{subst}
use mathlib.Core.List.{append-nil}
use vouchr.Base.{
  ℕ, ◌+◌, ◌≤◌, String, ◌≡◌, refl, ap, ◌∙◌, ◌↔◌, Bool, true, false, ◌&&◌, List, [], ◌∷◌, ◌++◌,
  Option, none, some, arith, is_some, ltb, not, if-cases,
}
use vouchr.Base.Lists.{length, any, Any, length-append}
use vouchr.Egress.{same_codes}
use vouchr.Egress.Gate.Rule.{any_iff}
use vouchr.Egress.Response.Stripped.{IsStripped, without_all-IsStripped, none-IsStripped}
use vouchr.Egress.Response.{
  Stream, ended, broken, next, Response, EgressResponse, Guarded, passed, normalize_content_type,
  header, cap_of, Read, whole, exceeded, failed, put_before, read_capped, is_bodyless, stripped,
  rebuild, after_read, declared_excess, bounded, sized, type_allowed, guard_response,
}

-- All the bytes of a body.
abbrev pub bytes_of : Stream → List ℕ
bytes_of ended = []
bytes_of broken = []
bytes_of (next c s) = c ++ bytes_of s

put_before-whole :
    (c : List ℕ) (r : Read) (bytes : List ℕ)
    → put_before c r ≡ whole bytes
    → (rest : List ℕ) × (r ≡ whole rest) × (bytes ≡ c ++ rest)
unfolding put_before
put_before-whole c (whole rest) bytes e = (rest, refl, ground arith)
put_before-whole c (exceeded n) bytes e = absurd (ground arith)
put_before-whole c failed bytes e = absurd (ground arith)

-- A body that is read whole is all of the stream and within the ceiling.
read_capped-whole :
    (cap total : ℕ) (s : Stream) (bytes : List ℕ)
    → total ≤ cap
    → read_capped cap total s ≡ whole bytes
    → (bytes ≡ bytes_of s) × (total + length (bytes_of s) ≤ cap)
unfolding read_capped
read_capped-whole cap total ended bytes h e = (ground arith, omega arith)
read_capped-whole cap total broken bytes h e = absurd (ground arith)
read_capped-whole cap total (next c s) bytes h e =
    if-cases
      (λ r. r ≡ whole bytes → (bytes ≡ c ++ bytes_of s) × (total + length (c ++ bytes_of s) ≤ cap))
      (ltb cap (total + length c)) _ _ (λ over q. absurd (ground arith))
      (λ within q.
        let parts = put_before-whole c (read_capped cap (total + length c) s) bytes q in
        let rest =
          read_capped-whole cap (total + length c) s parts.0 (ground (arith, within)) parts.1 in
        (parts.2 ∙ ap (λ x. c ++ x) rest.0, omega (arith, rest.1, length-append c (bytes_of s))))
      e

same_codes_iff : (a b : List ℕ) → (same_codes a b ≡ true) ↔ (a ≡ b)
same_codes_iff [] [] = ((λ e. refl), (λ e. refl))
same_codes_iff [] (y ∷ b) = ((λ e. absurd (ground arith)), (λ e. absurd (ground arith)))
same_codes_iff (x ∷ a) [] = ((λ e. absurd (ground arith)), (λ e. absurd (ground arith)))
same_codes_iff (x ∷ a) (y ∷ b) =
    let rest = same_codes_iff a b in ((λ e. ground (arith, rest.0)), (λ e. ground (arith, rest.1)))

-- The media type is one that the provider names, where it names any and there is a body.
abbrev pub IsTyped : Response → Option (List String) → Option Stream → Type 0
IsTyped res (some types) (some s) =
    Any
      (λ allowed.
        normalize_content_type (header "content-type" res.headers)
        ≡ normalize_content_type (some allowed))
      types
IsTyped res _ _ = Unit {0}

type_allowed-IsTyped :
    (res : Response) (types : Option (List String)) (body : Option Stream)
    → type_allowed res types body ≡ true
    → IsTyped res types body
unfolding type_allowed
type_allowed-IsTyped res none body e = tt
type_allowed-IsTyped res (some types) none e = tt
type_allowed-IsTyped res (some types) (some s) e =
    (any_iff _ _ (λ allowed. same_codes_iff _ _) types).0 e

-- The body is the one that came, and within the ceiling, or it has been dropped.
abbrev pub IsWithin : Option ℕ → Option Stream → Option Stream → Type 0
IsWithin cap came none = Unit {0}
IsWithin cap none (some s) = ⊥
IsWithin none (some came) (some s) = bytes_of s ≡ bytes_of came
IsWithin (some cap) (some came) (some s) =
    (bytes_of s ≡ bytes_of came) × (length (bytes_of came) ≤ cap)

pub record Compliant (transport : Option ℕ) (er : EgressResponse) (res out : Response)
    : Type 0 where
  pub status : out.status ≡ res.status
  pub url : out.url ≡ res.url
  pub typed : IsTyped res er.allow_content_types res.body
  pub stripping : IsStripped (stripped er) out.headers
  pub within : IsWithin (cap_of er.max_bytes transport) res.body out.body

-- What rebuilding gives, from a body that is within the ceiling.
abbrev Rebuilt : Option ℕ → EgressResponse → Response → Response → Type 0
Rebuilt cap er res out =
    (out.status ≡ res.status)
    × (out.url ≡ res.url)
    × IsStripped (stripped er) out.headers
    × IsWithin cap res.body out.body

rebuild-Rebuilt :
    (cap : Option ℕ) (er : EgressResponse) (res : Response) (buffered : Bool) (body : Option Stream)
    → (buffered ≡ false → IsWithin cap res.body res.body)
    → IsWithin cap res.body body
    → Rebuilt cap er res (rebuild er res buffered body)
unfolding rebuild
rebuild-Rebuilt cap er res buffered body own read =
    if-cases (λ out. Rebuilt cap er res out)
      (not buffered && not (any (λ h. is_some (header h res.headers)) (stripped er))) _ _
      (λ untouched. (
        refl,
        refl,
        none-IsStripped (stripped er) res.headers (ground (arith, untouched)),
        own (ground (arith, untouched)),
      ))
      (λ changed. (
        refl,
        refl,
        without_all-IsStripped (stripped er) res.headers,
        if-cases (IsWithin cap res.body) (is_bodyless res.status) none body (λ p. tt) (λ p. read),
      ))

-- What reading and rebuilding give.
abbrev Sized : Option ℕ → EgressResponse → Response → Response → Guarded → Type 0
Sized cap er res out g = g ≡ passed out → Rebuilt cap er res out

passed_inj : {a b : Response} → passed a ≡ passed b → a ≡ b
passed_inj e = ground arith

after_read-Sized :
    (limit : ℕ) (er : EgressResponse) (res : Response) (s : Stream) (out : Response) (r : Read)
    → res.body ≡ some s
    → read_capped limit 0 s ≡ r
    → Sized (some limit) er res out (after_read er res r)
unfolding after_read
after_read-Sized limit er res s out (whole bytes) p q e =
    let parts = read_capped-whole limit 0 s bytes (omega arith) q in
    subst (Rebuilt (some limit) er res) (passed_inj e) (
      rebuild-Rebuilt (some limit) er res true (some (next bytes ended))
        (λ never. absurd (ground arith))
        (rw p (append-nil bytes ∙ parts.0, omega (arith, parts.1))))
after_read-Sized limit er res s out (exceeded n) p q e = absurd (ground arith)
after_read-Sized limit er res s out failed p q e = absurd (ground arith)

bounded-Sized :
    (limit : ℕ) (er : EgressResponse) (res : Response) (s : Stream) (out : Response) (d : Option ℕ)
    → res.body ≡ some s
    → Sized (some limit) er res out (bounded er res limit s d)
unfolding bounded
bounded-Sized limit er res s out none p =
    after_read-Sized limit er res s out (read_capped limit 0 s) p refl
bounded-Sized limit er res s out (some n) p = λ e. absurd (ground arith)

unread-Sized :
    (cap : Option ℕ) (er : EgressResponse) (res out : Response) (body : Option Stream)
    → res.body ≡ body
    → IsWithin cap body body
    → Sized cap er res out (passed (rebuild er res false body))
unread-Sized cap er res out body p w e =
    subst (Rebuilt cap er res) (passed_inj e)
      (rebuild-Rebuilt cap er res false body (λ q. rw p w) (rw p w))

sized-Sized :
    (number : Option String → Option ℕ) (er : EgressResponse) (res out : Response) (cap : Option ℕ)
    (body : Option Stream)
    → res.body ≡ body
    → Sized cap er res out (sized number er res cap body)
unfolding sized
sized-Sized number er res out none none p = unread-Sized none er res out none p tt
sized-Sized number er res out none (some s) p = unread-Sized none er res out (some s) p refl
sized-Sized number er res out (some limit) none p = unread-Sized (some limit) er res out none p tt
sized-Sized number er res out (some limit) (some s) p =
    bounded-Sized limit er res s out
      (declared_excess limit (number (header "content-length" res.headers))) p

-- A response that is handed back has the status and the URL of the one that came, a media type that
-- the provider names where it names any and there is a body, none of the headers that are stripped,
-- set-cookie among them, and either no body or all the bytes that came, no more than the ceiling,
-- which is the smaller of the provider's and the transport's.
pub guard_response-Compliant :
    (number : Option String → Option ℕ) (transport : Option ℕ) (er : EgressResponse)
    (res out : Response)
    → guard_response number transport er res ≡ passed out
    → Compliant transport er res out
unfolding guard_response
guard_response-Compliant number transport er res out =
    if-cases (λ g. g ≡ passed out → Compliant transport er res out)
      (type_allowed res er.allow_content_types res.body) _ _
      (λ typed e.
        let r = sized-Sized number er res out (cap_of er.max_bytes transport) res.body refl e in
        record {
          status = r.0;
          url = r.1;
          typed = type_allowed-IsTyped res er.allow_content_types res.body typed;
          stripping = r.2;
          within = r.3;
        })
      (λ other e. absurd (ground arith))
