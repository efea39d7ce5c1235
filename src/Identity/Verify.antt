-- ===== src/Identity/Verify.antt =====
-- When a token is accepted by a deployment: exactly if it is one that its minter issued to it.
use mathlib.Core.Option
use mathlib.Core.Path.{subst}
use text.Mathlib.TextEquality.{eq_iff}
use vouchr.Base.{
  ℕ, ◌+◌, ◌-◌, ◌≤◌, ◌<◌, String, ◌≡◌, refl, ap, ◌∙◌, ◌≢◌, ◌↔◌, inl, inr, Bool, true, false, ◌&&◌,
  Option, none, some, arith, not, Bool-cases, Option-cases, leb→le, le→leb,
}
use vouchr.Base.Eq.{◌==◌, string_eq, option_eq, nat_eq, option_equals_iff}
use vouchr.Identity.Form.{
  IsClaims, is_claims-IsClaims, IsClaims-is_claims, IsParts, split_dot_iff, IsKeyOf, find_key_iff,
  IsBoundedJti, is_bounded_jti_iff,
}
use vouchr.Identity.{
  Claims, RawClaims, Key, Config, deployment, Failure, Verified, ok, check, Primitives, is_claims,
  is_bounded_jti, split_dot, find_key, secret_for, check_issued, check_iat, check_bound,
  check_claims, check_signature, check_parsed, check_payload, check_parts, verify, max_lifetime_ms,
  identity_skew_ms, max_safe_integer,
}

-- The time and label checks of a deployment, as statements.
pub record IsCurrent (config : Config) (now : ℕ) (c : Claims) : Type 0 where
  pub issuer : c.iss ≡ some config.issuer
  pub audience : c.aud ≡ some config.audience
  pub iat : ℕ
  pub issued : c.iat ≡ some iat
  pub iat_safe : iat ≤ max_safe_integer
  pub exp_safe : c.exp ≤ max_safe_integer
  pub jti : IsBoundedJti c.jti
  pub begun : iat ≤ now + identity_skew_ms
  pub live : now < c.exp + identity_skew_ms
  pub after : iat < c.exp
  pub lifetime : c.exp - iat ≤ max_lifetime_ms

-- The whole condition: the token is a payload and its signature, by the key that the payload's
-- claims name, and the claims are current.
pub record IsAccepted (p : Primitives) (config : Config) (now : ℕ) (token : String) (c : Claims)
    : Type 0 where
  pub safe_now : now ≤ max_safe_integer
  pub payload : String
  pub sig : String
  pub parts : IsParts token payload sig
  pub payload_some : payload ≢ ""
  pub sig_some : sig ≢ ""
  pub raw : RawClaims
  pub parsed : p.parse payload ≡ some (some raw)
  pub claims : IsClaims raw c
  pub key : Key
  pub known : IsKeyOf c.kid key config.keys
  pub signed : sig ≡ p.hmac key.secret payload
  pub current : IsCurrent config now c

check-eq-ok :
    (b : Bool) (f : Failure) (k : Verified) {c : Claims}
    → check b f k ≡ ok c
    → (b ≡ true) × (k ≡ ok c)
check-eq-ok true f k e = (refl, e)
check-eq-ok false f k e = cc

check-true : (b : Bool) (f : Failure) (k : Verified) → b ≡ true → check b f k ≡ k
check-true true f k e = refl
check-true false f k e = cc

check_issued_sound :
    (now : ℕ) (c d : Claims) (iat : ℕ)
    → check_issued now c iat ≡ ok d
    → (c ≡ d)
      × (iat ≤ max_safe_integer)
      × (c.exp ≤ max_safe_integer)
      × (is_bounded_jti c.jti ≡ true)
      × (iat ≤ now + identity_skew_ms)
      × (now < c.exp + identity_skew_ms)
      × (iat < c.exp)
      × (c.exp - iat ≤ max_lifetime_ms)
unfolding check_issued
check_issued_sound now c d iat e = ground arith

check_issued_complete :
    (now : ℕ) (c : Claims) (iat : ℕ)
    → iat ≤ max_safe_integer
    → c.exp ≤ max_safe_integer
    → is_bounded_jti c.jti ≡ true
    → iat ≤ now + identity_skew_ms
    → now < c.exp + identity_skew_ms
    → iat < c.exp
    → c.exp - iat ≤ max_lifetime_ms
    → check_issued now c iat ≡ ok c
unfolding check_issued
check_issued_complete now c iat a b j d e f g = ground arith

check_iat_sound :
    (now : ℕ) (c d : Claims) (o : Option ℕ)
    → check_iat now c o ≡ ok d
    → (iat : ℕ) × (o ≡ some iat) × (check_issued now c iat ≡ ok d)
unfolding check_iat
check_iat_sound now c d none e = cc
check_iat_sound now c d (some iat) e = (iat, refl, e)

module _ (config : Config) (now : ℕ) where
  check_bound_sound :
      (c d : Claims) → check_bound config now c ≡ ok d → (c ≡ d) × IsCurrent config now c
  unfolding check_bound
  check_bound_sound c d e =
      let (iss, e₁) = check-eq-ok _ _ _ e in
      let (aud, e₂) = check-eq-ok _ _ _ e₁ in
      let (iat, issued, e₃) = check_iat_sound now c d c.iat e₂ in
      let (same, iat_safe, exp_safe, jti, begun, live, after, lifetime) =
        check_issued_sound now c d iat e₃ in
      (
        same,
        record {
          issuer = (option_equals_iff string_eq c.iss (some config.issuer)).0 iss;
          audience = (option_equals_iff string_eq c.aud (some config.audience)).0 aud;
          iat = iat;
          issued = issued;
          iat_safe = iat_safe;
          exp_safe = exp_safe;
          jti = (is_bounded_jti_iff c.jti).0 jti;
          begun = begun;
          live = live;
          after = after;
          lifetime = lifetime;
        },
      )

  pub check_bound_complete : (c : Claims) → IsCurrent config now c → check_bound config now c ≡ ok c
  unfolding check_bound check_iat
  check_bound_complete c v =
      check-true _ _ _ ((option_equals_iff string_eq c.iss (some config.issuer)).1 v.issuer)
      ∙ check-true _ _ _ ((option_equals_iff string_eq c.aud (some config.audience)).1 v.audience)
      ∙ ap (check_iat now c) v.issued
      ∙ check_issued_complete now c v.iat v.iat_safe v.exp_safe ((is_bounded_jti_iff c.jti).1 v.jti)
          v.begun v.live v.after v.lifetime

split_dot-some :
    (token : String) (parts : String × String)
    → split_dot token ≡ some parts
    → not (token == "") ≡ true
unfolding split_dot
split_dot-some token parts e = elim (Bool-cases (token == "")) [
  | inl empty ↦ absurd (cc (rw ((eq_iff token "").0 empty, split_dot) at e))
  | inr given ↦ rw given
]

both_some : (a b : String) → a ≢ "" → b ≢ "" → (not (a == "") && not (b == "")) ≡ true
both_some a b h k = ground (arith, eq_iff a "", eq_iff b "")

some_both : (a b : String) → (not (a == "") && not (b == "")) ≡ true → (a ≢ "") × (b ≢ "")
some_both a b h = (λ e. ground (arith, eq_iff a ""), λ e. ground (arith, eq_iff b ""))

module _ (p : Primitives) (config : Config) (now : ℕ) where
  secret_for_sound :
      (c : Claims) (secret : String)
      → secret_for (deployment config) c ≡ some secret
      → (key : Key) × (find_key c.kid config.keys ≡ some key) × (secret ≡ key.secret)
  unfolding secret_for
  secret_for_sound c secret e = elim (Option-cases (find_key c.kid config.keys)) [
    | inl missing ↦ absurd (ground arith)
    | inr (key, known) ↦ (key, known, ground arith)
  ]

  check_signature_sound :
      (payload sig : String) (c d : Claims) (o : Option String)
      → check_signature p (deployment config) now payload sig c o ≡ ok d
      → (secret : String) × (o ≡ some secret)
        × (sig ≡ p.hmac secret payload)
        × (check_bound config now c ≡ ok d)
  unfolding check_signature check_claims
  check_signature_sound payload sig c d none e = cc
  check_signature_sound payload sig c d (some secret) e =
      let (good, e₁) = check-eq-ok _ _ _ e in
      (secret, refl, (eq_iff sig (p.hmac secret payload)).0 good, e₁)

  check_payload_sound :
      (payload sig : String) (d : Claims) (o : Option (Option RawClaims))
      → check_payload p (deployment config) now payload sig o ≡ ok d
      → (raw : RawClaims) × (c : Claims) × (o ≡ some (some raw))
        × (is_claims raw ≡ some c)
        × (check_signature p
              (deployment config)
              now
              payload
              sig
              c
              (secret_for (deployment config) c)
            ≡ ok d)
  unfolding check_payload check_parsed
  check_payload_sound payload sig d none e = cc
  check_payload_sound payload sig d (some none) e = cc
  check_payload_sound payload sig d (some (some raw)) e = elim (Option-cases (is_claims raw)) [
    | inl missing ↦ absurd (cc (rw (missing, check_parsed) at e))
    | inr (c, claims) ↦ (raw, c, refl, claims, rw (claims, check_parsed) at e)
  ]

  check_parts_sound :
      (d : Claims) (o : Option (String × String))
      → check_parts p (deployment config) now o ≡ ok d
      → (payload : String) × (sig : String) × (o ≡ some (payload, sig))
        × (payload ≢ "")
        × (sig ≢ "")
        × (check_payload p (deployment config) now payload sig (p.parse payload) ≡ ok d)
  unfolding check_parts
  check_parts_sound d none e = cc
  check_parts_sound d (some (payload, sig)) e =
      let (both, e₁) = check-eq-ok _ _ _ e in
      (payload, sig, refl, (some_both payload sig both).0, (some_both payload sig both).1, e₁)

  verify_sound :
      (token : String) (d : Claims)
      → verify p token (deployment config) now ≡ ok d
      → IsAccepted p config now token d
  unfolding verify
  verify_sound token d e =
      let (safe, e₁) = check-eq-ok _ _ _ e in
      let (given, e₂) = check-eq-ok _ _ _ e₁ in
      let (payload, sig, parts, payload_some, sig_some, e₃) =
        check_parts_sound d (split_dot token) e₂ in
      let (raw, c, parsed, claims, e₄) = check_payload_sound payload sig d (p.parse payload) e₃ in
      let (secret, found, signed, e₅) = check_signature_sound payload sig c d _ e₄ in
      let (key, known, same_secret) = secret_for_sound c secret found in
      let (same, current) = check_bound_sound config now c d e₅ in
      record {
        safe_now = leb→le now max_safe_integer safe;
        payload = payload;
        sig = sig;
        parts = (split_dot_iff token payload sig).0 parts;
        payload_some = payload_some;
        sig_some = sig_some;
        raw = raw;
        parsed = parsed;
        claims = is_claims-IsClaims raw d (rw same at claims);
        key = key;
        known =
            (find_key_iff d.kid key config.keys).0
              (subst (λ x. find_key x.kid config.keys ≡ some key) same known);
        signed = rw same_secret at signed;
        current = subst (IsCurrent config now) same current;
      }

  verify_complete :
      (token : String) (c : Claims)
      → IsAccepted p config now token c
      → verify p token (deployment config) now ≡ ok c
  unfolding verify check_parts check_payload check_parsed check_signature secret_for check_claims
  verify_complete token c v =
      let parts = (split_dot_iff token v.payload v.sig).1 v.parts in
      let claims = IsClaims-is_claims v.raw c v.claims in
      let known = (find_key_iff c.kid v.key config.keys).1 v.known in
      check-true _ _ _ (le→leb now max_safe_integer v.safe_now)
      ∙ check-true _ _ _ (split_dot-some token (v.payload, v.sig) parts)
      ∙ ap (check_parts p (deployment config) now) parts
      ∙ check-true _ _ _ (both_some v.payload v.sig v.payload_some v.sig_some)
      ∙ ap (check_payload p (deployment config) now v.payload v.sig) v.parsed
      ∙ ap (check_parsed p (deployment config) now v.payload v.sig) claims
      ∙ ap (check_signature p (deployment config) now v.payload v.sig c)
          (ap (Option.map (λ (k : Key). k.secret)) known)
      ∙ check-true _ _ _ ((eq_iff v.sig (p.hmac v.key.secret v.payload)).1 v.signed)
      ∙ check_bound_complete config now c v.current

-- Under a deployment's configuration, at a safe time, a token is accepted with some claims exactly if it
-- is two texts that are not empty, around its first dot; the first parses to an object that carries
-- these claims, each of its type or absent, with a jti that is not empty; the second is its signature
-- under the first key of the configuration with the kid that the claims name; and the claims name the
-- configuration's issuer and audience, were issued no later than the clock's tolerance allows, have
-- not expired beyond it, live for more than nothing and at most five minutes, and have a jti of at most
-- 128 bytes, without control characters or white space around it.
pub verify_iff :
    (p : Primitives) (config : Config) (now : ℕ) (token : String) (c : Claims)
    → (verify p token (deployment config) now ≡ ok c) ↔ IsAccepted p config now token c
verify_iff p config now token c =
    (verify_sound p config now token c, verify_complete p config now token c)
