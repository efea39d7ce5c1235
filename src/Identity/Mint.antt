-- ===== src/Identity/Mint.antt =====
-- Minting a deployment's token, and its round trip through verification.
use Prim.Native.String.{String}
use vouchr.Base.{
  ℕ, ◌+◌, ◌≤◌, ◌<◌, ◌≡◌, refl, ◌≢◌, inl, Bool, true, ◌&&◌, List, [], ◌∷◌, Option, none, some, arith,
  leb, min, max, if◌then◌else◌,
}
use vouchr.Base.Eq.{string_eq}
use vouchr.Owner.{OwnerKind}
use vouchr.Conversation.{ConversationType}
use vouchr.Identity.{
  Claims, RawClaims, str, num, Key, Config, deployment, ok, Primitives, is_bounded_jti, verify,
  max_lifetime_ms, identity_skew_ms, max_safe_integer,
}
use vouchr.Identity.Form.{
  dotted, NoDot, IsClaims, is_bounded_jti_iff, string_value, number_value, bool_value, kind_value,
  type_value,
}
use vouchr.Identity.Verify.{IsCurrent, verify_iff}

-- What the minter is given; the rest of the claims it fills in.
pub record MintInput : Type 0 where
  pub team_id : String
  pub user_id : String
  pub channel : String
  pub thread_ts : Option String
  pub offboard_target_user_id : Option String
  pub enterprise_id : Option String
  pub owner_kind : Option OwnerKind
  pub channel_eligible : Option Bool
  pub channel_type : Option ConversationType
  pub worker : Option Bool

unfoldable pub lifetime_of : ℕ → ℕ
lifetime_of ttl_ms = min (max 1 ttl_ms) max_lifetime_ms

unfoldable pub bound_claims : MintInput → Config → Key → ℕ → ℕ → String → Claims
bound_claims i config active ttl_ms now uuid = record {
  team_id = i.team_id;
  user_id = i.user_id;
  channel = i.channel;
  thread_ts = i.thread_ts;
  exp = now + lifetime_of ttl_ms;
  jti = uuid;
  iss = some config.issuer;
  aud = some config.audience;
  iat = some now;
  kid = some active.kid;
  offboard_target_user_id = i.offboard_target_user_id;
  enterprise_id = i.enterprise_id;
  owner_kind = i.owner_kind;
  channel_eligible = i.channel_eligible;
  channel_type = i.channel_type;
  worker = i.worker;
}

-- signIdentity
unfoldable pub sign : Primitives → Claims → String → String
unfolding dotted
sign p c secret = dotted (p.encode c) (p.hmac secret (p.encode c))

-- mintIdentity under a configuration; none where it throws (a configuration with no key, which
-- normalization refuses, included)
unfoldable pub mint : Primitives → MintInput → Config → ℕ → ℕ → String → Option String
unfolding sign bound_claims lifetime_of
mint p i config ttl_ms now uuid = elim config.keys [
  | [] ↦ none
  | active ∷ rest ↦
      if leb now max_safe_integer
        && leb ttl_ms max_safe_integer
        && leb (now + lifetime_of ttl_ms) max_safe_integer
      then some (sign p (bound_claims i config active ttl_ms now uuid) active.secret)
      else none
]

-- The object that JSON carries for the claims: a claim that is absent is a missing property.
unfoldable pub raw_of : Claims → RawClaims
raw_of c = record {
  team_id = str c.team_id;
  user_id = str c.user_id;
  channel = str c.channel;
  thread_ts = string_value c.thread_ts;
  exp = num c.exp;
  jti = str c.jti;
  iss = string_value c.iss;
  aud = string_value c.aud;
  iat = number_value c.iat;
  kid = string_value c.kid;
  offboard_target_user_id = string_value c.offboard_target_user_id;
  enterprise_id = string_value c.enterprise_id;
  owner_kind = kind_value c.owner_kind;
  channel_eligible = bool_value c.channel_eligible;
  channel_type = type_value c.channel_type;
  worker = bool_value c.worker;
}

raw_of-IsClaims : (c : Claims) → c.jti ≢ "" → IsClaims (raw_of c) c
unfolding raw_of
raw_of-IsClaims c h = record {
  team_id = refl;
  user_id = refl;
  channel = refl;
  thread_ts = refl;
  exp = refl;
  jti = refl;
  jti_some = h;
  iss = refl;
  aud = refl;
  iat = refl;
  kid = refl;
  offboard_target_user_id = refl;
  enterprise_id = refl;
  owner_kind = refl;
  channel_eligible = refl;
  channel_type = refl;
  worker = refl;
}

-- What the round trip relies on for the claims at hand: JSON and base64url give back what they were
-- given, the encoded payload is not empty and holds no dot, and a digest is not empty.
pub record PrimitivesLaws (p : Primitives) (c : Claims) : Type 0 where
  pub parse-encode : p.parse (p.encode c) ≡ some (some (raw_of c))
  pub encode_some : p.encode c ≢ ""
  pub encode-NoDot : NoDot (p.encode c)
  pub hmac_some : (secret payload : String) → p.hmac secret payload ≢ ""

lifetime_bounds : (ttl_ms : ℕ) → (1 ≤ lifetime_of ttl_ms) × (lifetime_of ttl_ms ≤ max_lifetime_ms)
unfolding lifetime_of
lifetime_bounds ttl_ms = (omega arith, omega arith)

module _ (p : Primitives) (i : MintInput) (config : Config) (active : Key) (rest : List Key)
    (ttl_ms now : ℕ) (uuid token : String) where
  mint-eq-some :
      config.keys ≡ active ∷ rest
      → mint p i config ttl_ms now uuid ≡ some token
      → (sign p (bound_claims i config active ttl_ms now uuid) active.secret ≡ token)
        × (now ≤ max_safe_integer)
        × (now + lifetime_of ttl_ms ≤ max_safe_integer)
  unfolding mint
  mint-eq-some keys e = mint_parts (rw (keys, mint) at e)
    where
      mint_parts :
          (if leb now max_safe_integer
                && leb ttl_ms max_safe_integer
                && leb (now + lifetime_of ttl_ms) max_safe_integer
              then some (sign p (bound_claims i config active ttl_ms now uuid) active.secret)
              else none)
            ≡ some token
          → (sign p (bound_claims i config active ttl_ms now uuid) active.secret ≡ token)
            × (now ≤ max_safe_integer)
            × (now + lifetime_of ttl_ms ≤ max_safe_integer)
      mint_parts h = ground arith

minted-IsCurrent :
    (i : MintInput) (config : Config) (active : Key) (ttl_ms now at : ℕ) (uuid : String)
    → is_bounded_jti uuid ≡ true
    → now ≤ max_safe_integer
    → now + lifetime_of ttl_ms ≤ max_safe_integer
    → now ≤ at + identity_skew_ms
    → at < now + lifetime_of ttl_ms + identity_skew_ms
    → IsCurrent config at (bound_claims i config active ttl_ms now uuid)
unfolding bound_claims
minted-IsCurrent i config active ttl_ms now at uuid jti now_safe exp_safe begun live =
    let (low, high) = lifetime_bounds ttl_ms in
    record {
      issuer = refl;
      audience = refl;
      iat = now;
      issued = refl;
      iat_safe = now_safe;
      exp_safe = exp_safe;
      jti = (is_bounded_jti_iff uuid).0 jti;
      begun = begun;
      live = live;
      after = omega arith;
      lifetime = omega arith;
    }

-- A token that a deployment's minter issues at `now` is accepted by that deployment, with the very
-- claims that were minted, at every moment from the clock's tolerance before it was issued until
-- the tolerance after it expires, the end excluded; it lives for the time asked for, but at least a
-- millisecond and at most five minutes.
pub mint-verify :
    (p : Primitives) (i : MintInput) (config : Config) (active : Key) (rest : List Key)
    (ttl_ms now at : ℕ) (uuid token : String)
    → PrimitivesLaws p (bound_claims i config active ttl_ms now uuid)
    → config.keys ≡ active ∷ rest
    → active.kid ≢ ""
    → is_bounded_jti uuid ≡ true
    → mint p i config ttl_ms now uuid ≡ some token
    → at ≤ max_safe_integer
    → now ≤ at + identity_skew_ms
    → at < now + lifetime_of ttl_ms + identity_skew_ms
    → verify p token (deployment config) at ≡ ok (bound_claims i config active ttl_ms now uuid)
unfolding sign bound_claims
mint-verify p i config active rest ttl_ms now at uuid token laws keys kid jti e safe begun live =
    let c = bound_claims i config active ttl_ms now uuid in
    let (minted, now_safe, exp_safe) =
      mint-eq-some p i config active rest ttl_ms now uuid token keys e in
    let (low, high) = lifetime_bounds ttl_ms in
    rw (← minted) (
      (verify_iff p config at (sign p c active.secret) c).1 (record {
        safe_now = safe;
        payload = p.encode c;
        sig = p.hmac active.secret (p.encode c);
        parts = (refl, laws.encode-NoDot);
        payload_some = laws.encode_some;
        sig_some = laws.hmac_some active.secret (p.encode c);
        raw = raw_of c;
        parsed = laws.parse-encode;
        claims = raw_of-IsClaims c ((is_bounded_jti_iff uuid).0 jti).0;
        key = active;
        known = (active.kid, refl, kid, rw keys (inl (refl, refl)));
        signed = refl;
        current =
            minted-IsCurrent i config active ttl_ms now at uuid jti now_safe exp_safe begun live;
      }))
