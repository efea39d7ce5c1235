-- ===== src/Identity.antt =====
-- src/adapters/http/identity.ts: the signed identity assertion, its claims and its verification.
-- JSON and base64url are one parameter, the codec, and HMAC another; times are epoch milliseconds.
pub mod Form
pub mod Verify
pub mod Mint
pub mod Tests
use vouchr.Base.{
  ℕ, ◌+◌, ◌-◌, ◌*◌, String, Bool, true, false, ◌&&◌, List, Option, none, some, ltb, leb, min, max,
  not, if◌then◌else◌, ◌>>=◌,
}
use vouchr.Base.Eq.{◌==◌, string_eq, option_eq, nat_eq}
use Prim.Native.Char.{code}
use mathlib.Core.Option
use vouchr.Base.Table.{select}
use vouchr.Base.Text.{len, is_trimmed, has_control_characters}
use vouchr.Owner.{OwnerKind, user, channel}
use vouchr.Conversation.{ConversationType, conversation_type_of}

abbrev pub max_lifetime_ms : ℕ
max_lifetime_ms = 5 * 60 * 1000

abbrev pub identity_skew_ms : ℕ
identity_skew_ms = 30 * 1000

abbrev pub max_jti_bytes : ℕ
max_jti_bytes = 128

abbrev pub max_safe_integer : ℕ
max_safe_integer = 9007199254740991

pub record Claims : Type 0 where
  pub team_id : String
  pub user_id : String
  pub channel : String
  pub thread_ts : Option String
  pub exp : ℕ
  pub jti : String
  pub iss : Option String
  pub aud : Option String
  pub iat : Option ℕ
  pub kid : Option String
  pub offboard_target_user_id : Option String
  pub enterprise_id : Option String
  pub owner_kind : Option OwnerKind
  pub channel_eligible : Option Bool
  pub channel_type : Option ConversationType
  pub worker : Option Bool

-- A property of a parsed JSON object. Numbers are natural; `other` is null, an array, an object, or
-- a number that is none.
pub data Value : Type 0 where
  missing : Value
  str : String → Value
  num : ℕ → Value
  bool : Bool → Value
  other : Value

pub record RawClaims : Type 0 where
  pub team_id : Value
  pub user_id : Value
  pub channel : Value
  pub thread_ts : Value
  pub exp : Value
  pub jti : Value
  pub iss : Value
  pub aud : Value
  pub iat : Value
  pub kid : Value
  pub offboard_target_user_id : Value
  pub enterprise_id : Value
  pub owner_kind : Value
  pub channel_eligible : Value
  pub channel_type : Value
  pub worker : Value

abbrev pub string_of : Value → Option String
string_of (str s) = some s
string_of _ = none

abbrev pub number_of : Value → Option ℕ
number_of (num n) = some n
number_of _ = none

-- x === undefined || typeof x === '…': none is a refusal
pub optional_string : Value → Option (Option String)
optional_string missing = some none
optional_string (str s) = some (some s)
optional_string _ = none

pub optional_number : Value → Option (Option ℕ)
optional_number missing = some none
optional_number (num n) = some (some n)
optional_number _ = none

optional_bool : Value → Option (Option Bool)
optional_bool missing = some none
optional_bool (bool b) = some (some b)
optional_bool _ = none

abbrev pub owner_kind_of : String → Option OwnerKind
owner_kind_of s = if s == "user" then some user else if s == "channel" then some channel else none

abbrev pub some_of {ℓ} : {A : Type ℓ} → Option A → Option (Option A)
some_of none = none
some_of (some a) = some (some a)

optional_kind : Value → Option (Option OwnerKind)
optional_kind missing = some none
optional_kind (str s) = some_of (owner_kind_of s)
optional_kind _ = none

optional_type : Value → Option (Option ConversationType)
optional_type missing = some none
optional_type (str s) = some_of (conversation_type_of s)
optional_type _ = none

non_empty : String → Option String
non_empty s = if s == "" then none else some s

-- isClaims, with the claims that it narrows the object to
pub is_claims : RawClaims → Option Claims
is_claims c = do
  team_id ← string_of c.team_id
  user_id ← string_of c.user_id
  chan ← string_of c.channel
  exp ← number_of c.exp
  jti ← string_of c.jti
  jti ← non_empty jti
  thread_ts ← optional_string c.thread_ts
  iss ← optional_string c.iss
  aud ← optional_string c.aud
  iat ← optional_number c.iat
  kid ← optional_string c.kid
  offboard_target_user_id ← optional_string c.offboard_target_user_id
  enterprise_id ← optional_string c.enterprise_id
  owner_kind ← optional_kind c.owner_kind
  channel_eligible ← optional_bool c.channel_eligible
  channel_type ← optional_type c.channel_type
  worker ← optional_bool c.worker
  some (record {
    team_id = team_id;
    user_id = user_id;
    channel = chan;
    thread_ts = thread_ts;
    exp = exp;
    jti = jti;
    iss = iss;
    aud = aud;
    iat = iat;
    kid = kid;
    offboard_target_user_id = offboard_target_user_id;
    enterprise_id = enterprise_id;
    owner_kind = owner_kind;
    channel_eligible = channel_eligible;
    channel_type = channel_type;
    worker = worker;
  })

pub record Key : Type 0 where
  pub kid : String
  pub secret : String

pub record Config : Type 0 where
  pub issuer : String
  pub audience : String
  pub keys : List Key

-- The key argument: a bare secret, or a deployment's configuration, already normalized.
pub data KeyArg : Type 0 where
  bare : String → KeyArg
  deployment : Config → KeyArg

pub data Failure : Type 0 where
  invalid_verification_time missing_token malformed malformed_payload incomplete_claims : Failure
  unknown_kid bad_signature expired lifetime_exceeds wrong_issuer wrong_audience invalid_iat :
      Failure
  invalid_exp invalid_jti issued_in_future expiry_before_issued : Failure

pub data Verified : Type 0 where
  ok : Claims → Verified
  err : Failure → Verified

abbrev pub check : Bool → Failure → Verified → Verified
check true f k = k
check false f k = err f

pub is_bounded_jti : String → Bool
unfolding is_trimmed has_control_characters
is_bounded_jti jti =
    not (jti == "")
    && is_trimmed jti
    && leb (len jti) max_jti_bytes
    && not (has_control_characters jti)

-- token.indexOf('.') and the two slices; none where there is no dot
pub split_dot : String → Option (String × String)
split_dot String.[] = none
split_dot (String.◌∷◌ c s) =
    let rest = Option.map (λ (p : String × String). (String.◌∷◌ c p.0, p.1)) (split_dot s) in
    if code c == 46 then some ("", s) else rest

pub find_key : Option String → List Key → Option Key
find_key none keys = none
find_key (some kid) keys = if kid == "" then none else select (λ k. k.kid == kid) keys

secret_for : KeyArg → Claims → Option String
unfolding find_key
secret_for (bare secret) c = some secret
secret_for (deployment config) c = Option.map (λ (k : Key). k.secret) (find_key c.kid config.keys)

check_legacy : ℕ → Claims → Verified
check_legacy now c =
    check (ltb now c.exp) expired
      (check (leb (c.exp - now) max_lifetime_ms) lifetime_exceeds (ok c))

check_issued : ℕ → Claims → ℕ → Verified
check_issued now c iat = check (leb iat max_safe_integer) invalid_iat (
    check (leb c.exp max_safe_integer) invalid_exp (
      check (is_bounded_jti c.jti) invalid_jti (
        check (leb iat (now + identity_skew_ms)) issued_in_future (
          check (ltb now (c.exp + identity_skew_ms)) expired (
            check (ltb iat c.exp) expiry_before_issued
              (check (leb (c.exp - iat) max_lifetime_ms) lifetime_exceeds (ok c)))))))

check_iat : ℕ → Claims → Option ℕ → Verified
unfolding check_issued
check_iat now c none = err invalid_iat
check_iat now c (some iat) = check_issued now c iat

pub check_bound : Config → ℕ → Claims → Verified
unfolding check_iat
check_bound config now c =
    check (c.iss == some config.issuer) wrong_issuer
      (check (c.aud == some config.audience) wrong_audience (check_iat now c c.iat))

check_claims : KeyArg → ℕ → Claims → Verified
unfolding check_legacy check_bound
check_claims (bare secret) now c = check_legacy now c
check_claims (deployment config) now c = check_bound config now c

-- The primitives: base64url, JSON and HMAC-SHA256.
pub record Primitives : Type 0 where
  -- createHmac('sha256', secret).update(payload).digest('base64url')
  pub hmac : String → String → String
  -- JSON.parse of the decoded payload: none if it throws, some none if it is no object
  pub parse : String → Option (Option RawClaims)
  -- b64url(JSON.stringify(claims))
  pub encode : Claims → String

module _ (p : Primitives) where
  check_signature : KeyArg → ℕ → String → String → Claims → Option String → Verified
  unfolding check_claims
  check_signature key now payload sig c none = err unknown_kid
  check_signature key now payload sig c (some secret) =
      check (sig == p.hmac secret payload) bad_signature (check_claims key now c)

  check_parsed : KeyArg → ℕ → String → String → Option Claims → Verified
  unfolding check_signature secret_for
  check_parsed key now payload sig none = err incomplete_claims
  check_parsed key now payload sig (some c) =
      check_signature key now payload sig c (secret_for key c)

  check_payload : KeyArg → ℕ → String → String → Option (Option RawClaims) → Verified
  unfolding check_parsed is_claims
  check_payload key now payload sig none = err malformed_payload
  check_payload key now payload sig (some none) = err incomplete_claims
  check_payload key now payload sig (some (some raw)) =
      check_parsed key now payload sig (is_claims raw)

  check_parts : KeyArg → ℕ → Option (String × String) → Verified
  unfolding check_payload
  check_parts key now none = err malformed
  check_parts key now (some (payload, sig)) =
      check (not (payload == "") && not (sig == "")) malformed
        (check_payload key now payload sig (p.parse payload))

  -- verifyIdentity, with no replay guard: the broker consumes the jti in a step of its own
  pub verify : String → KeyArg → ℕ → Verified
  unfolding check_parts split_dot
  verify token key now =
      check (leb now max_safe_integer) invalid_verification_time
        (check (not (token == "")) missing_token (check_parts key now (split_dot token)))
