-- ===== src/Identity/Tests.antt =====
-- A toy codec and digest, a token, and the theorems at it.
use vouchr.Base.{◌≡◌, refl, ◌↔◌, true, [], ◌∷◌, none, some, arith, if◌then◌else◌}
use vouchr.Base.Eq.{◌==◌, string_eq}
use vouchr.Base.Table.{select}
use text.Mathlib.TextEquality.{eq_iff}
use vouchr.Identity.{
  Claims, Key, Config, deployment, ok, err, expired, bad_signature, Primitives, verify,
  is_bounded_jti, split_dot, optional_string, optional_number, optional_bool, optional_kind,
  optional_type, non_empty,
}
use vouchr.Identity.Form.{string_value, number_value, bool_value, kind_value, type_value}
use vouchr.Identity.Verify.{IsAccepted, verify_iff}
use vouchr.Identity.Mint.{
  MintInput, PrimitivesLaws, bound_claims, mint, raw_of, sign, mint-verify, lifetime_of,
}

abbrev caller : MintInput
caller = record {
  team_id = "T1";
  user_id = "U1";
  channel = "C1";
  thread_ts = none;
  offboard_target_user_id = none;
  enterprise_id = none;
  owner_kind = none;
  channel_eligible = some true;
  channel_type = none;
  worker = none;
}

abbrev active_key : Key
active_key = record { kid = "k1"; secret = "s1" }

abbrev config : Config
config = record { issuer = "minter"; audience = "prod"; keys = active_key ∷ [] }

abbrev claims : Claims
claims = bound_claims caller config active_key 60000 1000000 "jti-1"

-- One payload stands for the claims at hand, and a digest for each secret.
abbrev toy : Primitives
toy = record {
  hmac = λ secret payload. if secret == "s1" then "sig" else "other";
  parse = λ payload. if payload == "e30" then some (some (raw_of claims)) else none;
  encode = λ c. "e30";
}

token_parts : Unit {0}
unfolding verify split_dot mint sign bound_claims raw_of is_bounded_jti select optional_string
    optional_number optional_bool optional_kind optional_type non_empty lifetime_of string_value
    number_value bool_value kind_value type_value
token_parts = tt

minted : mint toy caller config 60000 1000000 "jti-1" ≡ some "e30.sig"
unfolding token_parts
minted = refl

verified : verify toy "e30.sig" (deployment config) 1060000 ≡ ok claims
unfolding token_parts
verified = refl

too_late : verify toy "e30.sig" (deployment config) 1090000 ≡ err expired
unfolding token_parts
too_late = refl

forged : verify toy "e30.gis" (deployment config) 1060000 ≡ err bad_signature
unfolding token_parts
forged = refl

bounded : is_bounded_jti "jti-1" ≡ true
unfolding token_parts
bounded = refl

toy-laws : PrimitivesLaws toy claims
toy-laws = record {
  parse-encode = refl;
  encode_some = λ e. ground (arith, eq_iff "e30" "");
  encode-NoDot = omega arith;
  hmac_some = λ secret payload e. ground (arith, eq_iff "sig" "", eq_iff "other" "");
}

verify_iff_example :
    (verify toy "e30.sig" (deployment config) 1060000 ≡ ok claims)
    ↔ IsAccepted toy config 1060000 "e30.sig" claims
verify_iff_example = verify_iff toy config 1060000 "e30.sig" claims

mint-verify_example : verify toy "e30.sig" (deployment config) 1089999 ≡ ok claims
unfolding lifetime_of
mint-verify_example =
    mint-verify toy caller config active_key [] 60000 1000000 1089999 "jti-1" "e30.sig" toy-laws
      refl (λ e. ground (arith, eq_iff "k1" "")) bounded minted (omega arith) (omega arith)
      (omega arith)
