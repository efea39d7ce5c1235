-- ===== src/Egress/Response.antt =====
-- guardResponse and normalizeContentType of src/core/injector.ts: what a response must meet before it
-- is handed back. A body is the sequence of its chunks, whose reading may fail; Number of the declared
-- length is an argument.
pub mod Compliant
pub mod Stripped
pub mod Tests
use vouchr.Base.{
  ℕ, ◌+◌, min, String, Bool, true, false, ◌&&◌, ◌||◌, List, [], ◌∷◌, ◌++◌, Option, none, some,
  get_or, is_some, leb, ltb, nat_beq, not, if◌then◌else◌,
}
use Prim.Native.String
use vouchr.Base.Lists.{length, any}
use vouchr.Base.Text.{code_points, is_space}
use vouchr.Egress.{same_codes}

pub data Stream : Type 0 where
  ended broken : Stream
  next : List ℕ → Stream → Stream

pub record Response : Type 0 where
  pub status : ℕ
  pub status_text : String
  pub headers : List (String × String)
  pub body : Option Stream
  pub url : String

-- provider.egressResponse; each field is undefined where the whole is
pub record EgressResponse : Type 0 where
  pub max_bytes : Option ℕ
  pub allow_content_types : Option (List String)
  pub strip_headers : Option (List String)

pub data Guarded : Type 0 where
  by_content_type : Guarded
  by_size : ℕ → Guarded
  read_failed : Guarded
  passed : Response → Guarded

-- toLowerCase, on the bytes that a header can hold
abbrev pub lower_code : ℕ → ℕ
lower_code c =
    if (leb 65 c && leb c 90) || (leb 192 c && leb c 222 && not (nat_beq c 215)) then c + 32 else c

pub lower_codes : List ℕ → List ℕ
lower_codes [] = []
lower_codes (c ∷ cs) = lower_code c ∷ lower_codes cs

-- split(';')[0]
pub before_parameters : List ℕ → List ℕ
before_parameters [] = []
before_parameters (c ∷ cs) =
    let rest = before_parameters cs in if nat_beq c 59 then [] else c ∷ rest

pub drop_spaces : List ℕ → List ℕ
unfolding is_space
drop_spaces [] = []
drop_spaces (c ∷ cs) = let rest = drop_spaces cs in if is_space c then rest else c ∷ cs

-- A space at the end stays only before something that stays.
pub add_unless_end : ℕ → List ℕ → List ℕ
unfolding is_space
add_unless_end c [] = if is_space c then [] else c ∷ []
add_unless_end c rest = c ∷ rest

pub drop_end : List ℕ → List ℕ
unfolding add_unless_end
drop_end [] = []
drop_end (c ∷ cs) = add_unless_end c (drop_end cs)

unfoldable pub normalize_content_type : Option String → List ℕ
unfolding lower_codes before_parameters drop_spaces drop_end
normalize_content_type ct =
    lower_codes (drop_end (drop_spaces (before_parameters (code_points (get_or ct "")))))

-- Names of headers are compared without case.
unfoldable pub same_name : String → String → Bool
unfolding lower_codes
same_name a b = same_codes (lower_codes (code_points a)) (lower_codes (code_points b))

joined : String → Option String → String
joined value none = value
joined value (some more) = String.◌++◌ value (String.◌++◌ ", " more)

-- headers.get: the values of a name that is there more than once, together
unfoldable pub header : String → List (String × String) → Option String
unfolding joined
header name [] = none
header name ((own, value) ∷ rest) =
    let more = header name rest in if same_name own name then some (joined value more) else more

-- headers.delete
unfoldable pub without : String → List (String × String) → List (String × String)
without name [] = []
without name ((own, value) ∷ rest) =
    let kept = without name rest in if same_name own name then kept else (own, value) ∷ kept

unfoldable pub without_all : List String → List (String × String) → List (String × String)
without_all [] headers = headers
without_all (name ∷ names) headers = without_all names (without name headers)

-- The ceiling: the provider's, the transport's, or the smaller of both.
abbrev pub cap_of : Option ℕ → Option ℕ → Option ℕ
cap_of none transport = transport
cap_of (some n) none = some n
cap_of (some n) (some m) = some (min n m)

-- What the loop gives: the bytes, the count that passed the ceiling, or a failed read.
pub data Read : Type 0 where
  whole : List ℕ → Read
  exceeded : ℕ → Read
  failed : Read

pub put_before : List ℕ → Read → Read
put_before c (whole bytes) = whole (c ++ bytes)
put_before c r = r

-- The loop, with the count so far.
unfoldable pub read_capped : ℕ → ℕ → Stream → Read
unfolding put_before
read_capped cap total ended = whole []
read_capped cap total broken = failed
read_capped cap total (next c s) =
    let rest = read_capped cap (total + length c) s in
    if ltb cap (total + length c) then exceeded (total + length c) else put_before c rest

abbrev pub is_bodyless : ℕ → Bool
is_bodyless status = nat_beq status 204 || nat_beq status 205 || nat_beq status 304

abbrev pub stripped : EgressResponse → List String
stripped er = "set-cookie" ∷ get_or er.strip_headers []

-- The end of guardResponse: the response as it came, or rebuilt. The flag says that the body was read.
rebuild : EgressResponse → Response → Bool → Option Stream → Response
rebuild er res buffered body =
    if not buffered && not (any (λ h. is_some (header h res.headers)) (stripped er))
    then res
    else record res {
      headers = without_all (stripped er) res.headers;
      body = if is_bodyless res.status then none else body;
    }

after_read : EgressResponse → Response → Read → Guarded
unfolding rebuild
after_read er res (whole bytes) = passed (rebuild er res true (some (next bytes ended)))
after_read er res (exceeded n) = by_size n
after_read er res failed = read_failed

-- The declared length, where it exceeds the ceiling.
declared_excess : ℕ → Option ℕ → Option ℕ
declared_excess cap none = none
declared_excess cap (some n) = if ltb cap n then some n else none

bounded : EgressResponse → Response → ℕ → Stream → Option ℕ → Guarded
unfolding after_read
bounded er res cap s (some n) = by_size n
bounded er res cap s none = after_read er res (read_capped cap 0 s)

sized : (Option String → Option ℕ) → EgressResponse → Response → Option ℕ → Option Stream → Guarded
unfolding bounded declared_excess
sized number er res (some cap) (some s) =
    bounded er res cap s (declared_excess cap (number (header "content-length" res.headers)))
sized number er res _ body = passed (rebuild er res false body)

pub type_allowed : Response → Option (List String) → Option Stream → Bool
type_allowed res (some types) (some s) =
    any
      (λ allowed.
        same_codes (normalize_content_type (header "content-type" res.headers))
          (normalize_content_type (some allowed)))
      types
type_allowed res _ _ = true

-- guardResponse, with Number and transportResponseMaxBytes
unfoldable pub guard_response :
    (Option String → Option ℕ) → Option ℕ → EgressResponse → Response → Guarded
unfolding sized type_allowed
guard_response number transport er res =
    if type_allowed res er.allow_content_types res.body
    then sized number er res (cap_of er.max_bytes transport) res.body
    else by_content_type
