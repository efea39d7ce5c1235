-- ===== src/Identity/Form.antt =====
-- The forms of a token, of its claims and of a key, stated apart from the code that reads them.
use Prim.Native.Char.{code}
use Prim.Native.String
use Prim.Native.String.{String}
use mathlib.Core.Option
use mathlib.Core.Path.{subst}
use text.Mathlib.TextEquality.{eq_iff, Char-path}
use text.Mathlib.TextLemmas.{nil-append, cons-append}
use vouchr.Base.{
  ℕ, ◌≤◌, ◌<◌, ◌≡◌, refl, sym, ap, ◌∙◌, ◌≢◌, ◌↔◌, ◌⊎◌, inl, inr, Bool, true, false, ◌&&◌, ◌||◌,
  List, [], ◌∷◌, Option, none, some, arith, not, leb, nat_beq, nat_beq_iff, if◌then◌else◌, ◌>>=◌,
  Bool-cases, some_inj, if-cases,
}
use vouchr.Base.Eq.{◌==◌, string_eq, nat_eq}
use vouchr.Base.Lists.{All, any}
use vouchr.Base.Table.{select}
use vouchr.Base.Text.{
  len, code_points, is_trimmed, IsTrimmed, is_trimmed_iff, has_control_characters,
}
use vouchr.Owner.{OwnerKind, user, channel}
use vouchr.Conversation.{
  ConversationType, group, im, mpim, app_home, type_name, conversation_type_of,
}
use vouchr.Identity.{
  Claims, RawClaims, Value, missing, str, num, bool, other, Key, is_claims, string_of, number_of,
  optional_string, optional_number, optional_bool, optional_kind, optional_type, owner_kind_of,
  some_of, non_empty, is_bounded_jti, split_dot, find_key, max_jti_bytes,
}

unfoldable pub string_value : Option String → Value
string_value none = missing
string_value (some s) = str s

unfoldable pub number_value : Option ℕ → Value
number_value none = missing
number_value (some n) = num n

unfoldable pub bool_value : Option Bool → Value
bool_value none = missing
bool_value (some b) = bool b

unfoldable pub kind_value : Option OwnerKind → Value
kind_value none = missing
kind_value (some user) = str "user"
kind_value (some channel) = str "channel"

unfoldable pub type_value : Option ConversationType → Value
type_value none = missing
type_value (some t) = str (type_name t)

-- The object carries the claims: a claim that is absent is a missing property.
pub record IsClaims (r : RawClaims) (c : Claims) : Type 0 where
  pub team_id : r.team_id ≡ str c.team_id
  pub user_id : r.user_id ≡ str c.user_id
  pub channel : r.channel ≡ str c.channel
  pub thread_ts : r.thread_ts ≡ string_value c.thread_ts
  pub exp : r.exp ≡ num c.exp
  pub jti : r.jti ≡ str c.jti
  pub jti_some : c.jti ≢ ""
  pub iss : r.iss ≡ string_value c.iss
  pub aud : r.aud ≡ string_value c.aud
  pub iat : r.iat ≡ number_value c.iat
  pub kid : r.kid ≡ string_value c.kid
  pub offboard_target_user_id : r.offboard_target_user_id ≡ string_value c.offboard_target_user_id
  pub enterprise_id : r.enterprise_id ≡ string_value c.enterprise_id
  pub owner_kind : r.owner_kind ≡ kind_value c.owner_kind
  pub channel_eligible : r.channel_eligible ≡ bool_value c.channel_eligible
  pub channel_type : r.channel_type ≡ type_value c.channel_type
  pub worker : r.worker ≡ bool_value c.worker

optional_string-value : (o : Option String) → optional_string (string_value o) ≡ some o
unfolding optional_string string_value
optional_string-value none = refl
optional_string-value (some s) = refl

optional_number-value : (o : Option ℕ) → optional_number (number_value o) ≡ some o
unfolding optional_number number_value
optional_number-value none = refl
optional_number-value (some s) = refl

optional_bool-value : (o : Option Bool) → optional_bool (bool_value o) ≡ some o
unfolding optional_bool bool_value
optional_bool-value none = refl
optional_bool-value (some s) = refl

optional_kind-value : (o : Option OwnerKind) → optional_kind (kind_value o) ≡ some o
unfolding optional_kind kind_value
optional_kind-value none = refl
optional_kind-value (some user) = refl
optional_kind-value (some channel) = refl

optional_type-value : (o : Option ConversationType) → optional_type (type_value o) ≡ some o
unfolding optional_type type_value
optional_type-value none = refl
optional_type-value (some ConversationType.channel) = refl
optional_type-value (some group) = refl
optional_type-value (some im) = refl
optional_type-value (some mpim) = refl
optional_type-value (some app_home) = refl

non_empty-some : (s : String) → s ≢ "" → non_empty s ≡ some s
unfolding non_empty
non_empty-some s h = ground (arith, eq_iff s "")

ruleset narrowing = (
  optional_string-value, optional_number-value, optional_bool-value, optional_kind-value,
  optional_type-value,
)

string_of-value : (v : Value) (s : String) → string_of v ≡ some s → v ≡ str s
string_of-value missing s e = absurd (ground arith)
string_of-value (str t) s e = ground arith
string_of-value (num n) s e = absurd (ground arith)
string_of-value (bool b) s e = absurd (ground arith)
string_of-value other s e = absurd (ground arith)

number_of-value : (v : Value) (n : ℕ) → number_of v ≡ some n → v ≡ num n
number_of-value missing n e = absurd (ground arith)
number_of-value (str t) n e = absurd (ground arith)
number_of-value (num m) n e = ground arith
number_of-value (bool b) n e = absurd (ground arith)
number_of-value other n e = absurd (ground arith)

optional_string_iff :
    (v : Value) (o : Option String) → optional_string v ≡ some o → v ≡ string_value o
unfolding optional_string string_value
optional_string_iff missing o e = ap string_value (some_inj e)
optional_string_iff (str t) o e = ap string_value (some_inj e)
optional_string_iff (num m) o e = absurd (ground arith)
optional_string_iff (bool b) o e = absurd (ground arith)
optional_string_iff other o e = absurd (ground arith)

optional_number_iff : (v : Value) (o : Option ℕ) → optional_number v ≡ some o → v ≡ number_value o
unfolding optional_number number_value
optional_number_iff missing o e = ap number_value (some_inj e)
optional_number_iff (num m) o e = ap number_value (some_inj e)
optional_number_iff (str t) o e = absurd (ground arith)
optional_number_iff (bool b) o e = absurd (ground arith)
optional_number_iff other o e = absurd (ground arith)

optional_bool_iff : (v : Value) (o : Option Bool) → optional_bool v ≡ some o → v ≡ bool_value o
unfolding optional_bool bool_value
optional_bool_iff missing o e = ap bool_value (some_inj e)
optional_bool_iff (bool b) o e = ap bool_value (some_inj e)
optional_bool_iff (str t) o e = absurd (ground arith)
optional_bool_iff (num m) o e = absurd (ground arith)
optional_bool_iff other o e = absurd (ground arith)

some_of-inj {ℓ} : {A : Type ℓ} (o : Option A) (p : Option A) → some_of o ≡ some p → o ≡ p
some_of-inj none p e = cc
some_of-inj (some a) p e = some_inj e

kind_value-name :
    (s : String) (k : Option OwnerKind) → some_of (owner_kind_of s) ≡ some k → str s ≡ kind_value k
unfolding kind_value
kind_value-name s k e = elim (Bool-cases (s == "user")) [
  | inl a ↦ ap str ((eq_iff s "user").0 a) ∙ ap kind_value (some_inj (rw a at e))
  | inr a ↦ elim (Bool-cases (s == "channel")) [
    | inl b ↦ ap str ((eq_iff s "channel").0 b) ∙ ap kind_value (some_inj (rw (a, b) at e))
    | inr b ↦ absurd (cc (rw (a, b) at e))
  ]
]

optional_kind_iff : (v : Value) (o : Option OwnerKind) → optional_kind v ≡ some o → v ≡ kind_value o
unfolding optional_kind kind_value
optional_kind_iff missing o e = ap kind_value (some_inj e)
optional_kind_iff (str s) o e = kind_value-name s o e
optional_kind_iff (num m) o e = absurd (ground arith)
optional_kind_iff (bool b) o e = absurd (ground arith)
optional_kind_iff other o e = absurd (ground arith)

type_value-step :
    (s : String) (t : ConversationType) (rest : Option ConversationType)
    (k : Option ConversationType)
    → (some_of rest ≡ some k → str s ≡ type_value k)
    → some_of (if s == type_name t then some t else rest) ≡ some k
    → str s ≡ type_value k
unfolding type_value
type_value-step s t rest k next =
    if-cases (λ (o : Option ConversationType). some_of o ≡ some k → str s ≡ type_value k)
      (s == type_name t) _ _
      (λ same e. ap str ((eq_iff s (type_name t)).0 same) ∙ ap type_value (some_inj e))
      (λ differs e. next e)

type_value-name :
    (s : String) (k : Option ConversationType)
    → some_of (conversation_type_of s) ≡ some k
    → str s ≡ type_value k
type_value-name s k = type_value-step s ConversationType.channel _ k (
    type_value-step s group _ k (
      type_value-step s im _ k
        (type_value-step s mpim _ k (type_value-step s app_home _ k (λ e. absurd (ground arith))))))

optional_type_iff :
    (v : Value) (o : Option ConversationType) → optional_type v ≡ some o → v ≡ type_value o
unfolding optional_type type_value
optional_type_iff missing o e = ap type_value (some_inj e)
optional_type_iff (str s) o e = type_value-name s o e
optional_type_iff (num m) o e = absurd (ground arith)
optional_type_iff (bool b) o e = absurd (ground arith)
optional_type_iff other o e = absurd (ground arith)

non_empty_iff : (s t : String) → non_empty s ≡ some t → (s ≡ t) × (t ≢ "")
unfolding non_empty
non_empty_iff s t e = elim (Bool-cases (s == "")) [
  | inl empty ↦ absurd (cc (rw empty at e))
  | inr full ↦
      let same : s ≡ t = some_inj (rw full at e) in
      (same, λ q. absurd (ground (arith, full, (eq_iff s "").1 (same ∙ q))))
]

bind-some {ℓ κ} :
    {A : Type ℓ} {B : Type κ} (o : Option A) (k : A → Option B) {b : B}
    → (o >>= k) ≡ some b
    → (a : A) × (o ≡ some a) × (k a ≡ some b)
bind-some none k e = cc
bind-some (some a) k e = (a, refl, e)

pub is_claims-IsClaims : (r : RawClaims) (c : Claims) → is_claims r ≡ some c → IsClaims r c
unfolding is_claims
is_claims-IsClaims r c e =
    let (team_id, p1, e) = bind-some _ _ e in
    let (user_id, p2, e) = bind-some _ _ e in
    let (chan, p3, e) = bind-some _ _ e in
    let (exp, p4, e) = bind-some _ _ e in
    let (raw_jti, p5, e) = bind-some _ _ e in
    let (jti, p6, e) = bind-some _ _ e in
    let (thread_ts, p7, e) = bind-some _ _ e in
    let (iss, p8, e) = bind-some _ _ e in
    let (aud, p9, e) = bind-some _ _ e in
    let (iat, p10, e) = bind-some _ _ e in
    let (kid, p11, e) = bind-some _ _ e in
    let (target, p12, e) = bind-some _ _ e in
    let (enterprise_id, p13, e) = bind-some _ _ e in
    let (kind, p14, e) = bind-some _ _ e in
    let (eligible, p15, e) = bind-some _ _ e in
    let (type_, p16, e) = bind-some _ _ e in
    let (worker, p17, e) = bind-some _ _ e in
    let same = some_inj e in
    let (jti_same, jti_some) = non_empty_iff raw_jti jti p6 in
    record {
      team_id = string_of-value _ _ p1 ∙ ap (λ (x : Claims). str x.team_id) same;
      user_id = string_of-value _ _ p2 ∙ ap (λ (x : Claims). str x.user_id) same;
      channel = string_of-value _ _ p3 ∙ ap (λ (x : Claims). str x.channel) same;
      thread_ts = optional_string_iff _ _ p7 ∙ ap (λ (x : Claims). string_value x.thread_ts) same;
      exp = number_of-value _ _ p4 ∙ ap (λ (x : Claims). num x.exp) same;
      jti = string_of-value _ _ p5 ∙ ap str jti_same ∙ ap (λ (x : Claims). str x.jti) same;
      jti_some = λ q. jti_some (ap (λ (x : Claims). x.jti) same ∙ q);
      iss = optional_string_iff _ _ p8 ∙ ap (λ (x : Claims). string_value x.iss) same;
      aud = optional_string_iff _ _ p9 ∙ ap (λ (x : Claims). string_value x.aud) same;
      iat = optional_number_iff _ _ p10 ∙ ap (λ (x : Claims). number_value x.iat) same;
      kid = optional_string_iff _ _ p11 ∙ ap (λ (x : Claims). string_value x.kid) same;
      offboard_target_user_id =
          optional_string_iff _ _ p12
          ∙ ap (λ (x : Claims). string_value x.offboard_target_user_id) same;
      enterprise_id =
          optional_string_iff _ _ p13 ∙ ap (λ (x : Claims). string_value x.enterprise_id) same;
      owner_kind = optional_kind_iff _ _ p14 ∙ ap (λ (x : Claims). kind_value x.owner_kind) same;
      channel_eligible =
          optional_bool_iff _ _ p15 ∙ ap (λ (x : Claims). bool_value x.channel_eligible) same;
      channel_type =
          optional_type_iff _ _ p16 ∙ ap (λ (x : Claims). type_value x.channel_type) same;
      worker = optional_bool_iff _ _ p17 ∙ ap (λ (x : Claims). bool_value x.worker) same;
    }

pub IsClaims-is_claims : (r : RawClaims) (c : Claims) → IsClaims r c → is_claims r ≡ some c
unfolding is_claims
IsClaims-is_claims r c h =
    rw
      (
        h.team_id, h.user_id, h.channel, h.thread_ts, h.exp, h.jti, h.iss, h.aud, h.iat, h.kid,
        h.offboard_target_user_id, h.enterprise_id, h.owner_kind, h.channel_eligible,
        h.channel_type, h.worker,
      )
      (rw (non_empty-some c.jti h.jti_some) (simp narrowing))

abbrev pub NoDot : String → Type 0
NoDot String.[] = Unit {0}
NoDot (String.◌∷◌ c s) = (code c ≢ 46) × NoDot s

unfoldable pub dotted : String → String → String
dotted payload sig = String.◌++◌ payload (String.◌∷◌ "." sig)

pub split_dot-dotted : (a b : String) → NoDot a → split_dot (dotted a b) ≡ some (a, b)
unfolding split_dot dotted
split_dot-dotted String.[] b h = rw nil-append refl
split_dot-dotted (String.◌∷◌ c s) b (h, hs) =
    rw cons-append (ground (arith, split_dot-dotted s b hs))

split_dot-parts :
    (token : String) (a b : String) → split_dot token ≡ some (a, b) → (token ≡ dotted a b) × NoDot a
unfolding split_dot dotted
split_dot-parts String.[] a b e = absurd (ground arith)
split_dot-parts (String.◌∷◌ c s) a b e =
    if-cases
      (λ (o : Option (String × String)). o ≡ some (a, b) → (String.◌∷◌ c s ≡ dotted a b) × NoDot a)
      (code c == 46) _ _
      (λ dot h.
        subst (λ (x : String × String). (String.◌∷◌ c s ≡ dotted x.0 x.1) × NoDot x.0) (some_inj h)
          (
            ap (λ x. String.◌∷◌ x s) (Char-path c "." ((nat_beq_iff (code c) 46).0 dot))
                ∙ sym (nil-append _),
            tt,
          ))
      (λ more. deeper (λ x y q. split_dot-parts s x y q) more (split_dot s) refl) e
  where
    deeper :
        ((x y : String) → split_dot s ≡ some (x, y) → (s ≡ dotted x y) × NoDot x)
        → (code c == 46) ≡ false
        → (o : Option (String × String)) → split_dot s ≡ o
        → Option.map {B = String × String} (λ (p : String × String). (String.◌∷◌ c p.0, p.1)) o
          ≡ some (a, b)
        → (String.◌∷◌ c s ≡ dotted a b) × NoDot a
    deeper below more none q e = absurd (ground arith)
    deeper below more (some (x, y)) q e =
        let rest = below x y q in
        subst (λ (z : String × String). (String.◌∷◌ c s ≡ dotted z.0 z.1) × NoDot z.0) (some_inj e)
          (
            ap (String.◌∷◌ c) rest.0 ∙ sym (cons-append c x _),
            ((λ z. absurd (ground (arith, more, z))), rest.1),
          )

-- The token is the two parts around its first dot.
abbrev pub IsParts : String → String → String → Type 0
IsParts token a b = (token ≡ dotted a b) × NoDot a

pub split_dot_iff : (token a b : String) → (split_dot token ≡ some (a, b)) ↔ IsParts token a b
split_dot_iff token a b =
    (split_dot-parts token a b, λ h. ap split_dot h.0 ∙ split_dot-dotted a b h.1)

-- The first key of that id.
abbrev pub IsFirst : String → Key → List Key → Type 0
IsFirst kid key [] = ⊥
IsFirst kid key (k ∷ ks) = ((k.kid ≡ kid) × (k ≡ key)) ⊎ ((k.kid ≢ kid) × IsFirst kid key ks)

select_kid_iff :
    (kid : String) (key : Key) (ks : List Key)
    → (select (λ (k : Key). k.kid == kid) ks ≡ some key) ↔ IsFirst kid key ks
unfolding select
select_kid_iff kid key [] = ((λ e. absurd (ground arith)), (λ h. elim h [ ]))
select_kid_iff kid key (k ∷ ks) = elim (Bool-cases (k.kid == kid)) [
  | inl own ↦ rw own (
    λ e. inl ((eq_iff k.kid kid).0 own, some_inj e),
    λ h. elim h [ inl q ↦ ap some q.1 | inr q ↦ absurd (q.0 ((eq_iff k.kid kid).0 own)) ],
  )
  | inr next ↦
      let away : k.kid ≢ kid = λ q. absurd (ground (arith, next, (eq_iff k.kid kid).1 q)) in
      rw next (
        λ e. inr (away, (select_kid_iff kid key ks).0 e),
        λ h. elim h [ inl q ↦ absurd (away q.0) | inr q ↦ (select_kid_iff kid key ks).1 q.1 ],
      )
]

-- The key that a token names.
abbrev pub IsKeyOf : Option String → Key → List Key → Type 0
IsKeyOf o key ks = (kid : String) × (o ≡ some kid) × (kid ≢ "") × IsFirst kid key ks

pub find_key_iff :
    (o : Option String) (key : Key) (ks : List Key) → (find_key o ks ≡ some key) ↔ IsKeyOf o key ks
unfolding find_key
find_key_iff none key ks = ((λ e. absurd (ground arith)), (λ h. absurd (ground (arith, h.1))))
find_key_iff (some kid) key ks = elim (Bool-cases (kid == "")) [
  | inl empty ↦
      rw empty (
        λ e. absurd (ground arith),
        λ h. absurd (h.2 (sym (some_inj h.1) ∙ (eq_iff kid "").0 empty)),
      )
  | inr full ↦ rw full (
    λ e. (
      kid,
      refl,
      (λ q. absurd (ground (arith, full, (eq_iff kid "").1 q))),
      (select_kid_iff kid key ks).0 e,
    ),
    λ h. (select_kid_iff kid key ks).1 (subst (λ x. IsFirst x key ks) (sym (some_inj h.1)) h.3),
  )
]

-- An id of use: not empty, of 128 bytes at most, no white space around it and no control characters.
abbrev pub IsBoundedJti : String → Type 0
IsBoundedJti jti =
    (jti ≢ "")
    × IsTrimmed (code_points jti)
    × (len jti ≤ 128)
    × All (λ c. (31 < c) × (c ≢ 127)) (code_points jti)

no_controls_iff :
    (cs : List ℕ)
    → (not (any (λ c. leb c 31 || nat_beq c 127) cs) ≡ true) ↔ All (λ c. (31 < c) × (c ≢ 127)) cs
no_controls_iff [] = ((λ e. tt), (λ h. refl))
no_controls_iff (c ∷ cs) = elim (Bool-cases (leb c 31 || nat_beq c 127)) [
  | inl bad ↦ rw bad (λ e. absurd (ground arith), λ h. absurd (ground (arith, bad, h.0)))
  | inr good ↦ rw good (
    λ e. ((ground (arith, good), ground (arith, good)), (no_controls_iff cs).0 e),
    λ h. (no_controls_iff cs).1 h.1,
  )
]

all_four :
    (a b c d : Bool)
    → ((a && b && c && d) ≡ true) ↔ ((a ≡ true) × (b ≡ true) × (c ≡ true) × (d ≡ true))
all_four a b c d = ground arith

pub is_bounded_jti_iff : (jti : String) → (is_bounded_jti jti ≡ true) ↔ IsBoundedJti jti
unfolding is_bounded_jti has_control_characters
is_bounded_jti_iff jti = (
  λ e.
      let q =
        (all_four (not (jti == "")) (is_trimmed jti) (leb (len jti) max_jti_bytes)
            (not (any (λ c. leb c 31 || nat_beq c 127) (code_points jti)))).0
          e in
      (
        (λ x. absurd (ground (arith, q.0, (eq_iff jti "").1 x))),
        (is_trimmed_iff jti).0 q.1,
        ground (arith, q.2),
        (no_controls_iff (code_points jti)).0 q.3,
      ),
  λ h.
      (all_four (not (jti == "")) (is_trimmed jti) (leb (len jti) max_jti_bytes)
          (not (any (λ c. leb c 31 || nat_beq c 127) (code_points jti)))).1
        (
          ground (arith, h.0, (eq_iff jti "").0),
          (is_trimmed_iff jti).1 h.1,
          ground (arith, h.2),
          (no_controls_iff (code_points jti)).1 h.3,
        ),
)
