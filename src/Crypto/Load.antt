-- ===== src/Crypto/Load.antt =====
-- loadKeyring of src/core/crypto.ts: the keys of the environment. Decoding base64, which never throws, is
-- an argument; a key id's and an entry's texts are their code points.
use vouchr.Base.{
  ℕ, String, ◌≡◌, refl, sym, ap, ◌∙◌, inl, inr, Bool, true, ◌&&◌, List, [], ◌∷◌, ◌++◌, map, Option,
  none, some, nat_beq, not, arith, if◌then◌else◌, ◌>>=◌, Bool-cases, Option-cases, some_inj,
}
use vouchr.Base.Eq.{◌==◌, nat_eq, string_eq}
use vouchr.Base.Lists.{length, any, All}
use vouchr.Base.Bytes.{list_eq, list_equals_iff}
use vouchr.Base.Text.{code_points, is_space, is_blank}
use vouchr.Base.Assoc.{lookup}
use vouchr.Crypto.{Bytes, MasterKey, Keyring, is_key_id}

pub record Env : Type 0 where
  pub master_key : Option String
  pub master_keys : Option String

abbrev pub NamedKeys : Type 0
NamedKeys = List (Bytes × Bytes)

trim_left : Bytes → Bytes
unfolding is_space
trim_left [] = []
trim_left (c ∷ cs) = let rest = trim_left cs in if is_space c then rest else c ∷ cs

push_trimmed : ℕ → Bytes → Bytes
unfolding is_space
push_trimmed c [] = if is_space c then [] else c ∷ []
push_trimmed c (d ∷ ds) = c ∷ d ∷ ds

trim_right : Bytes → Bytes
unfolding push_trimmed
trim_right [] = []
trim_right (c ∷ cs) = push_trimmed c (trim_right cs)

push_part : ℕ → List Bytes → List Bytes
push_part c [] = (c ∷ []) ∷ []
push_part c (part ∷ parts) = (c ∷ part) ∷ parts

-- s.split(',')
split_comma : Bytes → List Bytes
unfolding push_part
split_comma [] = [] ∷ []
split_comma (c ∷ cs) =
    let parts = split_comma cs in if nat_beq c 44 then [] ∷ parts else push_part c parts

keep_entries : List Bytes → List Bytes
keep_entries [] = []
keep_entries ([] ∷ parts) = keep_entries parts
keep_entries ((c ∷ cs) ∷ parts) = (c ∷ cs) ∷ keep_entries parts

entries_of : Bytes → List Bytes
unfolding split_comma trim_left trim_right keep_entries
entries_of cs = keep_entries (map (λ s. trim_right (trim_left s)) (split_comma cs))

push_before : ℕ → Option (Bytes × Bytes) → Option (Bytes × Bytes)
push_before c none = none
push_before c (some (before, after)) = some (c ∷ before, after)

-- What is before and after the first colon.
at_colon : Bytes → Option (Bytes × Bytes)
unfolding push_before
at_colon [] = none
at_colon (c ∷ cs) =
    let rest = at_colon cs in if nat_beq c 58 then some ([], cs) else push_before c rest

-- A key whose id is null is the one that is tried first; one with an id is found by it.
abbrev pub IsPrimaryOf : Keyring → Option Bytes → Type 0
IsPrimaryOf r none = (rest : List MasterKey) × (r.legacy ≡ r.primary ∷ rest)
IsPrimaryOf r (some id) = (is_key_id id ≡ true) × (lookup id r.by_id ≡ some r.primary.key)

module _ (decode64 : Bytes → Bytes) where
  decode_key : Bytes → Option Bytes
  decode_key b64 = if nat_beq (length (decode64 b64)) 32 then some (decode64 b64) else none

  abbrev is_listed : Bytes → NamedKeys → Bool
  is_listed id listed = any (λ (k : Bytes × Bytes). k.0 == id) listed

  load_named : NamedKeys → Option (Bytes × Bytes) → Option (Bytes × Bytes)
  load_named listed none = none
  load_named listed (some (id, b64)) =
      if is_key_id id && not (is_listed id listed)
      then (decode_key b64 >>= λ key. some (id, key))
      else none

  load_entries : NamedKeys → List Bytes → Option NamedKeys
  unfolding at_colon load_named
  load_entries listed [] = some listed
  load_entries listed (e ∷ es) =
      load_named listed (at_colon e) >>= λ k. load_entries (listed ++ (k ∷ [])) es

  load_listed : Option String → Option NamedKeys
  unfolding load_entries entries_of
  load_listed none = some []
  load_listed (some multi) =
      if is_blank multi then some [] else load_entries [] (entries_of (code_points multi))

  load_idless : Option String → Option (Option Bytes)
  unfolding decode_key
  load_idless none = some none
  load_idless (some single) =
      if single == ""
      then some none
      else (decode_key (code_points single) >>= λ key. some (some key))

  abbrev named : Bytes × Bytes → MasterKey
  named k = record { id = some k.0; key = k.1 }

  ring_of : Option Bytes → NamedKeys → Option Keyring
  ring_of none [] = none
  ring_of (some key) [] = some (record {
    primary = record { id = none; key = key };
    by_id = [];
    legacy = record { id = none; key = key } ∷ [];
  })
  ring_of none (k ∷ ks) =
      some (record { primary = named k; by_id = k ∷ ks; legacy = map named (k ∷ ks) })
  ring_of (some key) (k ∷ ks) = some (record {
    primary = named k;
    by_id = k ∷ ks;
    legacy = record { id = none; key = key } ∷ map named (k ∷ ks);
  })

  -- loadKeyring: none where it throws
  unfoldable pub load_keyring : Env → Option Keyring
  unfolding load_idless load_listed ring_of
  load_keyring env = load_idless env.master_key >>= λ idless.
      load_listed env.master_keys >>= λ listed. ring_of idless listed

  IsNamed : NamedKeys → Type 0
  IsNamed listed = All (λ k. is_key_id k.0 ≡ true) listed

  All-snoc :
      (listed : NamedKeys) (k : Bytes × Bytes)
      → IsNamed listed
      → is_key_id k.0 ≡ true
      → IsNamed (listed ++ (k ∷ []))
  unfolding IsNamed
  All-snoc [] k h e = (e, tt)
  All-snoc (x ∷ xs) k h e = (h.0, All-snoc xs k h.1 e)

  load_named-IsNamed :
      (listed : NamedKeys) (e : Option (Bytes × Bytes)) (k : Bytes × Bytes)
      → load_named listed e ≡ some k
      → is_key_id k.0 ≡ true
  unfolding load_named
  load_named-IsNamed listed none k h = absurd (ground arith)
  load_named-IsNamed listed (some (id, b64)) k h =
      elim (Bool-cases (is_key_id id && not (is_listed id listed))) [
        | inl ok ↦ elim (Option-cases (decode_key b64)) [
          | inl bad ↦ absurd (ground (arith, h, ok, bad))
          | inr (key, good) ↦ ground (arith, h, ok, good)
        ]
        | inr bad ↦ absurd (ground (arith, h, bad))
      ]

  load_entries-IsNamed :
      (es : List Bytes) (listed out : NamedKeys)
      → IsNamed listed
      → load_entries listed es ≡ some out
      → IsNamed out
  unfolding load_entries IsNamed
  load_entries-IsNamed [] listed out h e = rw (sym (some_inj e)) h
  load_entries-IsNamed (x ∷ es) listed out h e =
      elim (Option-cases (load_named listed (at_colon x))) [
        | inl bad ↦ absurd (ground (arith, e, bad))
        | inr (k, good) ↦
            load_entries-IsNamed es (listed ++ (k ∷ [])) out
              (All-snoc listed k h (load_named-IsNamed listed (at_colon x) k good))
              (sym (ap (λ o. o >>= λ k. load_entries (listed ++ (k ∷ [])) es) good) ∙ e)
      ]

  load_listed-IsNamed :
      (multi : Option String) (out : NamedKeys) → load_listed multi ≡ some out → IsNamed out
  unfolding load_listed IsNamed
  load_listed-IsNamed none [] e = tt
  load_listed-IsNamed none (k ∷ ks) e = absurd (ground arith)
  load_listed-IsNamed (some multi) out e = elim (Bool-cases (is_blank multi)) [
    | inl blank ↦
        rw
          (sym (
            some_inj (
              sym (
                ap (λ b. if b then some [] else load_entries [] (entries_of (code_points multi)))
                  blank)
              ∙ e)))
          tt
    | inr full ↦ load_entries-IsNamed (entries_of (code_points multi)) [] out tt (
        sym (ap (λ b. if b then some [] else load_entries [] (entries_of (code_points multi))) full)
        ∙ e)
  ]

  first_found : (id key : Bytes) (ks : NamedKeys) → lookup id ((id, key) ∷ ks) ≡ some key
  unfolding lookup
  first_found id key ks = rw ((list_equals_iff nat_eq id id).1 refl) refl

  ring_of-IsPrimaryOf :
      (idless : Option Bytes) (listed : NamedKeys) (r : Keyring)
      → IsNamed listed
      → ring_of idless listed ≡ some r
      → IsPrimaryOf r r.primary.id
  unfolding ring_of IsNamed lookup
  ring_of-IsPrimaryOf none [] r h e = absurd (ground arith)
  ring_of-IsPrimaryOf (some key) [] r h e = rw (sym (some_inj e)) ([], refl)
  ring_of-IsPrimaryOf none ((id, key) ∷ ks) r h e =
      rw (sym (some_inj e)) (h.0, first_found id key ks)
  ring_of-IsPrimaryOf (some idless) ((id, key) ∷ ks) r h e =
      rw (sym (some_inj e)) (h.0, first_found id key ks)

  -- The keys of an environment that loads: a primary key with an id has a valid one, under which it is
  -- found, and a primary key without one is the first that is tried.
  pub load_keyring-IsPrimaryOf :
      (env : Env) (r : Keyring) → load_keyring env ≡ some r → IsPrimaryOf r r.primary.id
  unfolding load_keyring
  load_keyring-IsPrimaryOf env r e = elim (Option-cases (load_idless env.master_key)) [
    | inl bad ↦ absurd (ground (arith, e, bad))
    | inr (idless, good) ↦ elim (Option-cases (load_listed env.master_keys)) [
      | inl bad ↦ absurd (ground (arith, e, good, bad))
      | inr (listed, fine) ↦
          ring_of-IsPrimaryOf idless listed r (load_listed-IsNamed env.master_keys listed fine)
            (ground (arith, e, good, fine))
    ]
  ]
