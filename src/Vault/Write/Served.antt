-- ===== src/Vault/Write/Served.antt =====
-- A credential that is written is the one that is served.
use vouchr.Base.{
  ℕ, String, ◌≡◌, refl, sym, ap, ◌∙◌, inl, inr, Bool, true, false, ◌&&◌, List, [], ◌∷◌, Option,
  none, some, arith, if◌then◌else◌, ◌>>=◌, Bool-cases, is_some, some_inj, if-cases,
}
use text.Mathlib.TextEquality.{eq_iff}
use vouchr.Base.Eq.{◌==◌, string_eq}
use vouchr.Base.Table.{select, update}
use vouchr.Owner.{Owner, OwnerKind, user, channel, kind_eq}
use vouchr.Vault.{
  Row, Connections, Tables, TtlPolicy, Sealing, StoredCredential, served, unreadable, is_owned,
  is_generation, is_expired_row, fetch_row, live, decode, serve, get, clear_satellites,
  clear_requests, purge_channel_state, open_token,
}
use vouchr.Vault.Write.{
  StoredToken, PreparedToken, Stamp, sealed_token, seal_refresh, vault_row, put_row, put_connection,
  write_vault_credential,
}
use vouchr.Crypto.{Bytes, Cipher, CipherLaws, Keyring, ring, Envelope}
use vouchr.Crypto.Load.{Env, load_keyring}
use vouchr.Vault.Sealed.{
  Utf8, IsCarried, IsUnwrapping, IsFresh, keyring_sealing, keyring_sealing-opens,
}

-- Opening gives back what is sealed from a text, with these random bytes.
abbrev IsSealing : Sealing → List ℕ → String → Type 0
IsSealing box random token =
    (sealed : List ℕ) → box.seal random token ≡ some sealed → box.unseal sealed ≡ some token

-- What holds of both tokens that a credential can have.
abbrev pub IsEachToken : (String → Type 0) → StoredToken → Type 0
IsEachToken P t = P t.access_token × ((token : String) → t.refresh_token ≡ some token → P token)

and_true : (b : Bool) → (b && true) ≡ b
and_true true = refl
and_true false = refl

vault_row-is_owned :
    (o : Owner) (provider : String) (t : StoredToken) (prepared : PreparedToken) (id : String)
    (now_us : ℕ)
    → is_owned o provider (vault_row o provider t prepared 0 id now_us) ≡ true
unfolding is_owned vault_row
vault_row-is_owned o provider t prepared id now_us = ground (
  arith,
  eq_iff o.team_id o.team_id,
  kind_eq.equals_iff o.kind o.kind,
  eq_iff o.id o.id,
  eq_iff provider provider,
)

select-update :
    (p q : Row → Bool) (row : Row) (t : Connections)
    → ((r : Row) → q r ≡ p r)
    → p row ≡ true
    → is_some (select p t) ≡ true
    → select q (update p (λ r. row) t) ≡ some row
unfolding select update
select-update p q row [] same own e = absurd (ground arith)
select-update p q row (r ∷ t) same own e = elim (Bool-cases (p r)) [
  | inl hit ↦ rw hit (rw (same row ∙ own) refl)
  | inr miss ↦ rw miss (
      rw (same r ∙ miss) (
        select-update p q row t same own
          (sym (ap (λ b. is_some (if b then some r else select p t)) miss) ∙ e)))
]

put_row-select :
    (o : Owner) (provider : String) (q : Row → Bool) (row : Row) (t : Connections)
    → ((r : Row) → q r ≡ is_owned o provider r)
    → is_owned o provider row ≡ true
    → (old : Option Row) → select (is_owned o provider) t ≡ old
    → select q (put_row o provider row t old) ≡ some row
unfolding put_row select
put_row-select o provider q row t same own none e = rw (same row ∙ own) refl
put_row-select o provider q row t same own (some old) e =
    select-update (is_owned o provider) q row t same own (rw e refl)

clear_requests-connections :
    (k : OwnerKind) (o : Owner) (provider : String) (now : ℕ) (s : Tables)
    → (clear_requests k o provider now s).connections ≡ s.connections
unfolding purge_channel_state
clear_requests-connections user o provider now s = refl
clear_requests-connections channel o provider now s = refl

clear_satellites-connections :
    (o : Owner) (provider : String) (now : ℕ) (s : Tables)
    → (clear_satellites o provider now s).connections ≡ s.connections
unfolding clear_satellites
clear_satellites-connections o provider now s = clear_requests-connections o.kind o provider now _

-- An empty refresh token is stored as none.
abbrev pub stored_refresh : Option String → Option String
stored_refresh none = none
stored_refresh (some token) = if token == "" then none else some token

abbrev pub credential_of : StoredToken → StoredCredential
credential_of t = record {
  source = "vault";
  access_token = some t.access_token;
  refresh_token = stored_refresh t.refresh_token;
  secret_ref = none;
  scopes = t.scopes;
  expires_at = t.expires_at;
  external_account = t.external_account;
  dry_run = false;
}

module _ (box : Sealing) where
  seal_refresh-opens :
      (random : List ℕ) (token : Option String) (sealed : Option (List ℕ))
      → ((x : String) → token ≡ some x → IsSealing box random x)
      → seal_refresh box random token ≡ some sealed
      → open_token box sealed ≡ some (stored_refresh token)
  seal_refresh-opens random none none opens e = refl
  seal_refresh-opens random none (some x) opens e = absurd (ground arith)
  seal_refresh-opens random (some token) sealed opens e =
      if-cases
        (λ (x : Option (Option (List ℕ))).
          x ≡ some sealed → open_token box sealed ≡ some (if token == "" then none else some token))
        (token == "") _ _ (λ empty h. rw empty (ap (open_token box) (sym (some_inj h))))
        (λ full h. rw full (with_seal (box.seal random token) refl h)) e
    where
      with_seal :
          (o : Option (List ℕ))
          → box.seal random token ≡ o
          → (o >>= λ x. some (some x)) ≡ some sealed
          → open_token box sealed ≡ some (some token)
      with_seal none q e = absurd (ground arith)
      with_seal (some x) q e =
          ap (open_token box) (sym (some_inj e))
          ∙ ap (λ u. u >>= λ v. some (some v)) (opens token refl x q)

  decode-sealed_token :
      (random random' : List ℕ) (now : ℕ) (t : StoredToken) (prepared : PreparedToken) (o : Owner)
      (provider id : String) (now_us : ℕ)
      → IsSealing box random t.access_token
      → ((x : String) → t.refresh_token ≡ some x → IsSealing box random' x)
      → sealed_token false box random random' now t ≡ some prepared
      → decode box (vault_row o provider t prepared 0 id now_us) ≡ some (credential_of t)
  unfolding sealed_token decode vault_row
  decode-sealed_token random random' now t prepared o provider id now_us opens opens' =
      split (box.seal random t.access_token) refl (seal_refresh box random' t.refresh_token) refl
    where
      split :
          (a : Option (List ℕ))
          → box.seal random t.access_token ≡ a
          → (b : Option (Option (List ℕ))) → seal_refresh box random' t.refresh_token ≡ b
          → (a >>= λ access. b >>= λ refresh.
              some (record { access_enc = access; refresh_enc = refresh; now = now }))
            ≡ some prepared
          → decode box (vault_row o provider t prepared 0 id now_us) ≡ some (credential_of t)
      split none p b q e = absurd (ground arith)
      split (some a) p none q e = absurd (ground arith)
      split (some a) p (some b) q e =
          rw (sym (some_inj e))
            (rw (opens a p) (rw (seal_refresh-opens random' t.refresh_token b opens' q) refl))

  serve-decode :
      (r : Row) (c : StoredCredential) → decode box r ≡ some c → serve box (some r) ≡ served c
  unfolding serve
  serve-decode r c e =
      ap (λ (d : Option StoredCredential). elim d [ none ↦ unreadable | some x ↦ served x ]) e

  stored-get :
      (ttl : TtlPolicy) (o : Owner) (provider : String) (t : StoredToken) (random random' : List ℕ)
      (now at : ℕ) (prepared : PreparedToken) (stamp : Stamp) (s : Tables)
      → IsSealing box random t.access_token
      → ((x : String) → t.refresh_token ≡ some x → IsSealing box random' x)
      → sealed_token false box random random' now t ≡ some prepared
      → is_expired_row ttl at (vault_row o provider t prepared 0 stamp.id stamp.now_us) ≡ false
      → (w : Tables) × (write_vault_credential false o provider t prepared stamp s ≡ some w)
        × (get ttl false box o provider none at w.connections ≡ served (credential_of t))
  unfolding write_vault_credential get fetch_row put_connection serve
  stored-get ttl o provider t random random' now at prepared stamp s opens opens' sealed young = (
    _,
    refl,
    ap
          (λ c.
            serve box (live ttl at (select (λ r. is_owned o provider r && is_generation none r) c)))
          (clear_satellites-connections o provider stamp.now_us _)
        ∙ ap (λ x. serve box (live ttl at x))
            (put_row-select o provider _ (vault_row o provider t prepared 0 stamp.id stamp.now_us)
              s.connections (λ r. and_true (is_owned o provider r))
              (vault_row-is_owned o provider t prepared stamp.id stamp.now_us)
              (select (is_owned o provider) s.connections) refl)
        ∙ ap
            (λ b.
              serve box (
                if b then none else some (vault_row o provider t prepared 0 stamp.id stamp.now_us)))
            young
        ∙ serve-decode _ (credential_of t) (
            decode-sealed_token random random' now t prepared o provider stamp.id stamp.now_us opens
              opens' sealed),
  )

-- A token that is sealed under the deployment's keys and written is what is served to its owner, with its
-- scopes, its expiry and its account, for as long as it is not expired. So it is where the cipher opens
-- what it sealed, the keys are those of an environment that loads, the envelope, if there is one,
-- unwraps what it wrapped, the tokens are texts that UTF-8 carries, and each is sealed with 44 random
-- bytes that, where the primary key has no id, do not start with the byte of another scheme.
pub write_vault_credential-get :
    (cipher : Cipher) (laws : CipherLaws cipher) (u : Utf8) (decode64 : Bytes → Bytes) (env : Env)
    (r : Keyring) (loaded : load_keyring decode64 env ≡ some r) (envelope : Option Envelope)
    (ttl : TtlPolicy) (o : Owner) (provider : String) (t : StoredToken) (random random' : List ℕ)
    (now at : ℕ) (prepared : PreparedToken) (stamp : Stamp) (s : Tables)
    → IsUnwrapping envelope
    → IsFresh r random
    → IsFresh r random'
    → IsEachToken (IsCarried u) t
    → sealed_token false (keyring_sealing cipher u (ring r) envelope) random random' now t
      ≡ some prepared
    → is_expired_row ttl at (vault_row o provider t prepared 0 stamp.id stamp.now_us) ≡ false
    → (w : Tables) × (write_vault_credential false o provider t prepared stamp s ≡ some w)
      × (get ttl false (keyring_sealing cipher u (ring r) envelope) o provider none at w.connections
          ≡ served (credential_of t))
write_vault_credential-get cipher laws u decode64 env r loaded envelope ttl o provider t random
      random' now at prepared stamp s back fresh fresh' carried sealed young =
    stored-get (keyring_sealing cipher u (ring r) envelope) ttl o provider t random random' now at
      prepared stamp s
      (λ b.
        keyring_sealing-opens cipher laws u decode64 env r loaded envelope random t.access_token b
          back fresh carried.0)
      (λ x e b.
        keyring_sealing-opens cipher laws u decode64 env r loaded envelope random' x b back fresh'
          (carried.1 x e))
      sealed young
