-- ===== src/Vault/Sealed.antt =====
-- The sealing that the vault is given: seal and open of src/core/crypto.ts, under the deployment's keys. A
-- text's bytes in UTF-8 are an argument; the random bytes are those of the iv and then of the data key.
use vouchr.Base.{
  String, ◌≡◌, refl, sym, ap, ◌∙◌, inl, inr, false, ◌||◌, Option, none, some, arith, ltb, some_inj,
  Bool-cases,
}
use vouchr.Base.Lists.{length}
use vouchr.Base.Bytes.{take, drop, length-take, length-drop}
use vouchr.Crypto.{
  Bytes, Cipher, CipherLaws, Keyring, MasterKeys, ring, starts, scheme_envelope, scheme_keyed,
  Opened, plaintext, Envelope, encrypt_body, wrapped_blob, seal, open_sealed,
}
use vouchr.Crypto.Load.{Env, load_keyring}
use vouchr.Crypto.Opens.{encrypt-open_sealed, seal-open_sealed}
use vouchr.Vault.{Sealing}

-- Buffer.from(text, 'utf8') and bytes.toString('utf8')
pub record Utf8 : Type 0 where
  pub to_bytes : String → Bytes
  pub of_bytes : Bytes → String

-- A text that UTF-8 carries: one without a lone surrogate.
abbrev pub IsCarried : Utf8 → String → Type 0
IsCarried u s = u.of_bytes (u.to_bytes s) ≡ s

abbrev pub text_of : Utf8 → Opened → Option String
text_of u (plaintext p) = some (u.of_bytes p)
text_of u _ = none

unfoldable pub keyring_sealing : Cipher → Utf8 → MasterKeys → Option Envelope → Sealing
keyring_sealing cipher u keys envelope = record {
  seal = λ random token.
      seal cipher (take 12 random) (take 32 (drop 12 random)) (u.to_bytes token) keys envelope;
  unseal = λ blob. text_of u (open_sealed cipher blob keys envelope);
}

-- The service unwraps what it wrapped.
abbrev pub IsUnwrapping : Option Envelope → Type 0
IsUnwrapping none = Unit
IsUnwrapping (some e) =
    (dek wrapped : Bytes)
    → e.wrap_data_key dek ≡ some wrapped
    → e.unwrap_data_key wrapped ≡ some dek

-- Random bytes for an iv and a data key, of which the iv starts as no other scheme where the primary
-- key has no id.
abbrev pub IsFresh : Keyring → Bytes → Type 0
IsFresh r random =
    (length random ≡ 44)
    × (r.primary.id ≡ none
        → (starts scheme_envelope (take 12 random) ≡ false)
          × (starts scheme_keyed (take 12 random) ≡ false))

module _ (cipher : Cipher) (laws : CipherLaws cipher) (u : Utf8) (decode64 : Bytes → Bytes)
    (env : Env) (r : Keyring) (loaded : load_keyring decode64 env ≡ some r) where
  opened-text :
      (token : String) (o : Opened)
      → IsCarried u token
      → o ≡ plaintext (u.to_bytes token)
      → text_of u o ≡ some token
  opened-text token o carried e = ap (text_of u) e ∙ ap some carried

  envelope-opens :
      (e : Envelope) (iv dek : Bytes) (p sealed : Bytes)
      → IsUnwrapping (some e)
      → length iv ≡ 12
      → length dek ≡ 32
      → (w : Option Bytes) → e.wrap_data_key dek ≡ w
      → seal cipher iv dek p (ring r) (some e) ≡ some sealed
      → open_sealed cipher sealed (ring r) (some e) ≡ plaintext p
  unfolding seal wrapped_blob
  envelope-opens e iv dek p sealed back n d none q h =
      absurd (cc (sym (ap (wrapped_blob cipher (encrypt_body cipher dek iv p)) q) ∙ h))
  envelope-opens e iv dek p sealed back n d (some wrapped) q h =
      elim (Bool-cases (ltb (length wrapped) 1 || ltb 65535 (length wrapped))) [
        | inl bad ↦
            absurd
              (cc (rw bad at (sym (ap (wrapped_blob cipher (encrypt_body cipher dek iv p)) q) ∙ h)))
        | inr fits ↦
            let s =
              seal-open_sealed cipher laws (ring r) e iv dek wrapped p q (back dek wrapped q) d n
                (ground (arith, fits)) (ground (arith, fits)) in
            ap (λ x. open_sealed cipher x (ring r) (some e)) (some_inj (sym h ∙ s.1)) ∙ s.2
      ]

  -- What the keys of an environment that loads sealed, they open, with an envelope or without.
  pub keyring_sealing-opens :
      (envelope : Option Envelope) (random : Bytes) (token : String) (sealed : Bytes)
      → IsUnwrapping envelope
      → IsFresh r random
      → IsCarried u token
      → (keyring_sealing cipher u (ring r) envelope).seal random token ≡ some sealed
      → (keyring_sealing cipher u (ring r) envelope).unseal sealed ≡ some token
  unfolding keyring_sealing seal
  keyring_sealing-opens none random token sealed back fresh carried h =
      let b =
        encrypt-open_sealed cipher laws decode64 env r (take 12 random) (u.to_bytes token) none
          loaded (length-take 12 random (omega (arith, fresh.0))) fresh.1 in
      opened-text token _ carried
        (ap (λ x. open_sealed cipher x (ring r) none) (some_inj (sym h ∙ b.1)) ∙ b.2)
  keyring_sealing-opens (some e) random token sealed back fresh carried h =
      opened-text token _ carried (
        envelope-opens e (take 12 random) (take 32 (drop 12 random)) (u.to_bytes token) sealed back
          (length-take 12 random (omega (arith, fresh.0)))
          (length-take 32 (drop 12 random)
            (omega (arith, fresh.0, length-drop 12 random (omega (arith, fresh.0)))))
          (e.wrap_data_key (take 32 (drop 12 random))) refl h)
