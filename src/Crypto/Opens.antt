-- ===== src/Crypto/Opens.antt =====
-- What is sealed is opened, and what is opened was authenticated.
use vouchr.Base.{
  ℕ, ◌+◌, ◌*◌, ◌-◌, ◌/◌, ◌%◌, ◌≤◌, ◌≡◌, refl, ap, ◌∙◌, true, false, ◌&&◌, ◌||◌, [], ◌∷◌, ◌++◌,
  Option, none, some, leb, ltb, nat_beq, arith, if◌then◌else◌,
}
use vouchr.Base.Eq.{nat_eq}
use vouchr.Base.Lists.{length, length-append}
use vouchr.Base.Bytes.{list_eq, take, drop, take-append, drop-append, drop-add}
use vouchr.Base.Assoc.{lookup}
use vouchr.Crypto.{
  Bytes, Cipher, CipherLaws, Keyring, MasterKeys, ring, starts, keyed_scheme, decrypted,
  maybe_envelope, undecryptable, plaintext, Envelope, is_key_id, encrypt_body, decrypt_body,
  encrypt, encrypt_named, seal, open_sealed, unwrap_envelope_blob, decrypt, try_decrypt_direct,
  try_legacy, direct, keyed_parse, keyed_with, keyed_body, unless_keyed, or_legacy, or_next,
  opened_direct, plaintext_or, after_envelope, wrapped_blob, unwrapped, scheme_envelope,
  scheme_keyed,
}
use vouchr.Crypto.Load.{Env, load_keyring, IsPrimaryOf, load_keyring-IsPrimaryOf}

is_key_id-length : (id : Bytes) → is_key_id id ≡ true → (1 ≤ length id) × (length id ≤ 32)
unfolding is_key_id
is_key_id-length id ok = ground arith

module _ (cipher : Cipher) (laws : CipherLaws cipher) where
  decrypt_body-encrypt_body :
      (key iv p : Bytes)
      → length iv ≡ 12
      → decrypt_body cipher (encrypt_body cipher key iv p) key ≡ some p
  decrypt_body-encrypt_body key iv p n =
      ap
        (λ v.
          cipher.decipher key v (take 16 (drop 12 (iv ++ (tag ++ ct))))
            (drop 28 (iv ++ (tag ++ ct))))
        (take-append 12 iv (tag ++ ct) n)
      ∙ ap (λ v. cipher.decipher key iv (take 16 v) (drop 28 (iv ++ (tag ++ ct))))
          (drop-append 12 iv (tag ++ ct) n)
      ∙ ap (λ v. cipher.decipher key iv v (drop 28 (iv ++ (tag ++ ct))))
          (take-append 16 tag ct (laws.tag_length key iv p))
      ∙ ap (λ v. cipher.decipher key iv tag v) ct_end
      ∙ laws.deciphers key iv p
    where
      tag : Bytes
      tag = (cipher.encipher key iv p).0

      ct : Bytes
      ct = (cipher.encipher key iv p).1

      ct_end : drop 28 (iv ++ (tag ++ ct)) ≡ ct
      ct_end =
          drop-add 12 16 (iv ++ (tag ++ ct))
          ∙ ap (λ v. drop 16 v) (drop-append 12 iv (tag ++ ct) n)
          ∙ drop-append 16 tag ct (laws.tag_length key iv p)

  length-encrypt_body :
      (key iv p : Bytes) → length iv ≡ 12 → 28 ≤ length (encrypt_body cipher key iv p)
  length-encrypt_body key iv p n = omega (
    arith,
    n,
    laws.tag_length key iv p,
    length-append iv ((cipher.encipher key iv p).0 ++ (cipher.encipher key iv p).1),
    length-append (cipher.encipher key iv p).0 (cipher.encipher key iv p).1,
  )

  -- A keyed blob is opened by the key of its id.
  keyed_parse-encrypt :
      (r : Keyring) (id key iv p : Bytes)
      → is_key_id id ≡ true
      → lookup id r.by_id ≡ some key
      → length iv ≡ 12
      → keyed_parse cipher r (length id) (id ++ encrypt_body cipher key iv p)
        ≡ decrypted p keyed_scheme (some id)
  unfolding keyed_parse keyed_with keyed_body
  keyed_parse-encrypt r id key iv p ok there n =
      rw (take-append (length id) id (encrypt_body cipher key iv p) refl) (
        rw (drop-append (length id) id (encrypt_body cipher key iv p) refl)
          (rw (parses, there, decrypt_body-encrypt_body key iv p n) refl))
    where
      parses :
          (leb 1 (length id)
            && leb (length id) 32
            && leb 28 (length (encrypt_body cipher key iv p))
            && is_key_id id)
          ≡ true
      parses = ground (arith, ok, is_key_id-length id ok, length-encrypt_body key iv p n)

  direct-keyed :
      (r : Keyring) (n : ℕ) (rest : Bytes)
      → 1 ≤ length rest
      → direct cipher (scheme_keyed ∷ n ∷ rest) r
        ≡ unless_keyed cipher
            (keyed_parse cipher r n rest)
            (try_legacy cipher (scheme_keyed ∷ n ∷ rest) r.legacy)
  unfolding direct
  direct-keyed r n [] h = absurd (omega arith)
  direct-keyed r n (c ∷ rest) h = refl

  direct-legacy :
      (r : Keyring) (blob : Bytes)
      → starts scheme_keyed blob ≡ false
      → direct cipher blob r
        ≡ or_legacy cipher
            (if starts scheme_envelope blob then maybe_envelope else undecryptable)
            (try_legacy cipher blob r.legacy)
  unfolding direct
  direct-legacy r [] h = refl
  direct-legacy r (a ∷ []) h = refl
  direct-legacy r (a ∷ b ∷ []) h = refl
  direct-legacy r (a ∷ b ∷ c ∷ rest) h = rw h refl

  starts-append : (b : ℕ) (xs ys : Bytes) → 1 ≤ length xs → starts b (xs ++ ys) ≡ starts b xs
  starts-append b [] ys h = absurd (omega arith)
  starts-append b (x ∷ xs) ys h = refl

  -- What decrypt gives, open gives where the blob does not start as an envelope.
  open_sealed-decrypt :
      (blob : Bytes) (keys : MasterKeys) (e : Option Envelope)
      → starts scheme_envelope blob ≡ false
      → open_sealed cipher blob keys e ≡ decrypt cipher blob keys
  unfolding open_sealed
  open_sealed-decrypt blob keys none h = refl
  open_sealed-decrypt blob keys (some e) h = rw h refl

  abbrev Opens : Keyring → Bytes → Option Envelope → Option Bytes → Type 0
  Opens r p e sealed =
      (b : Bytes) × (sealed ≡ some b) × (open_sealed cipher b (ring r) e ≡ plaintext p)

  encrypt_named-Opens :
      (r : Keyring) (iv p : Bytes) (e : Option Envelope) (id : Option Bytes)
      → IsPrimaryOf r id
      → length iv ≡ 12
      → (id ≡ none → (starts scheme_envelope iv ≡ false) × (starts scheme_keyed iv ≡ false))
      → Opens r p e (encrypt_named cipher r.primary iv p id)
  unfolding encrypt_named decrypt try_decrypt_direct unless_keyed opened_direct or_legacy try_legacy
      or_next
  encrypt_named-Opens r iv p e (some id) (ok, there) n plain = (
    scheme_keyed ∷ length id ∷ (id ++ body),
    rw ok refl,
    open_sealed-decrypt _ (ring r) e refl
        ∙ ap (opened_direct cipher) (
            direct-keyed r (length id) (id ++ body)
              (omega (arith, length-append id body, is_key_id-length id ok))
            ∙ ap
                (λ d.
                  unless_keyed cipher d
                    (try_legacy cipher (scheme_keyed ∷ length id ∷ (id ++ body)) r.legacy))
                (keyed_parse-encrypt r id r.primary.key iv p ok there n)),
  )
    where
      body : Bytes
      body = encrypt_body cipher r.primary.key iv p
  encrypt_named-Opens r iv p e none (rest, first) n plain = (
    _,
    refl,
    open_sealed-decrypt body (ring r) e
          (starts-append scheme_envelope iv _ (omega (arith, n)) ∙ (plain refl).0)
        ∙ ap (opened_direct cipher) (
            direct-legacy r body
              (starts-append scheme_keyed iv _ (omega (arith, n)) ∙ (plain refl).1)
            ∙ ap
                (or_legacy cipher
                  (if starts scheme_envelope body then maybe_envelope else undecryptable))
                (ap (try_legacy cipher body) first
                  ∙ ap (or_next cipher r.primary (try_legacy cipher body rest))
                      (decrypt_body-encrypt_body r.primary.key iv p n))),
  )
    where
      body : Bytes
      body = encrypt_body cipher r.primary.key iv p

  -- Where the cipher opens what it sealed, and the iv is of twelve bytes: with the keys of an
  -- environment that loads, every secret is encrypted, and what is stored opens to it, whether or not an envelope is configured later. Where the primary key has no id, that is so
  -- when the random iv does not start with the byte of another scheme.
  pub encrypt-open_sealed :
      (decode64 : Bytes → Bytes) (env : Env) (r : Keyring) (iv p : Bytes) (e : Option Envelope)
      → load_keyring decode64 env ≡ some r
      → length iv ≡ 12
      → (r.primary.id ≡ none
          → (starts scheme_envelope iv ≡ false) × (starts scheme_keyed iv ≡ false))
      → (b : Bytes) × (encrypt cipher iv p (ring r) ≡ some b)
        × (open_sealed cipher b (ring r) e ≡ plaintext p)
  unfolding encrypt
  encrypt-open_sealed decode64 env r iv p e loaded n plain =
      encrypt_named-Opens r iv p e r.primary.id (load_keyring-IsPrimaryOf decode64 env r loaded) n
        plain

  unwrap_envelope_blob-seals :
      (e : Envelope) (iv dek wrapped p : Bytes)
      → e.unwrap_data_key wrapped ≡ some dek
      → length dek ≡ 32
      → length iv ≡ 12
      → 1 ≤ length wrapped
      → unwrap_envelope_blob cipher
          (scheme_envelope
            ∷ length wrapped / 256
            ∷ length wrapped % 256
            ∷ (wrapped ++ encrypt_body cipher dek iv p))
          e
        ≡ plaintext p
  unfolding unwrap_envelope_blob unwrapped plaintext_or
  unwrap_envelope_blob-seals e iv dek wrapped p unwraps d n low = rw size (
      rw long (
        rw (take-append (length wrapped) wrapped body refl) (
          rw (drop-append (length wrapped) wrapped body refl)
            (rw unwraps (rw (is_32 d) (rw (decrypt_body-encrypt_body dek iv p n) refl))))))
    where
      body : Bytes
      body = encrypt_body cipher dek iv p

      size : length wrapped / 256 * 256 + length wrapped % 256 ≡ length wrapped
      size = omega arith

      is_32 : {m : ℕ} → m ≡ 32 → nat_beq m 32 ≡ true
      is_32 h = ground arith

      long :
          (ltb (length wrapped) 1
            || ltb (length (wrapped ++ body)) (length wrapped)
            || ltb (length (wrapped ++ body) - length wrapped) 28)
          ≡ false
      long = ground (arith, low, length-append wrapped body, length-encrypt_body dek iv p n)

  -- A secret that is sealed under an envelope is opened under it, whatever the master keys are, where
  -- the cipher opens what it sealed, the envelope unwraps what it wrapped, a data key is of 32 bytes,
  -- an iv of twelve, and a wrapped key of at least one byte and at most 65535.
  pub seal-open_sealed :
      (keys : MasterKeys) (e : Envelope) (iv dek wrapped p : Bytes)
      → e.wrap_data_key dek ≡ some wrapped
      → e.unwrap_data_key wrapped ≡ some dek
      → length dek ≡ 32
      → length iv ≡ 12
      → 1 ≤ length wrapped
      → length wrapped ≤ 65535
      → (b : Bytes) × (seal cipher iv dek p keys (some e) ≡ some b)
        × (open_sealed cipher b keys (some e) ≡ plaintext p)
  unfolding seal wrapped_blob open_sealed after_envelope
  seal-open_sealed keys e iv dek wrapped p wraps unwraps d n low high = (
    scheme_envelope
        ∷ length wrapped / 256
        ∷ length wrapped % 256
        ∷ (wrapped ++ encrypt_body cipher dek iv p),
    rw wraps (rw (in_range (length wrapped) low high) refl),
    rw (unwrap_envelope_blob-seals e iv dek wrapped p unwraps d n low) refl,
  )
    where
      in_range : (m : ℕ) → 1 ≤ m → m ≤ 65535 → (ltb m 1 || ltb 65535 m) ≡ false
      in_range m low high = ground arith
