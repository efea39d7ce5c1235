-- ===== src/Crypto.antt =====
-- src/core/crypto.ts: how a secret is sealed for storage, and which key opens it. The cipher, AES-256 in
-- GCM, and the external service that wraps a data key are arguments; random bytes are too. Bytes are
-- numbers, a plaintext is its bytes in UTF-8, and a key id is its code points: a valid one is ASCII, so
-- that these are its bytes.
pub mod Load
pub mod Authentic
pub mod Opens
pub mod Tests
use vouchr.Base.{
  ℕ, ◌+◌, ◌*◌, ◌-◌, ◌/◌, ◌%◌, ◌≡◌, Bool, true, false, ◌&&◌, ◌||◌, List, [], ◌∷◌, ◌++◌, Option, none,
  some, leb, ltb, nat_beq, not, if◌then◌else◌,
}
use vouchr.Base.Eq.{◌==◌, nat_eq, option_eq}
use vouchr.Base.Lists.{length, all}
use vouchr.Base.Bytes.{list_eq, take, drop}
use vouchr.Base.Assoc.{lookup}
use vouchr.ProviderId.{is_id_char}

abbrev pub Bytes : Type 0
Bytes = List ℕ

-- createCipheriv and createDecipheriv: from a key, an iv and a plaintext the tag and the ciphertext, and
-- back where the tag authenticates.
pub record Cipher : Type 0 where
  pub encipher : Bytes → Bytes → Bytes → Bytes × Bytes
  pub decipher : Bytes → Bytes → Bytes → Bytes → Option Bytes

pub record CipherLaws (c : Cipher) : Type 0 where
  pub deciphers :
      (key iv p : Bytes)
      → c.decipher key iv (c.encipher key iv p).0 (c.encipher key iv p).1 ≡ some p
  pub tag_length : (key iv p : Bytes) → length (c.encipher key iv p).0 ≡ 16

-- KEY_ID_RE
unfoldable pub is_key_id : Bytes → Bool
is_key_id id = all is_id_char id && leb 1 (length id) && leb (length id) 32

pub record MasterKey : Type 0 where
  pub id : Option Bytes
  pub key : Bytes

pub record Keyring : Type 0 where
  pub primary : MasterKey
  pub by_id : List (Bytes × Bytes)
  pub legacy : List MasterKey

pub data MasterKeys : Type 0 where
  bare : Bytes → MasterKeys
  ring : Keyring → MasterKeys

abbrev pub to_keyring : MasterKeys → Keyring
to_keyring (ring r) = r
to_keyring (bare key) = record {
  primary = record { id = none; key = key };
  by_id = [];
  legacy = record { id = none; key = key } ∷ [];
}

abbrev pub scheme_envelope : ℕ
scheme_envelope = 1

abbrev pub scheme_keyed : ℕ
scheme_keyed = 2

-- blob[0] === b
abbrev pub starts : ℕ → Bytes → Bool
starts b [] = false
starts b (x ∷ xs) = nat_beq x b

-- DirectDecrypt
pub data Scheme : Type 0 where
  legacy_scheme keyed_scheme : Scheme

pub data DirectDecrypt : Type 0 where
  decrypted : Bytes → Scheme → Option Bytes → DirectDecrypt
  unknown_key_id : Bytes → DirectDecrypt
  maybe_envelope undecryptable : DirectDecrypt

-- What opening gives, or the error that it throws; the first four are of decrypt.
pub data Opened : Type 0 where
  plaintext : Bytes → Opened
  key_missing : Bytes → Opened
  no_key cipher_refused envelope_unavailable envelope_required unwrap_failed : Opened

-- EnvelopeProvider: none where its promise is rejected
pub record Envelope : Type 0 where
  pub wrap_data_key : Bytes → Option Bytes
  pub unwrap_data_key : Bytes → Option Bytes

pub plaintext_or : Opened → Option Bytes → Opened
plaintext_or e none = e
plaintext_or e (some p) = plaintext p

module _ (cipher : Cipher) where
  -- The body of a blob: iv, tag, ciphertext.
  abbrev pub encrypt_body : Bytes → Bytes → Bytes → Bytes
  encrypt_body key iv p = iv ++ ((cipher.encipher key iv p).0 ++ (cipher.encipher key iv p).1)

  unfoldable pub encrypt_named : MasterKey → Bytes → Bytes → Option Bytes → Option Bytes
  encrypt_named k iv p none = some (encrypt_body k.key iv p)
  encrypt_named k iv p (some id) =
      if is_key_id id
      then some (scheme_keyed ∷ length id ∷ (id ++ encrypt_body k.key iv p))
      else none

  -- encrypt, with the random iv
  unfoldable pub encrypt : Bytes → Bytes → MasterKeys → Option Bytes
  unfolding encrypt_named
  encrypt iv p keys = encrypt_named (to_keyring keys).primary iv p (to_keyring keys).primary.id

  abbrev pub decrypt_body : Bytes → Bytes → Option Bytes
  decrypt_body body key = cipher.decipher key (take 12 body) (take 16 (drop 12 body)) (drop 28 body)

  or_next : MasterKey → Option (Bytes × Option Bytes) → Option Bytes → Option (Bytes × Option Bytes)
  or_next k rest none = rest
  or_next k rest (some p) = some (p, k.id)

  pub try_legacy : Bytes → List MasterKey → Option (Bytes × Option Bytes)
  unfolding or_next
  try_legacy blob [] = none
  try_legacy blob (k ∷ ks) = or_next k (try_legacy blob ks) (decrypt_body blob k.key)

  pub or_legacy : DirectDecrypt → Option (Bytes × Option Bytes) → DirectDecrypt
  or_legacy failure none = failure
  or_legacy failure (some (p, id)) = decrypted p legacy_scheme id

  keyed_body : Bytes → Bytes → Option Bytes → DirectDecrypt
  keyed_body id body none = undecryptable
  keyed_body id body (some p) = decrypted p keyed_scheme (some id)

  keyed_with : Bytes → Bytes → Option Bytes → DirectDecrypt
  unfolding keyed_body
  keyed_with id body none = unknown_key_id id
  keyed_with id body (some key) = keyed_body id body (decrypt_body body key)

  -- The keyed parse of a blob after its two first bytes; a header that does not parse has no key.
  keyed_parse : Keyring → ℕ → Bytes → DirectDecrypt
  unfolding keyed_with
  keyed_parse r id_len rest =
      if leb 1 id_len
        && leb id_len 32
        && leb 28 (length (drop id_len rest))
        && is_key_id (take id_len rest)
      then keyed_with (take id_len rest) (drop id_len rest) (lookup (take id_len rest) r.by_id)
      else undecryptable

  -- A keyed failure stands only where no legacy key opens the blob.
  unless_keyed : DirectDecrypt → Option (Bytes × Option Bytes) → DirectDecrypt
  unfolding or_legacy
  unless_keyed (decrypted p s id) legacy = decrypted p s id
  unless_keyed failure legacy = or_legacy failure legacy

  direct : Bytes → Keyring → DirectDecrypt
  unfolding keyed_parse unless_keyed or_legacy
  direct (first ∷ id_len ∷ c ∷ rest) r =
      if nat_beq first scheme_keyed
      then unless_keyed (keyed_parse r id_len (c ∷ rest))
          (try_legacy (first ∷ id_len ∷ c ∷ rest) r.legacy)
      else or_legacy (if nat_beq first scheme_envelope then maybe_envelope else undecryptable)
          (try_legacy (first ∷ id_len ∷ c ∷ rest) r.legacy)
  direct blob r =
      or_legacy (if starts scheme_envelope blob then maybe_envelope else undecryptable)
        (try_legacy blob r.legacy)

  unfoldable pub try_decrypt_direct : Bytes → MasterKeys → DirectDecrypt
  unfolding direct
  try_decrypt_direct blob keys = direct blob (to_keyring keys)

  unfoldable pub opened_direct : DirectDecrypt → Opened
  opened_direct (decrypted p s id) = plaintext p
  opened_direct (unknown_key_id id) = key_missing id
  opened_direct maybe_envelope = no_key
  opened_direct undecryptable = no_key

  unfoldable pub decrypt : Bytes → MasterKeys → Opened
  unfolding opened_direct plaintext_or try_decrypt_direct
  decrypt blob (bare key) =
      if starts scheme_keyed blob
      then opened_direct (try_decrypt_direct blob (bare key))
      else plaintext_or cipher_refused (decrypt_body blob key)
  decrypt blob (ring r) = opened_direct (try_decrypt_direct blob (ring r))

  unfoldable pub wrapped_blob : Bytes → Option Bytes → Option Bytes
  wrapped_blob body none = none
  wrapped_blob body (some wrapped) =
      if ltb (length wrapped) 1 || ltb 65535 (length wrapped)
      then none
      else some (scheme_envelope ∷ length wrapped / 256 ∷ length wrapped % 256 ∷ (wrapped ++ body))

  -- seal, with the random iv and data key; none where it throws
  unfoldable pub seal : Bytes → Bytes → Bytes → MasterKeys → Option Envelope → Option Bytes
  unfolding encrypt wrapped_blob
  seal iv dek p keys none = encrypt iv p keys
  seal iv dek p keys (some e) = wrapped_blob (encrypt_body dek iv p) (e.wrap_data_key dek)

  unwrapped : Bytes → Option Bytes → Opened
  unfolding plaintext_or
  unwrapped body none = unwrap_failed
  unwrapped body (some dek) =
      if nat_beq (length dek) 32
      then plaintext_or cipher_refused (decrypt_body body dek)
      else envelope_unavailable

  unfoldable pub unwrap_envelope_blob : Bytes → Envelope → Opened
  unfolding unwrapped
  unwrap_envelope_blob (first ∷ high ∷ low ∷ rest) e =
      let dek_len = high * 256 + low in
      if ltb dek_len 1 || ltb (length rest) dek_len || ltb (length rest - dek_len) 28
      then envelope_unavailable
      else unwrapped (drop dek_len rest) (e.unwrap_data_key (take dek_len rest))
  unwrap_envelope_blob blob e = envelope_unavailable

  unfoldable pub open_envelope : Bytes → Envelope → Opened
  unfolding unwrap_envelope_blob
  open_envelope blob e =
      if starts scheme_envelope blob then unwrap_envelope_blob blob e else envelope_required

  -- The envelope's failure stands only where no key of the ring opens the blob.
  probed : Opened → DirectDecrypt → Opened
  probed e (decrypted p s id) = plaintext p
  probed e _ = e

  after_envelope : DirectDecrypt → Opened → Opened
  unfolding probed
  after_envelope probe (plaintext p) = plaintext p
  after_envelope probe e = probed e probe

  -- open
  unfoldable pub open_sealed : Bytes → MasterKeys → Option Envelope → Opened
  unfolding decrypt after_envelope unwrap_envelope_blob
  open_sealed blob keys none = decrypt blob keys
  open_sealed blob keys (some e) =
      if starts scheme_envelope blob
      then after_envelope (try_decrypt_direct blob keys) (unwrap_envelope_blob blob e)
      else decrypt blob keys
