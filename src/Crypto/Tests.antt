-- ===== src/Crypto/Tests.antt =====
-- Runs of the sealing, and its theorems at concrete inputs.
use vouchr.Base.{
  ℕ, zero, suc, ◌≡◌, refl, ◌⊎◌, [], ◌∷◌, ◌++◌, Option, none, some, arith, nat_beq, if◌then◌else◌,
}
use vouchr.Base.Bytes.{drop}
use vouchr.Base.Assoc.{lookup}
use vouchr.Base.Text.{is_space, is_blank}
use vouchr.Crypto.{
  Bytes, Cipher, CipherLaws, Keyring, bare, ring, plaintext, key_missing, Envelope, is_key_id,
  encrypt, encrypt_named, seal, open_sealed, decrypt, try_decrypt_direct, try_legacy, direct,
  keyed_parse, keyed_with, keyed_body, unless_keyed, or_legacy, or_next, opened_direct,
  plaintext_or, after_envelope, wrapped_blob, unwrapped, unwrap_envelope_blob,
}
use vouchr.Crypto.Load.{Env, load_keyring}
use vouchr.Crypto.Opens.{encrypt-open_sealed, seal-open_sealed}
use vouchr.Crypto.Authentic.{IsDirect, IsEnveloped, open_sealed-authentic}

abbrev pub head_or : Bytes → ℕ
head_or [] = 0
head_or (b ∷ bs) = b

abbrev pub repeat_byte : ℕ → ℕ → Bytes
repeat_byte b zero = []
repeat_byte b (suc n) = b ∷ repeat_byte b n

-- A cipher that authenticates by the first byte of the key.
abbrev pub test_cipher : Cipher
test_cipher = record {
  encipher = λ key iv p. (repeat_byte (head_or key) 16, p);
  decipher = λ key iv tag ct. if nat_beq (head_or key) (head_or tag) then some ct else none;
}

head_repeat :
    (key p : Bytes)
    → (if nat_beq (head_or key) (head_or (repeat_byte (head_or key) 16)) then some p else none)
      ≡ some p
head_repeat [] p = refl
head_repeat (b ∷ bs) p = ground arith

pub test_cipher-CipherLaws : CipherLaws test_cipher
test_cipher-CipherLaws = record {
  deciphers = λ key iv p. head_repeat key p;
  tag_length = λ key iv p. refl;
}

-- Decoding that takes every text for the same 32 bytes.
abbrev pub test_decode : Bytes → Bytes
test_decode text = repeat_byte 7 32

abbrev pub env : Env
env = record { master_key = none; master_keys = some "k1:AAAA" }

abbrev pub test_ring : Keyring
test_ring = record {
  primary = record { id = some (107 ∷ 49 ∷ []); key = repeat_byte 7 32 };
  by_id = (107 ∷ 49 ∷ [], repeat_byte 7 32) ∷ [];
  legacy = record { id = some (107 ∷ 49 ∷ []); key = repeat_byte 7 32 } ∷ [];
}

pub loads : load_keyring test_decode env ≡ some test_ring
unfolding load_keyring is_space is_blank is_key_id
loads = refl

sealing : Unit {0}
unfolding encrypt encrypt_named seal open_sealed decrypt try_decrypt_direct try_legacy direct
    keyed_parse keyed_with keyed_body unless_keyed or_legacy or_next opened_direct plaintext_or
    after_envelope wrapped_blob unwrapped unwrap_envelope_blob is_key_id lookup
sealing = tt

abbrev pub keyed_blob : Bytes
keyed_blob = 2 ∷ 2 ∷ 107 ∷ 49 ∷ (repeat_byte 9 12 ++ (repeat_byte 7 16 ++ (65 ∷ [])))

seals : encrypt test_cipher (repeat_byte 9 12) (65 ∷ []) (ring test_ring) ≡ some keyed_blob
unfolding sealing
seals = refl

opens : open_sealed test_cipher keyed_blob (ring test_ring) none ≡ plaintext (65 ∷ [])
unfolding sealing
opens = refl

-- Without the key of its id a blob is refused by that id.
misses :
    open_sealed test_cipher keyed_blob (bare (repeat_byte 8 32)) none ≡ key_missing (107 ∷ 49 ∷ [])
unfolding sealing
misses = refl

encrypt-open_sealed_example :
    (b : Bytes) × (encrypt test_cipher (repeat_byte 9 12) (65 ∷ []) (ring test_ring) ≡ some b)
    × (open_sealed test_cipher b (ring test_ring) none ≡ plaintext (65 ∷ []))
encrypt-open_sealed_example =
    encrypt-open_sealed test_cipher test_cipher-CipherLaws test_decode env test_ring
      (repeat_byte 9 12) (65 ∷ []) none loads refl (λ e. absurd (ground arith))

abbrev test_envelope : Envelope
test_envelope = record {
  wrap_data_key = λ dek. some (0 ∷ dek);
  unwrap_data_key = λ wrapped. some (drop 1 wrapped);
}

seal-open_sealed_example :
    (b : Bytes) × (seal test_cipher
        (repeat_byte 9 12)
        (repeat_byte 5 32)
        (65 ∷ [])
        (bare [])
        (some test_envelope)
      ≡ some b)
    × (open_sealed test_cipher b (bare []) (some test_envelope) ≡ plaintext (65 ∷ []))
seal-open_sealed_example =
    seal-open_sealed test_cipher test_cipher-CipherLaws (bare []) test_envelope (repeat_byte 9 12)
      (repeat_byte 5 32) (0 ∷ repeat_byte 5 32) (65 ∷ []) refl refl refl refl (omega arith)
      (omega arith)

open_sealed-authentic_example :
    IsDirect test_cipher (65 ∷ []) keyed_blob test_ring
    ⊎ ((v : Envelope) × (◌≡◌ {A = Option Envelope} none (some v))
        × IsEnveloped test_cipher (65 ∷ []) keyed_blob v)
open_sealed-authentic_example =
    open_sealed-authentic test_cipher (65 ∷ []) keyed_blob (ring test_ring) none opens
