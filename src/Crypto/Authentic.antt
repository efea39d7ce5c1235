-- ===== src/Crypto/Authentic.antt =====
-- What is opened was authenticated by a configured key.
use vouchr.Base.{
  ℕ, suc, ◌+◌, ◌*◌, ◌≡◌, refl, sym, ap, ◌∙◌, inl, inr, ◌⊎◌, Bool, true, false, ◌&&◌, List, [], ◌∷◌,
  Option, none, some, leb, nat_beq, arith, if◌then◌else◌, Option-cases, if-cases, nat_beq_iff,
}
use vouchr.Base.Eq.{nat_eq}
use vouchr.Base.Lists.{length, Any}
use vouchr.Base.Bytes.{list_eq, take, drop}
use vouchr.Base.Assoc.{lookup}
use vouchr.Crypto.{
  Bytes, Cipher, MasterKey, Keyring, MasterKeys, bare, ring, to_keyring, starts, DirectDecrypt,
  decrypted, unknown_key_id, maybe_envelope, undecryptable, Opened, plaintext, key_missing, no_key,
  cipher_refused, envelope_unavailable, envelope_required, unwrap_failed, Envelope, is_key_id,
  decrypt_body, open_sealed, unwrap_envelope_blob, decrypt, try_decrypt_direct, try_legacy, direct,
  keyed_parse, keyed_with, keyed_body, unless_keyed, or_legacy, or_next, opened_direct,
  plaintext_or, after_envelope, probed, unwrapped, scheme_envelope, scheme_keyed,
}

module _ (cipher : Cipher) (p : Bytes) where
  -- The key that the blob names by its id authenticates the body after it.
  pub record IsKeyed (r : Keyring) (n : ℕ) (rest : Bytes) : Type 0 where
    pub key : Bytes
    pub listed : lookup (take n rest) r.by_id ≡ some key
    pub authentic : decrypt_body cipher (drop n rest) key ≡ some p

  abbrev pub IsDirect : Bytes → Keyring → Type 0
  IsDirect blob r =
      Any (λ k. decrypt_body cipher blob k.key ≡ some p) r.legacy
      ⊎ ((n : ℕ) × (rest : Bytes) × (blob ≡ scheme_keyed ∷ n ∷ rest) × IsKeyed r n rest)

  -- A data key that the envelope unwrapped authenticates a part of the blob.
  pub record IsEnveloped (blob : Bytes) (e : Envelope) : Type 0 where
    pub from_byte : ℕ
    pub wrapped : Bytes
    pub data_key : Bytes
    pub unwraps : e.unwrap_data_key wrapped ≡ some data_key
    pub authentic : decrypt_body cipher (drop from_byte blob) data_key ≡ some p

  try_legacy-Any :
      (blob : Bytes) (ks : List MasterKey) (id : Option Bytes)
      → try_legacy cipher blob ks ≡ some (p, id)
      → Any (λ k. decrypt_body cipher blob k.key ≡ some p) ks
  unfolding try_legacy or_next
  try_legacy-Any blob [] id e = absurd (ground arith)
  try_legacy-Any blob (k ∷ ks) id e = elim (Option-cases (decrypt_body cipher blob k.key)) [
    | inl refused ↦ inr (
        try_legacy-Any blob ks id
          (sym (ap (or_next cipher k (try_legacy cipher blob ks)) refused) ∙ e))
    | inr (q, opened) ↦
        inl (opened ∙ same (sym (ap (or_next cipher k (try_legacy cipher blob ks)) opened) ∙ e))
  ]
    where
      same :
          {q : Bytes} {i j : Option Bytes}
          → ◌≡◌ {A = Option (Bytes × Option Bytes)} (some (q, i)) (some (p, j))
          → some q ≡ some p
      same e = ground arith

  or_legacy-plaintext :
      (f : DirectDecrypt) (o : Option (Bytes × Option Bytes))
      → opened_direct cipher (or_legacy cipher f o) ≡ plaintext p
      → (opened_direct cipher f ≡ plaintext p) ⊎ ((id : Option Bytes) × (o ≡ some (p, id)))
  unfolding or_legacy opened_direct
  or_legacy-plaintext f none e = inl e
  or_legacy-plaintext f (some (q, id)) e = inr (id, ground arith)

  unless_keyed-plaintext :
      (f : DirectDecrypt) (o : Option (Bytes × Option Bytes))
      → opened_direct cipher (unless_keyed cipher f o) ≡ plaintext p
      → (opened_direct cipher f ≡ plaintext p) ⊎ ((id : Option Bytes) × (o ≡ some (p, id)))
  unfolding unless_keyed
  unless_keyed-plaintext (decrypted q s id) o e = inl e
  unless_keyed-plaintext (unknown_key_id id) o e = or_legacy-plaintext (unknown_key_id id) o e
  unless_keyed-plaintext maybe_envelope o e = or_legacy-plaintext maybe_envelope o e
  unless_keyed-plaintext undecryptable o e = or_legacy-plaintext undecryptable o e

  unkeyed :
      (blob : Bytes) (r : Keyring) (b : Bool)
      → opened_direct cipher (
          or_legacy cipher
            (if b then maybe_envelope else undecryptable)
            (try_legacy cipher blob r.legacy))
        ≡ plaintext p
      → IsDirect blob r
  unfolding opened_direct
  unkeyed blob r b e =
      elim (or_legacy-plaintext (if b then maybe_envelope else undecryptable)
        (try_legacy cipher blob r.legacy) e) [
          | inl f ↦ absurd (fails b f)
          | inr (id, tried) ↦ inl (try_legacy-Any blob r.legacy id tried)
        ]
    where
      fails :
          (b : Bool)
          → opened_direct cipher (if b then maybe_envelope else undecryptable) ≡ plaintext p
          → ⊥
      fails true e = absurd (ground arith)
      fails false e = absurd (ground arith)

  keyed_parse-IsKeyed :
      (r : Keyring) (n : ℕ) (rest : Bytes)
      → opened_direct cipher (keyed_parse cipher r n rest) ≡ plaintext p
      → IsKeyed r n rest
  unfolding keyed_parse keyed_with keyed_body opened_direct
  keyed_parse-IsKeyed r n rest =
      if-cases (λ d. opened_direct cipher d ≡ plaintext p → IsKeyed r n rest)
        (leb 1 n && leb n 32 && leb 28 (length (drop n rest)) && is_key_id (take n rest)) _ _
        (λ ok. with_key (lookup (take n rest) r.by_id) refl) (λ bad e. absurd (fails e))
    where
      fails : opened_direct cipher undecryptable ≡ plaintext p → ⊥
      fails e = absurd (ground arith)

      same : {q : Bytes} → plaintext q ≡ plaintext p → some q ≡ some p
      same e = ground arith

      with_key :
          (o : Option Bytes)
          → lookup (take n rest) r.by_id ≡ o
          → opened_direct cipher (keyed_with cipher (take n rest) (drop n rest) o) ≡ plaintext p
          → IsKeyed r n rest
      with_key none there e = absurd (ground arith)
      with_key (some key) there e = elim (Option-cases (decrypt_body cipher (drop n rest) key)) [
        | inl refused ↦ absurd (
            fails (
              sym (
                ap (λ d. opened_direct cipher (keyed_body cipher (take n rest) (drop n rest) d))
                  refused)
              ∙ e))
        | inr (q, opened) ↦ record {
          key = key;
          listed = there;
          authentic =
              opened
              ∙ same (
                  sym (
                    ap (λ d. opened_direct cipher (keyed_body cipher (take n rest) (drop n rest) d))
                      opened)
                  ∙ e);
        }
      ]

  direct-IsDirect :
      (blob : Bytes) (r : Keyring)
      → opened_direct cipher (direct cipher blob r) ≡ plaintext p
      → IsDirect blob r
  unfolding direct
  direct-IsDirect [] r e = unkeyed [] r false e
  direct-IsDirect (a ∷ []) r e = unkeyed (a ∷ []) r (nat_beq a scheme_envelope) e
  direct-IsDirect (a ∷ b ∷ []) r e = unkeyed (a ∷ b ∷ []) r (nat_beq a scheme_envelope) e
  direct-IsDirect (a ∷ n ∷ c ∷ rest) r e =
      if-cases (λ d. opened_direct cipher d ≡ plaintext p → IsDirect (a ∷ n ∷ c ∷ rest) r)
        (nat_beq a scheme_keyed) _ _
        (λ keyed h. by_key keyed (
          unless_keyed-plaintext (keyed_parse cipher r n (c ∷ rest))
            (try_legacy cipher (a ∷ n ∷ c ∷ rest) r.legacy) h))
        (λ other. unkeyed (a ∷ n ∷ c ∷ rest) r (nat_beq a scheme_envelope)) e
    where
      by_key :
          nat_beq a scheme_keyed ≡ true
          → (opened_direct cipher (keyed_parse cipher r n (c ∷ rest)) ≡ plaintext p)
            ⊎ ((id : Option Bytes) × (try_legacy cipher (a ∷ n ∷ c ∷ rest) r.legacy ≡ some (p, id)))
          → IsDirect (a ∷ n ∷ c ∷ rest) r
      by_key keyed (inl parsed) = inr (
        n,
        c ∷ rest,
        ap (λ x. x ∷ n ∷ c ∷ rest) ((nat_beq_iff a scheme_keyed).0 keyed),
        keyed_parse-IsKeyed r n (c ∷ rest) parsed,
      )
      by_key keyed (inr (id, tried)) = inl (try_legacy-Any (a ∷ n ∷ c ∷ rest) r.legacy id tried)

  plaintext_or-plaintext :
      (e : Opened) (o : Option Bytes)
      → (e ≡ plaintext p → ⊥)
      → plaintext_or e o ≡ plaintext p
      → o ≡ some p
  unfolding plaintext_or
  plaintext_or-plaintext e none bad h = absurd (bad h)
  plaintext_or-plaintext e (some q) bad h = ground arith

  decrypt-IsDirect :
      (blob : Bytes) (keys : MasterKeys)
      → decrypt cipher blob keys ≡ plaintext p
      → IsDirect blob (to_keyring keys)
  unfolding decrypt try_decrypt_direct
  decrypt-IsDirect blob (ring r) e = direct-IsDirect blob r e
  decrypt-IsDirect blob (bare key) e =
      if-cases (λ d. d ≡ plaintext p → IsDirect blob (to_keyring (bare key)))
        (starts scheme_keyed blob) _ _ (λ keyed. direct-IsDirect blob (to_keyring (bare key)))
        (λ other h. inl (
          inl (
            plaintext_or-plaintext cipher_refused (decrypt_body cipher blob key)
              (λ x. absurd (ground arith)) h)))
        e

  unwrap_envelope_blob-IsEnveloped :
      (blob : Bytes) (e : Envelope)
      → unwrap_envelope_blob cipher blob e ≡ plaintext p
      → IsEnveloped blob e
  unfolding unwrap_envelope_blob unwrapped
  unwrap_envelope_blob-IsEnveloped [] e h = absurd (ground arith)
  unwrap_envelope_blob-IsEnveloped (a ∷ []) e h = absurd (ground arith)
  unwrap_envelope_blob-IsEnveloped (a ∷ b ∷ []) e h = absurd (ground arith)
  unwrap_envelope_blob-IsEnveloped (a ∷ b ∷ c ∷ rest) e h =
      if-cases (λ d. d ≡ plaintext p → IsEnveloped (a ∷ b ∷ c ∷ rest) e) _ _ _
        (λ short. unavailable)
        (λ long. with_data_key (e.unwrap_data_key (take (b * 256 + c) rest)) refl) h
    where
      unavailable : envelope_unavailable ≡ plaintext p → IsEnveloped (a ∷ b ∷ c ∷ rest) e
      unavailable x = absurd (ground arith)

      with_data_key :
          (o : Option Bytes)
          → e.unwrap_data_key (take (b * 256 + c) rest) ≡ o
          → unwrapped cipher (drop (b * 256 + c) rest) o ≡ plaintext p
          → IsEnveloped (a ∷ b ∷ c ∷ rest) e
      with_data_key none u x = absurd (ground arith)
      with_data_key (some dek) u x =
          if-cases (λ d. d ≡ plaintext p → IsEnveloped (a ∷ b ∷ c ∷ rest) e)
            (nat_beq (length dek) 32) _ _
            (λ right y. record {
              from_byte = suc (suc (suc (b * 256 + c)));
              wrapped = take (b * 256 + c) rest;
              data_key = dek;
              unwraps = u;
              authentic =
                  plaintext_or-plaintext cipher_refused
                    (decrypt_body cipher (drop (b * 256 + c) rest) dek) (λ z. absurd (ground arith))
                    y;
            })
            (λ wrong. unavailable) x

  probed-plaintext :
      (o : Opened) (d : DirectDecrypt)
      → probed cipher o d ≡ plaintext p
      → (o ≡ plaintext p) ⊎ (opened_direct cipher d ≡ plaintext p)
  unfolding probed opened_direct
  probed-plaintext o (decrypted q s id) x = inr x
  probed-plaintext o (unknown_key_id id) x = inl x
  probed-plaintext o maybe_envelope x = inl x
  probed-plaintext o undecryptable x = inl x

  after_envelope-plaintext :
      (d : DirectDecrypt) (o : Opened)
      → after_envelope cipher d o ≡ plaintext p
      → (o ≡ plaintext p) ⊎ (opened_direct cipher d ≡ plaintext p)
  unfolding after_envelope
  after_envelope-plaintext d (plaintext q) x = inl x
  after_envelope-plaintext d (key_missing id) x = probed-plaintext (key_missing id) d x
  after_envelope-plaintext d no_key x = probed-plaintext no_key d x
  after_envelope-plaintext d cipher_refused x = probed-plaintext cipher_refused d x
  after_envelope-plaintext d envelope_unavailable x = probed-plaintext envelope_unavailable d x
  after_envelope-plaintext d envelope_required x = probed-plaintext envelope_required d x
  after_envelope-plaintext d unwrap_failed x = probed-plaintext unwrap_failed d x

  -- A plaintext that opening gives was authenticated: by the configured key whose id the blob names, by
  -- a configured key that is tried for blobs without an id, or by a data key that the envelope
  -- unwrapped, where one is configured.
  pub open_sealed-authentic :
      (blob : Bytes) (keys : MasterKeys) (e : Option Envelope)
      → open_sealed cipher blob keys e ≡ plaintext p
      → IsDirect blob (to_keyring keys) ⊎ ((v : Envelope) × (e ≡ some v) × IsEnveloped blob v)
  unfolding open_sealed try_decrypt_direct
  open_sealed-authentic blob keys none h = inl (decrypt-IsDirect blob keys h)
  open_sealed-authentic blob keys (some v) h =
      if-cases
        (λ d.
          d ≡ plaintext p
          → IsDirect blob (to_keyring keys)
            ⊎ ((w : Envelope) × (some v ≡ some w) × IsEnveloped blob w))
        (starts scheme_envelope blob) _ _
        (λ enveloped x. after (
          after_envelope-plaintext (direct cipher blob (to_keyring keys))
            (unwrap_envelope_blob cipher blob v) x))
        (λ other x. inl (decrypt-IsDirect blob keys x)) h
    where
      after :
          (unwrap_envelope_blob cipher blob v ≡ plaintext p)
            ⊎ (opened_direct cipher (direct cipher blob (to_keyring keys)) ≡ plaintext p)
          → IsDirect blob (to_keyring keys)
            ⊎ ((w : Envelope) × (some v ≡ some w) × IsEnveloped blob w)
      after (inl e) = inr (v, refl, unwrap_envelope_blob-IsEnveloped blob v e)
      after (inr e) = inl (direct-IsDirect blob (to_keyring keys) e)
