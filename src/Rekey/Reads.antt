-- ===== src/Rekey/Reads.antt =====
-- A re-encryption keeps what the columns hold.
use vouchr.Base.{
  ◌≡◌, refl, sym, ap, ◌∙◌, Bool, true, false, ◌&&◌, Option, none, some, arith, not, if-cases,
  some_inj,
}
use vouchr.Base.Eq.{nat_eq, option_eq, option_equals_iff}
use vouchr.Base.Lists.{length}
use vouchr.Base.Bytes.{list_eq}
use vouchr.Crypto.{
  Bytes, Cipher, CipherLaws, Keyring, ring, starts, scheme_envelope, scheme_keyed, plaintext,
  DirectDecrypt, decrypted, unknown_key_id, maybe_envelope, undecryptable, encrypt, open_sealed,
  decrypt, try_decrypt_direct, opened_direct,
}
use vouchr.Crypto.Load.{Env, load_keyring}
use vouchr.Crypto.Opens.{encrypt-open_sealed}
use vouchr.Rekey.{
  RekeyRow, RekeyReport, Update, absent, in_envelope, unread, primary, rewrites, is_primary, holds,
  column_after, rewritten, update_for, update_of, guarded, updated_row, rekey_row,
}

module _ (cipher : Cipher) (laws : CipherLaws cipher) (decode64 : Bytes → Bytes) (env : Env)
    (r : Keyring) (loaded : load_keyring decode64 env ≡ some r) where
  -- The column opens to the plaintext.
  abbrev pub Reads : Bytes → Option Bytes → Type 0
  Reads p column =
      (b : Bytes) × (column ≡ some b) × (open_sealed cipher b (ring r) none ≡ plaintext p)

  -- An iv of twelve bytes, which does not start as another scheme where the primary key has no id.
  abbrev pub IsIv : Bytes → Type 0
  IsIv iv =
      (length iv ≡ 12)
      × (r.primary.id ≡ none
          → (starts scheme_envelope iv ≡ false) × (starts scheme_keyed iv ≡ false))

  update_for-Reads :
      (iv p : Bytes) (d : DirectDecrypt) (b : Bytes)
      → IsIv iv
      → opened_direct cipher d ≡ plaintext p
      → update_for cipher r iv d ≡ some (rewrites b)
      → Reads p (some b)
  unfolding update_for opened_direct
  update_for-Reads iv p (decrypted q s id) b ok opens e =
      if-cases (λ u. u ≡ some (rewrites b) → Reads p (some b)) (is_primary r.primary.id s id) _ _
        (λ own x. absurd (ground arith))
        (λ other x.
          new (encrypt-open_sealed cipher laws decode64 env r iv q none loaded ok.0 ok.1) x)
        e
    where
      same : {u v : Bytes} → ◌≡◌ {A = Option Update} (some (rewrites u)) (some (rewrites v)) → v ≡ u
      same y = ground arith

      new :
          ((c : Bytes) × (encrypt cipher iv q (ring r) ≡ some c)
            × (open_sealed cipher c (ring r) none ≡ plaintext q))
          → rewritten (encrypt cipher iv q (ring r)) ≡ some (rewrites b)
          → Reads p (some b)
      new (own, sealed, readable) x =
          (own, ap some (same (sym (ap rewritten sealed) ∙ x)), readable ∙ opens)
  update_for-Reads iv p (unknown_key_id id) b ok opens e = absurd (ground arith)
  update_for-Reads iv p maybe_envelope b ok opens e = absurd (ground arith)
  update_for-Reads iv p undecryptable b ok opens e = absurd (ground arith)

  update_of-Reads :
      (iv p : Bytes) (column : Option Bytes) (b : Bytes)
      → IsIv iv
      → Reads p column
      → update_of cipher r iv column ≡ some (rewrites b)
      → Reads p (some b)
  unfolding update_of open_sealed decrypt
  update_of-Reads iv p none b ok (c, e, opens) x = absurd (ground arith)
  update_of-Reads iv p (some a) b ok (c, e, opens) x =
      update_for-Reads iv p (try_decrypt_direct cipher a (ring r)) b ok
        (ap (λ z. opened_direct cipher (try_decrypt_direct cipher z (ring r))) (some_inj e) ∙ opens)
        x

  -- What a column held, it holds after an update that found it as it was read.
  column_after-Reads :
      (iv p : Bytes) (u : Update) (read held : Option Bytes)
      → IsIv iv
      → update_of cipher r iv read ≡ some u
      → holds u read held ≡ true
      → Reads p held
      → Reads p (column_after u held)
  column_after-Reads iv p (rewrites b) read held ok e h reads =
      update_of-Reads iv p read b ok (rw (sym ((option_equals_iff list_eq held read).0 h)) reads) e
  column_after-Reads iv p absent read held ok e h reads = reads
  column_after-Reads iv p in_envelope read held ok e h reads = reads
  column_after-Reads iv p unread read held ok e h reads = reads
  column_after-Reads iv p primary read held ok e h reads = reads

  abbrev pub Kept : RekeyRow → RekeyRow → Type 0
  Kept held new =
      (p : Bytes)
      → (Reads p held.left → Reads p new.left) × (Reads p held.right → Reads p new.right)

  update_for-total :
      (iv : Bytes) (d : DirectDecrypt)
      → IsIv iv
      → (u : Update) × (update_for cipher r iv d ≡ some u)
  unfolding update_for
  update_for-total iv (decrypted q s id) ok =
      if-cases (λ x. (u : Update) × (x ≡ some u)) (is_primary r.primary.id s id) _ _
        (λ own. (primary, refl))
        (λ other.
          let new = encrypt-open_sealed cipher laws decode64 env r iv q none loaded ok.0 ok.1 in
          (rewrites new.0, ap rewritten new.1))
  update_for-total iv (unknown_key_id id) ok = (unread, refl)
  update_for-total iv maybe_envelope ok = (in_envelope, refl)
  update_for-total iv undecryptable ok = (unread, refl)

  update_of-total :
      (iv : Bytes) (column : Option Bytes)
      → IsIv iv
      → (u : Update) × (update_of cipher r iv column ≡ some u)
  unfolding update_of
  update_of-total iv none ok = (absent, refl)
  update_of-total iv (some b) ok = update_for-total iv (try_decrypt_direct cipher b (ring r)) ok

  guarded-Kept :
      (dry_run : Bool) (iv iv' : Bytes) (read held : RekeyRow) (a b : Update)
      → IsIv iv
      → IsIv iv'
      → update_of cipher r iv read.left ≡ some a
      → update_of cipher r iv' read.right ≡ some b
      → Kept held (guarded cipher r dry_run a b read held).1
  unfolding guarded
  guarded-Kept dry_run iv iv' read held a b ok ok' ea eb p =
      if-cases
        (λ (x : Bool × RekeyRow).
          (Reads p held.left → Reads p x.1.left) × (Reads p held.right → Reads p x.1.right))
        (not dry_run && holds a read.left held.left && holds b read.right held.right) _ _
        (λ free. (
          column_after-Reads iv p a read.left held.left ok ea (ground (arith, free)),
          column_after-Reads iv' p b read.right held.right ok' eb (ground (arith, free)),
        ))
        (λ taken. ((λ x. x), (λ x. x)))

  -- Where the cipher opens what it sealed: re-encrypting a row, with the keys of an environment that
  -- loads and two ivs of twelve bytes, which do not start as another scheme where the primary key has
  -- no id, does not fail, and it loses no secret: whatever others wrote between the row's read and its update, each column
  -- opens afterwards to what it opened to just before the update.
  pub rekey_row-Kept :
      (dry_run : Bool) (iv iv' : Bytes) (read held : RekeyRow) (t : RekeyReport)
      → IsIv iv
      → IsIv iv'
      → (z : RekeyReport × RekeyRow) × (rekey_row cipher r dry_run iv iv' read held t ≡ some z)
        × Kept held z.1
  unfolding rekey_row updated_row
  rekey_row-Kept dry_run iv iv' read held t ok ok' =
      let a = update_of-total iv read.left ok in
      let b = update_of-total iv' read.right ok' in
      (
        _,
        ap (λ x. updated_row cipher r dry_run read held t x (update_of cipher r iv' read.right)) a.1
            ∙ ap (updated_row cipher r dry_run read held t (some a.0)) b.1,
        guarded-Kept dry_run iv iv' read held a.0 b.0 ok ok' a.1 b.1,
      )
