-- ===== src/Rekey.antt =====
-- src/core/rekey.ts: the pass that re-encrypts the stored secrets under the primary key. Each table has
-- two encrypted columns; a row is what they hold. Between the read of a row and its update others may
-- write, so an update has the row as it was read and as it is then. The batches, the progress and the
-- labels of the report are left out.
pub mod Reads
pub mod Tests
use vouchr.Base.{
  ℕ, ◌+◌, Bool, true, false, ◌&&◌, List, [], ◌∷◌, Option, none, some, not, if◌then◌else◌, ◌>>=◌,
}
use vouchr.Base.Eq.{◌==◌, nat_eq, option_eq}
use vouchr.Base.Bytes.{list_eq}
use vouchr.Crypto.{
  Bytes, Cipher, Keyring, MasterKeys, ring, Scheme, legacy_scheme, keyed_scheme, DirectDecrypt,
  decrypted, unknown_key_id, maybe_envelope, undecryptable, encrypt, try_decrypt_direct,
}

pub record RekeyRow : Type 0 where
  pub left : Option Bytes
  pub right : Option Bytes

pub record RekeyReport : Type 0 where
  pub scanned : ℕ
  pub reencrypted : ℕ
  pub already_primary : ℕ
  pub envelope : ℕ
  pub unreadable : ℕ
  pub skipped_concurrent : ℕ

-- What is done with one column.
pub data Update : Type 0 where
  absent in_envelope unread primary : Update
  rewrites : Bytes → Update

abbrev pub is_primary : Option Bytes → Scheme → Option Bytes → Bool
is_primary none legacy_scheme none = true
is_primary (some own) keyed_scheme (some id) = id == own
is_primary _ _ _ = false

abbrev pub rewritten : Option Bytes → Option Update
rewritten none = none
rewritten (some b) = some (rewrites b)

abbrev pub is_rewrite : Update → Bool
is_rewrite (rewrites b) = true
is_rewrite _ = false

abbrev pub holds : Update → Option Bytes → Option Bytes → Bool
holds (rewrites b) read held = held == read
holds _ read held = true

abbrev pub column_after : Update → Option Bytes → Option Bytes
column_after (rewrites b) held = some b
column_after _ held = held

abbrev pub tally : Update → RekeyReport → RekeyReport
tally absent t = t
tally in_envelope t = record t { scanned = t.scanned + 1; envelope = t.envelope + 1 }
tally unread t = record t { scanned = t.scanned + 1; unreadable = t.unreadable + 1 }
tally primary t = record t { scanned = t.scanned + 1; already_primary = t.already_primary + 1 }
tally (rewrites b) t = record t { scanned = t.scanned + 1 }

abbrev pub rewrites_of : Update → Update → ℕ
rewrites_of a b = (if is_rewrite a then 1 else 0) + (if is_rewrite b then 1 else 0)

module _ (cipher : Cipher) (r : Keyring) where
  pub update_for : Bytes → DirectDecrypt → Option Update
  update_for iv (decrypted p s id) =
      if is_primary r.primary.id s id
      then some primary
      else rewritten (encrypt cipher iv p (ring r))
  update_for iv maybe_envelope = some in_envelope
  update_for iv (unknown_key_id id) = some unread
  update_for iv undecryptable = some unread

  -- With the iv of a new encryption; none where it throws.
  pub update_of : Bytes → Option Bytes → Option Update
  unfolding update_for
  update_of iv none = some absent
  update_of iv (some b) = update_for iv (try_decrypt_direct cipher b (ring r))

  -- The guarded UPDATE of the columns that are rewritten: whether it changed the row, and the row.
  pub guarded : Bool → Update → Update → RekeyRow → RekeyRow → Bool × RekeyRow
  guarded dry_run a b read held =
      if not dry_run && holds a read.left held.left && holds b read.right held.right
      then (true, record { left = column_after a held.left; right = column_after b held.right })
      else (false, held)

  abbrev pub counted : Bool → ℕ → Bool → RekeyReport → RekeyReport
  counted dry_run n changed t =
      if dry_run
      then record t { reencrypted = t.reencrypted + n }
      else if changed
      then record t { reencrypted = t.reencrypted + n }
      else record t { skipped_concurrent = t.skipped_concurrent + n }

  updated_row :
      Bool
      → RekeyRow
      → RekeyRow
      → RekeyReport
      → Option Update
      → Option Update
      → Option (RekeyReport × RekeyRow)
  unfolding guarded
  updated_row dry_run read held t (some a) (some b) =
      let done = guarded dry_run a b read held in
      some (counted dry_run (rewrites_of a b) done.0 (tally b (tally a t)), done.1)
  updated_row dry_run read held t _ _ = none

  -- One row: as read, and as held when it is updated.
  unfoldable pub rekey_row :
      Bool → Bytes → Bytes → RekeyRow → RekeyRow → RekeyReport → Option (RekeyReport × RekeyRow)
  unfolding update_of updated_row
  rekey_row dry_run iv iv' read held t =
      updated_row dry_run read held t (update_of iv read.left) (update_of iv' read.right)
