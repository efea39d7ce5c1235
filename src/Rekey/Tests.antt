-- ===== src/Rekey/Tests.antt =====
-- A run of the re-encryption, and its theorem at a concrete input.
use vouchr.Base.{◌≡◌, refl, false, [], ◌∷◌, ◌++◌, none, some, arith}
use vouchr.Crypto.Tests.{
  repeat_byte, test_cipher, test_cipher-CipherLaws, test_decode, env, test_ring, loads,
}
use vouchr.Rekey.{RekeyRow, RekeyReport, rekey_row}
use vouchr.Rekey.Reads.{Kept, rekey_row-Kept}

abbrev zeros : RekeyReport
zeros = record {
  scanned = 0;
  reencrypted = 0;
  already_primary = 0;
  envelope = 0;
  unreadable = 0;
  skipped_concurrent = 0;
}

-- A blob without a header, of the listed key.
abbrev old_row : RekeyRow
old_row = record { left = some (repeat_byte 9 12 ++ (repeat_byte 7 16 ++ (65 ∷ []))); right = none }

rekey_row-Kept_example :
    (z : RekeyReport × RekeyRow) × (rekey_row test_cipher test_ring false
        (repeat_byte 9 12)
        (repeat_byte 8 12)
        old_row
        old_row
        zeros
      ≡ some z)
    × Kept test_cipher test_cipher-CipherLaws test_decode env test_ring loads old_row z.1
rekey_row-Kept_example =
    rekey_row-Kept test_cipher test_cipher-CipherLaws test_decode env test_ring loads false
      (repeat_byte 9 12) (repeat_byte 8 12) old_row old_row zeros (refl, λ e. absurd (ground arith))
      (refl, λ e. absurd (ground arith))
