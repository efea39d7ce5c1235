-- ===== src/ProviderId.antt =====
-- isValidProviderId of src/core/providers.ts: the ids by which tables and keys name a provider.
use vouchr.Base.{ℕ, String, Bool, false, ◌&&◌, ◌||◌, List, [], ◌∷◌, leb, nat_beq}
use vouchr.Base.Lists.{all, length}
use vouchr.Base.Text.{code_points}

abbrev pub is_alphanumeric : ℕ → Bool
is_alphanumeric c = (leb 48 c && leb c 57) || (leb 65 c && leb c 90) || (leb 97 c && leb c 122)

-- [A-Za-z0-9._-]
abbrev pub is_id_char : ℕ → Bool
is_id_char c = is_alphanumeric c || nat_beq c 46 || nat_beq c 95 || nat_beq c 45

valid_id_codes : List ℕ → Bool
valid_id_codes [] = false
valid_id_codes (c ∷ cs) = is_alphanumeric c && all is_id_char cs && leb (length cs) 62

-- PROVIDER_ID_RE
unfoldable pub is_valid_provider_id : String → Bool
unfolding valid_id_codes
is_valid_provider_id id = valid_id_codes (code_points id)
