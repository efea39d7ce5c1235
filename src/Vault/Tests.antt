-- ===== src/Vault/Tests.antt =====
-- Runs of the vault, and its theorems at concrete inputs.
use vouchr.Base.{
  ℕ, ◌<◌, ◌≡◌, refl, sym, ap, ◌↔◌, if◌then◌else◌, inl, String, true, false, List, [], ◌∷◌, none,
  some, arith, some_inj, nat_beq, ◌++◌, ◌∙◌,
}
use vouchr.Base.Eq.{◌==◌, string_eq}
use vouchr.Base.Table.{select, delete, update}
use vouchr.Base.Assoc.{lookup, insert}
use vouchr.Owner.{Owner, user}
use vouchr.ProviderId.{is_valid_provider_id}
use vouchr.Fence.{
  ProvisioningScopeKind, in_all, in_team, of_user, of_team_user, of_channel, of_team_channel,
  set_mark, latest_of, user_marks, team_mark, mark_provisioning_revoked, exact_provisioning_scope,
  latest_user_offboard_tombstone, latest_provisioning_revocation_tombstone,
  owner_provisioning_scopes,
}
use vouchr.Fence.Kept.{offboards, run}
use vouchr.Vault.{
  Row, Tables, TtlPolicy, Sealing, is_owned, get, served, absent, serve, fetch_row, is_expired,
  is_expired_row, decode, clear_satellites,
}
use vouchr.Vault.Write.{
  PreparedToken, StoredToken, sealed_token, vault_row, put_row, put_connection,
  write_vault_credential, Provisioned, stored, offboarded, revoked, finish_write, fenced_write,
  issued_write, kind_write, user_provisioning,
}
use vouchr.Vault.Write.Fenced.{IsUnwritten, user_provisioning-IsUnwritten}
use vouchr.Vault.Write.Served.{IsEachToken, credential_of, write_vault_credential-get}
use vouchr.Vault.Sealed.{Utf8, IsCarried, IsFresh, keyring_sealing}
use vouchr.Crypto.{ring, seal, encrypt, encrypt_named, is_key_id}
use vouchr.Crypto.Tests.{
  test_cipher, test_cipher-CipherLaws, test_decode, env, test_ring, loads, repeat_byte, head_or,
}
use vouchr.Vault.Provision.{Call, issued, upsert, upsert_for, upsert_user, with_prepared}
use vouchr.Vault.Remove.{
  Removal, claim_delete, claim_row, delete_where, mark_removal, fenced_by, claim_delete_fenced,
  remove, removed_row,
}
use vouchr.Vault.Expiry.{ceiling_of, is_expired_iff}

-- Stand-ins for the hash of a scope and for sealing.
abbrev scope_name : ProvisioningScopeKind → List String → String
scope_name in_all parts = "all"
scope_name in_team parts = "team"
scope_name of_user parts = "user"
scope_name of_team_user parts = "team_user"
scope_name of_channel parts = "channel"
scope_name of_team_channel parts = "team_channel"

abbrev token_box : Sealing
token_box = record {
  seal = λ random token. if token == "token" then some (1 ∷ []) else none;
  unseal = λ sealed. some "token";
}

abbrev bare : Tables
bare = record {
  connections = [];
  marks = [];
  consents = [];
  notifications = [];
  approvals = [];
  user_requests = [];
  channel_requests = [];
  channel_marks = [];
}

abbrev ada : Owner
ada = record { team_id = "T1"; kind = user; id = "U1"; enterprise_id = none }

abbrev ttl : TtlPolicy
ttl = record { idle_ms = some 1000; max_age_ms = none }

abbrev github_token : StoredToken
github_token = record {
  access_token = "token";
  refresh_token = none;
  scopes = "repo";
  expires_at = none;
  external_account = none;
}

abbrev call_at : ℕ → Call
call_at at = record {
  random = [];
  random' = [];
  now = at;
  stamp = record { id = "id"; now_us = at };
  issued_at = at;
}

abbrev upserted : Provisioned × Tables
upserted = upsert scope_name ttl false token_box (call_at 300) ada "github" github_token none bare

upserts : Unit {0}
unfolding upsert upsert_for upsert_user with_prepared sealed_token user_provisioning kind_write
    issued_write fenced_write finish_write write_vault_credential put_connection put_row vault_row
    clear_satellites latest_user_offboard_tombstone latest_provisioning_revocation_tombstone
    user_marks owner_provisioning_scopes latest_of is_valid_provider_id set_mark lookup select
    update delete is_owned get serve fetch_row is_expired decode claim_delete_fenced claim_delete
    claim_row delete_where mark_removal fenced_by remove removed_row mark_provisioning_revoked
    exact_provisioning_scope insert
upserts = tt

stores : upserted.0 ≡ stored
unfolding upserts
stores = refl

serves : (c : _) × (get ttl false token_box ada "github" none 400 upserted.1.connections ≡ served c)
unfolding upserts
serves = (_, refl)

ages : get ttl false token_box ada "github" none 2000 upserted.1.connections ≡ absent
unfolding upserts
ages = refl

-- A removal leaves nothing, and the mark that it writes refuses a credential from before it.
abbrev removal : Removal
removal = record {
  cleanup_ok = true;
  meanwhile = λ s. s;
  fence_ok = true;
  now_us = 500;
  fence_us = 500;
}

removes :
    ((remove scope_name false removal ada "github" upserted.1).0 ≡ some true)
    × ((remove scope_name false removal ada "github" upserted.1).1.connections ≡ [])
    × ((upsert scope_name ttl false token_box
          (call_at 600)
          ada
          "github"
          github_token
          (some 450)
          (remove scope_name false removal ada "github" upserted.1).1).0
        ≡ revoked)
unfolding upserts
removes = (refl, refl, refl)

-- An offboarding at 350 refuses what was issued at 300.
refuses :
    (upsert scope_name ttl false token_box
      (call_at 400)
      ada
      "github"
      github_token
      (some 300)
      (record bare { marks = (team_mark "T1" "U1", 350) ∷ [] })).0
    ≡ offboarded
unfolding upserts
refuses = refl

abbrev marked : Tables
marked = record bare {
  marks =
      run scope_name
        (offboards (record { enterprise_id = none; team_id = "T1"; user_id = "U2" }) 360 ∷ [])
        (set_mark (team_mark "T1" "U1") 350 []);
}

ada_marks :
    (ks : _) × (user_marks (record { enterprise_id = none; team_id = "T1"; user_id = "U1" })
      ≡ some (team_mark "T1" "U1" ∷ ks))
unfolding user_marks
ada_marks = (_, refl)

user_provisioning-IsUnwritten_example : IsUnwritten marked (
    user_provisioning scope_name ttl 400 400 ada "github" false
      (λ s. some (true, s))
      (issued 300)
      marked)
user_provisioning-IsUnwritten_example =
    user_provisioning-IsUnwritten scope_name ttl (team_mark "T1" "U1") 350 []
      (offboards (record { enterprise_id = none; team_id = "T1"; user_id = "U2" }) 360 ∷ []) ada
      "github" 300 400 400 false (λ s. some (true, s)) (issued 300) marked
      (inl (_, ada_marks.1, inl refl)) refl refl (omega arith)

abbrev ada_row : Row
ada_row = record {
  id = "id";
  enterprise_id = none;
  team_id = "T1";
  owner_kind = user;
  owner_id = "U1";
  provider = "github";
  source = "vault";
  access_token_enc = some (1 ∷ []);
  refresh_token_enc = none;
  secret_ref = none;
  scopes = "repo";
  expires_at = none;
  external_account = none;
  dry_run = 0;
  generation_at = 300;
  created_at = 300;
  updated_at = 300;
  last_used_at = some 300;
}

is_expired_iff_example :
    (is_expired_row ttl 2000 ada_row ≡ true)
    ↔ ((at : ℕ) × (ceiling_of ttl ada_row ≡ some at) × (at < 2000))
is_expired_iff_example = is_expired_iff ttl ada_row 2000

-- A stand-in for UTF-8, right for two texts.
abbrev two_texts : Utf8
two_texts = record {
  to_bytes = λ text. if text == "token" then 65 ∷ [] else 66 ∷ [];
  of_bytes = λ bytes. if nat_beq (head_or bytes) 65 then "token" else "refresh";
}

abbrev keyed_box : Sealing
keyed_box = keyring_sealing test_cipher two_texts (ring test_ring) none

abbrev refreshable : StoredToken
refreshable = record {
  access_token = "token";
  refresh_token = some "refresh";
  scopes = "repo";
  expires_at = none;
  external_account = none;
}

abbrev keyed : List ℕ → List ℕ
keyed body = 2 ∷ 2 ∷ 107 ∷ 49 ∷ (repeat_byte 9 12 ++ (repeat_byte 7 16 ++ body))

abbrev keyed_token : PreparedToken
keyed_token = record {
  access_enc = keyed (65 ∷ []);
  refresh_enc = some (keyed (66 ∷ []));
  now = 300;
}

seals :
    sealed_token false keyed_box (repeat_byte 9 44) (repeat_byte 9 44) 300 refreshable
    ≡ some keyed_token
unfolding sealed_token keyring_sealing seal encrypt encrypt_named is_key_id
seals = refl

carries : IsEachToken (IsCarried two_texts) refreshable
carries = (
  refl,
  λ x e.
      ap (λ (y : String). two_texts.of_bytes (two_texts.to_bytes y)) (some_inj (sym e))
      ∙ some_inj e,
)

fresh : IsFresh test_ring (repeat_byte 9 44)
fresh = (refl, λ e. absurd (ground arith))

write_vault_credential-get_example :
    (w : Tables) × (write_vault_credential false ada "github" refreshable keyed_token
        (record { id = "id"; now_us = 300 })
        bare
      ≡ some w)
    × (get ttl false keyed_box ada "github" none 400 w.connections
        ≡ served (credential_of refreshable))
unfolding is_expired vault_row
write_vault_credential-get_example =
    write_vault_credential-get test_cipher test_cipher-CipherLaws two_texts test_decode env
      test_ring loads none ttl ada "github" refreshable (repeat_byte 9 44) (repeat_byte 9 44) 300
      400 keyed_token (record { id = "id"; now_us = 300 }) bare tt fresh fresh carries seals refl
