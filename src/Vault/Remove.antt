-- ===== src/Vault/Remove.antt =====
-- How a credential is removed: claimDelete, claimDeleteFenced, claimPreparedDisconnect,
-- prepareUserDisconnect, deleteForRevoke, claimGenerationForRevoke and delete. A cleanup that fails rolls
-- its transaction back, and the exact row is deleted again without it. That a deletion's own statement
-- fails is left out.
use vouchr.Base.{
  ℕ, String, Bool, true, false, ◌&&◌, ◌||◌, List, [], ◌∷◌, Option, none, some, is_some, leb,
  nat_beq, not, if◌then◌else◌,
}
use vouchr.Base.Eq.{◌==◌, string_eq, option_eq}
use vouchr.Base.Table.{select, delete}
use vouchr.Owner.{SlackIdentity, Owner, OwnerKind, user, channel, user_owner}
use vouchr.Fence.{
  Marks, ProvisioningScopeKind, ProvisioningRevocationFilter, mark_provisioning_revoked,
  user_interaction_is_current,
}
use vouchr.Interaction.{is_interaction_id}
use vouchr.Vault.{Row, Tables, Sealing, is_owned, is_generation, well_formed, clear_satellites}

abbrev pub same_bytes : List ℕ → List ℕ → Bool
same_bytes [] [] = true
same_bytes (a ∷ s) (b ∷ t) = nat_beq a b && same_bytes s t
same_bytes _ _ = false

abbrev pub same_sealed : Option (List ℕ) → Option (List ℕ) → Bool
same_sealed none none = true
same_sealed (some a) (some b) = same_bytes a b
same_sealed _ _ = false

-- The row that was claimed before, with what it held.
abbrev pub is_same_row : Owner → String → Row → Row → Bool
is_same_row o provider old r =
    is_owned o provider r
    && r.id == old.id
    && same_sealed r.access_token_enc old.access_token_enc
    && same_sealed r.refresh_token_enc old.refresh_token_enc
    && r.secret_ref == old.secret_ref

abbrev pub is_asked : Owner → String → Option String → Row → Bool
is_asked o provider expected r = is_owned o provider r && is_generation expected r

pub data Claimed : Type 0 where
  claimed : Option Row → Claimed
  invalid_generation unconfirmed : Claimed

-- What happens around a removal: whether the cleanup succeeds, what others do before it is tried again,
-- whether the mark can be written, and the database's times.
pub record Removal : Type 0 where
  pub cleanup_ok : Bool
  pub meanwhile : Tables → Tables
  pub fence_ok : Bool
  pub now_us : ℕ
  pub fence_us : ℕ

unfoldable pub delete_where : (Row → Bool) → Tables → Tables
delete_where p s = record s { connections = delete p s.connections }

retried : Owner → String → Row → Tables → Option Row → Claimed × Tables
unfolding delete_where
retried o provider old s none = (unconfirmed, s)
retried o provider old s (some r) = (claimed (some r), delete_where (is_same_row o provider old) s)

unfoldable pub claim_row :
    Removal → Owner → String → Option String → Tables → Option Row → Claimed × Tables
unfolding retried delete_where
claim_row m o provider expected s none = (claimed none, s)
claim_row m o provider expected s (some r) =
    if m.cleanup_ok
    then (
      claimed (some r),
      clear_satellites o provider m.now_us (delete_where (is_asked o provider expected) s),
    )
    else retried o provider r (m.meanwhile s)
        (select (is_same_row o provider r) (m.meanwhile s).connections)

unfoldable pub claim_delete : Removal → Owner → String → Option String → Tables → Claimed × Tables
unfolding claim_row
claim_delete m o provider expected s =
    if well_formed expected
    then claim_row m o provider expected s (select (is_asked o provider expected) s.connections)
    else (invalid_generation, s)

-- In one transaction with savepoints nobody comes between.
unfoldable pub claim_prepared_disconnect :
    Removal → Owner → String → String → Tables → Claimed × Tables
unfolding claim_row
claim_prepared_disconnect m o provider id s =
    if is_interaction_id id
    then claim_row (record m { meanwhile = λ t. t }) o provider (some id) s
        (select (is_asked o provider (some id)) s.connections)
    else (invalid_generation, s)

abbrev pub filter_of : OwnerKind → Owner → String → ProvisioningRevocationFilter
filter_of user o provider = record {
  provider = provider;
  team_id = some o.team_id;
  user_id = some o.id;
  channel = none;
}
filter_of channel o provider = record {
  provider = provider;
  team_id = some o.team_id;
  user_id = none;
  channel = some o.id;
}

-- What revoking upstream is given of the row that was removed.
pub record RevokedTokens : Type 0 where
  pub removed : Bool
  pub access_token : Option String
  pub refresh_token : Option String
  pub access_unreadable : Bool
  pub refresh_unreadable : Bool
  pub dry_run : Bool

abbrev pub token_of : Sealing → Option (List ℕ) → Option String
token_of box none = none
token_of box (some sealed) = box.unseal sealed

abbrev pub is_unreadable : Sealing → Option (List ℕ) → Bool
is_unreadable box none = false
is_unreadable box (some sealed) = not (is_some (box.unseal sealed))

unfoldable pub decode_claimed_for_revoke : Sealing → Bool → Option Row → RevokedTokens
decode_claimed_for_revoke box decrypt none = record {
  removed = false;
  access_token = none;
  refresh_token = none;
  access_unreadable = false;
  refresh_unreadable = false;
  dry_run = false;
}
decode_claimed_for_revoke box decrypt (some r) =
    if not decrypt || nat_beq r.dry_run 1
    then record {
      removed = true;
      access_token = none;
      refresh_token = none;
      access_unreadable = false;
      refresh_unreadable = false;
      dry_run = nat_beq r.dry_run 1;
    }
    else record {
      removed = true;
      access_token = token_of box r.access_token_enc;
      refresh_token = token_of box r.refresh_token_enc;
      access_unreadable = is_unreadable box r.access_token_enc;
      refresh_unreadable = is_unreadable box r.refresh_token_enc;
      dry_run = nat_beq r.dry_run 1;
    }

pub data Prepared : Type 0 where
  current : Option String → Bool → Prepared
  prepare_offboarded prepare_stale prepare_failed : Prepared

abbrev pub id_of_row : Option Row → Option String
id_of_row none = none
id_of_row (some r) = some r.id

abbrev pub issued_before : ℕ → Option Row → Bool
issued_before issued_at none = true
issued_before issued_at (some r) = not (leb issued_at r.generation_at)

-- The generation that was asked for is the one there, or the one there is older than the request.
abbrev pub is_wanted : Option String → ℕ → Option Row → Bool
is_wanted (some id) issued_at o = id_of_row o == some id
is_wanted none issued_at o = issued_before issued_at o

abbrev with_mark : Bool → Claimed × Tables → Bool × Claimed × Tables
with_mark b r = (b, r.0, r.1)

revoked_from : Sealing → Bool → Claimed × Tables → Option RevokedTokens × Tables
revoked_from box decrypt (claimed r, t) = (some (decode_claimed_for_revoke box decrypt r), t)
revoked_from box decrypt (invalid_generation, t) = (none, t)
revoked_from box decrypt (unconfirmed, t) = (none, t)

-- none where it throws
unfoldable pub claim_generation_for_revoke :
    Sealing → Bool → Removal → Owner → String → String → Tables → Option RevokedTokens × Tables
unfolding revoked_from
claim_generation_for_revoke box decrypt m o provider id s =
    revoked_from box decrypt (claim_prepared_disconnect m o provider id s)

module _ (scope_key : ProvisioningScopeKind → List String → String) where
  -- The mark before a removal: whether it stands, and the tables after it.
  unfoldable pub fenced_by : Bool → Tables → Option Marks → Bool × Tables
  fenced_by true s (some marks) = (true, record s { marks = marks })
  fenced_by _ s _ = (false, s)

  unfoldable pub mark_removal : Removal → Owner → String → Tables → Bool × Tables
  unfolding fenced_by
  mark_removal m o provider s =
      fenced_by m.fence_ok s
        (mark_provisioning_revoked scope_key (filter_of o.kind o provider) m.fence_us s.marks)

  -- claimDeleteFenced: the mark is not written where the caller holds the lock
  unfoldable pub claim_delete_fenced :
      Bool → Removal → Owner → String → Option String → Tables → Bool × Claimed × Tables
  unfolding mark_removal
  claim_delete_fenced lock_held m o provider expected s =
      if lock_held
      then with_mark true (claim_delete m o provider expected s)
      else let marked = mark_removal m o provider s in
        with_mark marked.0 (claim_delete m o provider expected marked.1)

  prepare_current :
      Removal → SlackIdentity → String → ℕ → Option String → Tables → Option Row → Prepared × Tables
  unfolding mark_removal
  prepare_current m i provider issued_at expected s o =
      if is_wanted expected issued_at o
      then (let marked = mark_removal m (user_owner i) provider s in
          (current (id_of_row o) marked.0, marked.1))
      else (prepare_stale, s)

  prepare_fenced :
      Removal
      → SlackIdentity
      → String
      → ℕ
      → Option String
      → Tables
      → Option Bool
      → Prepared × Tables
  unfolding prepare_current
  prepare_fenced m i provider issued_at expected s none = (prepare_failed, s)
  prepare_fenced m i provider issued_at expected s (some false) = (prepare_offboarded, s)
  prepare_fenced m i provider issued_at expected s (some true) =
      prepare_current m i provider issued_at expected s
        (select (is_owned (user_owner i) provider) s.connections)

  unfoldable pub prepare_user_disconnect :
      Removal → SlackIdentity → String → ℕ → Option String → Tables → Prepared × Tables
  unfolding prepare_fenced
  prepare_user_disconnect m i provider issued_at expected s =
      if well_formed expected
      then prepare_fenced m i provider issued_at expected s
          (user_interaction_is_current i issued_at s.marks)
      else (prepare_stale, s)

  -- delete: whether a row was there; none where it throws, the claim's row deleted all the same
  unfoldable pub removed_row : Bool → Claimed → Option Bool
  removed_row true (claimed r) = some (is_some r)
  removed_row _ _ = none

  unfoldable pub remove : Bool → Removal → Owner → String → Tables → Option Bool × Tables
  unfolding claim_delete_fenced removed_row
  remove lock_held m o provider s =
      let r = claim_delete_fenced lock_held m o provider none s in (removed_row r.0 r.1, r.2)

  -- deleteForRevoke after a preparation: none where the actor is offboarded, or an error
  revoke_fenced :
      Sealing
      → Bool
      → Removal
      → Owner
      → String
      → String
      → Tables
      → Option Bool
      → Option RevokedTokens × Tables
  unfolding revoked_from
  revoke_fenced box decrypt m o provider id s (some true) =
      revoked_from box decrypt (claim_prepared_disconnect m o provider id s)
  revoke_fenced box decrypt m o provider id s _ = (none, s)

  unfoldable pub delete_for_revoke_prepared :
      Sealing
      → Bool
      → Removal
      → Owner
      → String
      → String
      → SlackIdentity
      → ℕ
      → Tables
      → Option RevokedTokens × Tables
  unfolding revoke_fenced
  delete_for_revoke_prepared box decrypt m o provider id i issued_at s =
      revoke_fenced box decrypt m o provider id s (user_interaction_is_current i issued_at s.marks)

  -- deleteForRevoke without one, with whether the mark stands
  unfoldable pub delete_for_revoke :
      Sealing
      → Bool
      → Bool
      → Removal
      → Owner
      → String
      → Tables
      → Bool × Option RevokedTokens × Tables
  unfolding claim_delete_fenced revoked_from
  delete_for_revoke box decrypt lock_held m o provider s =
      let r = claim_delete_fenced lock_held m o provider none s in
      let out = revoked_from box decrypt (r.1, r.2) in (r.0, out.0, out.1)
