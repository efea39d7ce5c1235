-- ===== src/Fence.antt =====
-- The fences of src/core/consent.ts: the durable marks that a user was offboarded, or that a
-- provider's credentials were revoked in some scope. Authority that was issued at or before a mark is
-- refused for good. The three tables of marks are one map here, from a mark's primary key to its time
-- on the database's clock. The locks that each function holds make it one step.
pub mod Kept
use text.Mathlib.TextEquality.{eq_iff}
use vouchr.Base.{
  ℕ, suc, max, String, ◌≡◌, ◌↔◌, Bool, true, false, ◌&&◌, List, [], ◌∷◌, ◌++◌, map, Option, none,
  some, leb, get_or, arith, if◌then◌else◌, ◌>>=◌,
}
use vouchr.Base.Eq.{Eq, ◌==◌, string_eq, option_eq}
use vouchr.Base.Assoc.{lookup, insert}
use vouchr.Owner.{SlackIdentity, Owner, OwnerKind, user, channel}
use vouchr.ProviderId.{is_valid_provider_id}

pub data OffboardScopeKind : Type 0 where
  enterprise unscoped global : OffboardScopeKind

abbrev scope_kind_beq : OffboardScopeKind → OffboardScopeKind → Bool
scope_kind_beq enterprise enterprise = true
scope_kind_beq unscoped unscoped = true
scope_kind_beq global global = true
scope_kind_beq _ _ = false

scope_kind_beq_iff : (a b : OffboardScopeKind) → (scope_kind_beq a b ≡ true) ↔ (a ≡ b)
scope_kind_beq_iff enterprise enterprise = ground arith
scope_kind_beq_iff enterprise unscoped = ground arith
scope_kind_beq_iff enterprise global = ground arith
scope_kind_beq_iff unscoped enterprise = ground arith
scope_kind_beq_iff unscoped unscoped = ground arith
scope_kind_beq_iff unscoped global = ground arith
scope_kind_beq_iff global enterprise = ground arith
scope_kind_beq_iff global unscoped = ground arith
scope_kind_beq_iff global global = ground arith

pub record OffboardScope : Type 0 where
  pub kind : OffboardScopeKind
  pub id : String

-- A primary key of offboard_tombstone, user_offboard_scope_tombstone or
-- provisioning_revocation_tombstone.
pub data Mark : Type 0 where
  team_mark : String → String → Mark
  scope_mark : OffboardScopeKind → String → String → Mark
  revocation_mark : String → String → Mark

abbrev mark_beq : Mark → Mark → Bool
mark_beq (team_mark a b) (team_mark c d) = a == c && b == d
mark_beq (scope_mark k a b) (scope_mark l c d) = scope_kind_beq k l && (a == c && b == d)
mark_beq (revocation_mark a b) (revocation_mark c d) = a == c && b == d
mark_beq _ _ = false

pub mark_beq_iff : (a b : Mark) → (mark_beq a b ≡ true) ↔ (a ≡ b)
mark_beq_iff (team_mark a b) (team_mark c d) = ground (arith, eq_iff a c, eq_iff b d)
mark_beq_iff (team_mark a b) (scope_mark l c d) = ground arith
mark_beq_iff (team_mark a b) (revocation_mark c d) = ground arith
mark_beq_iff (scope_mark k a b) (team_mark c d) = ground arith
mark_beq_iff (scope_mark k a b) (scope_mark l c d) =
    ground (arith, scope_kind_beq_iff k l, eq_iff a c, eq_iff b d)
mark_beq_iff (scope_mark k a b) (revocation_mark c d) = ground arith
mark_beq_iff (revocation_mark a b) (team_mark c d) = ground arith
mark_beq_iff (revocation_mark a b) (scope_mark l c d) = ground arith
mark_beq_iff (revocation_mark a b) (revocation_mark c d) = ground (arith, eq_iff a c, eq_iff b d)

instance abbrev pub mark_eq : Eq Mark
mark_eq = record { equals = mark_beq; equals_iff = mark_beq_iff }

abbrev pub Marks : Type 0
Marks = List (Mark × ℕ)

-- INSERT … ON CONFLICT DO UPDATE SET created_at=GREATEST(…)
unfoldable pub set_mark : Mark → ℕ → Marks → Marks
set_mark k now t = insert k (max (get_or (lookup k t) 0) now) t

pub set_marks : List Mark → ℕ → Marks → Marks
set_marks [] now t = t
set_marks (k ∷ ks) now t = set_marks ks now (set_mark k now t)

-- ORDER BY created_at DESC LIMIT 1, over the marks that apply
abbrev pub newer : Option ℕ → Option ℕ → Option ℕ
newer none b = b
newer (some a) none = some a
newer (some a) (some b) = some (max a b)

unfoldable pub latest_of : List Mark → Marks → Option ℕ
latest_of [] t = none
latest_of (k ∷ ks) t = newer (lookup k t) (latest_of ks t)

abbrev pub tombstone_blocks : Option ℕ → ℕ → Bool
tombstone_blocks none minted_at = false
tombstone_blocks (some created_at) minted_at = leb minted_at created_at

abbrev pub global_offboard_scope : OffboardScope
global_offboard_scope = record { kind = global; id = "" }

abbrev pub unscoped_offboard_scope : OffboardScope
unscoped_offboard_scope = record { kind = unscoped; id = "" }

-- none where it throws
pub identity_offboard_scopes : Option String → Option (List OffboardScope)
identity_offboard_scopes none = some (global_offboard_scope ∷ unscoped_offboard_scope ∷ [])
identity_offboard_scopes (some e) =
    if e == ""
    then none
    else some (global_offboard_scope ∷ (record { kind = enterprise; id = e }) ∷ [])

pub everywhere_offboard_scopes : Option String → Option (List OffboardScope)
everywhere_offboard_scopes none = some (global_offboard_scope ∷ [])
everywhere_offboard_scopes (some e) =
    if e == ""
    then none
    else some ((record { kind = enterprise; id = e }) ∷ unscoped_offboard_scope ∷ [])

abbrev pub scope_marks : String → List OffboardScope → List Mark
scope_marks user_id scopes = map (λ (s : OffboardScope). scope_mark s.kind s.id user_id) scopes

-- The marks that apply to an identity.
unfoldable pub user_marks : SlackIdentity → Option (List Mark)
unfolding identity_offboard_scopes
user_marks i = identity_offboard_scopes i.enterprise_id >>= λ scopes.
    some (team_mark i.team_id i.user_id ∷ scope_marks i.user_id scopes)

unfoldable pub latest_user_offboard_tombstone : SlackIdentity → Marks → Option (Option ℕ)
latest_user_offboard_tombstone i t = user_marks i >>= λ marks. some (latest_of marks t)

unfoldable pub user_interaction_is_current : SlackIdentity → ℕ → Marks → Option Bool
user_interaction_is_current i issued_at t = latest_user_offboard_tombstone i t >>= λ at.
    some (if tombstone_blocks at issued_at then false else true)

pub record UserInteractionReceipt : Type 0 where
  pub identity : SlackIdentity
  pub issued_at : ℕ

-- The outcome of the fences; the number is the index of the receipt that is stale.
pub data Fenced : Type 0 where
  current : Fenced
  offboarded : ℕ → Fenced

pub fence_from : ℕ → List UserInteractionReceipt → Marks → Option Fenced
fence_from n [] t = some current
fence_from n (r ∷ rs) t =
    let rest = fence_from (suc n) rs t in
    user_interaction_is_current r.identity r.issued_at t >>= λ fresh.
    if fresh then rest else some (offboarded n)

unfoldable pub user_interaction_fences : List UserInteractionReceipt → Marks → Option Fenced
unfolding fence_from
user_interaction_fences [] t = none
user_interaction_fences (r ∷ rs) t = fence_from 0 (r ∷ rs) t

unfoldable pub mark_user_offboarded : SlackIdentity → ℕ → Marks → Marks
mark_user_offboarded i now t = set_mark (team_mark i.team_id i.user_id) now t

-- markUserOffboardedByActor: false where the actor is offboarded
unfoldable pub mark_user_offboarded_by_actor :
    SlackIdentity → ℕ → SlackIdentity → ℕ → Marks → Option (Bool × Marks)
mark_user_offboarded_by_actor actor actor_issued_at target now t =
    if actor.team_id == target.team_id
    then (user_interaction_is_current actor actor_issued_at t >>= λ fresh.
        some (if fresh then (true, mark_user_offboarded target now t) else (false, t)))
    else none

unfoldable pub mark_user_offboarded_everywhere : Option String → String → ℕ → Marks → Option Marks
unfolding everywhere_offboard_scopes
mark_user_offboarded_everywhere enterprise_id user_id now t =
    everywhere_offboard_scopes enterprise_id >>= λ scopes.
    some (set_marks (scope_marks user_id scopes) now t)

unfoldable pub mark_user_offboarded_everywhere_by_actor :
    SlackIdentity → ℕ → String → String → ℕ → Marks → Option (Bool × Marks)
mark_user_offboarded_everywhere_by_actor actor actor_issued_at enterprise_id user_id now t =
    if actor.enterprise_id == some enterprise_id
    then (user_interaction_is_current actor actor_issued_at t >>= λ fresh.
        mark_user_offboarded_everywhere (some enterprise_id) user_id now t >>= λ marked.
        some (if fresh then (true, marked) else (false, t)))
    else none

pub data ProvisioningScopeKind : Type 0 where
  in_all in_team of_user of_team_user of_channel of_team_channel : ProvisioningScopeKind

pub record ProvisioningRevocationFilter : Type 0 where
  pub provider : String
  pub team_id : Option String
  pub user_id : Option String
  pub channel : Option String

abbrev is_present : Option String → Bool
is_present none = true
is_present (some s) = if s == "" then false else true

-- The hash of a scope's kind and parts is an argument.
module _ (scope_key : ProvisioningScopeKind → List String → String) where
  pub exact_key : Option String → Option String → Option String → Option String
  exact_key team_id (some u) (some c) = none
  exact_key none (some u) none = some (scope_key of_user (u ∷ []))
  exact_key (some t) (some u) none = some (scope_key of_team_user (t ∷ u ∷ []))
  exact_key none none (some c) = some (scope_key of_channel (c ∷ []))
  exact_key (some t) none (some c) = some (scope_key of_team_channel (t ∷ c ∷ []))
  exact_key none none none = some (scope_key in_all [])
  exact_key (some t) none none = some (scope_key in_team (t ∷ []))

  -- exactProvisioningScope: none where it throws
  unfoldable pub exact_provisioning_scope : ProvisioningRevocationFilter → Option String
  unfolding exact_key
  exact_provisioning_scope f =
      if is_valid_provider_id f.provider
        && (is_present f.team_id && (is_present f.user_id && is_present f.channel))
      then exact_key f.team_id f.user_id f.channel
      else none

  abbrev kind_scopes : OwnerKind → String → String → List String
  kind_scopes user team_id id =
      scope_key of_user (id ∷ []) ∷ scope_key of_team_user (team_id ∷ id ∷ []) ∷ []
  kind_scopes channel team_id id =
      scope_key of_channel (id ∷ []) ∷ scope_key of_team_channel (team_id ∷ id ∷ []) ∷ []

  unfoldable pub owner_provisioning_scopes : Owner → List String
  owner_provisioning_scopes o =
      scope_key in_all [] ∷ scope_key in_team (o.team_id ∷ []) ∷ kind_scopes o.kind o.team_id o.id

  abbrev pub owner_marks : Owner → String → List Mark
  owner_marks o provider = map (revocation_mark provider) (owner_provisioning_scopes o)

  unfoldable pub latest_provisioning_revocation_tombstone :
      Owner → String → Marks → Option (Option ℕ)
  latest_provisioning_revocation_tombstone o provider t =
      if is_valid_provider_id provider then some (latest_of (owner_marks o provider) t) else none

  unfoldable pub mark_provisioning_revoked : ProvisioningRevocationFilter → ℕ → Marks → Option Marks
  mark_provisioning_revoked f now t =
      exact_provisioning_scope f >>= λ key. some (set_mark (revocation_mark f.provider key) now t)
