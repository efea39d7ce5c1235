-- ===== src/Owner.antt =====
-- src/core/identity.ts and src/core/owner.ts: the acting identity, and who owns a credential.
use vouchr.Base.{String, ◌≡◌, ◌↔◌, Bool, true, false, Option, none, arith}
use vouchr.Base.Eq.{Eq}

pub record SlackIdentity : Type 0 where
  pub enterprise_id : Option String
  pub team_id : String
  pub user_id : String

pub data OwnerKind : Type 0 where
  user channel : OwnerKind

pub record Owner : Type 0 where
  pub team_id : String
  pub kind : OwnerKind
  pub id : String
  pub enterprise_id : Option String

abbrev pub user_owner : SlackIdentity → Owner
user_owner i = record {
  team_id = i.team_id;
  kind = user;
  id = i.user_id;
  enterprise_id = i.enterprise_id;
}

abbrev pub channel_owner : String → String → Owner
channel_owner team_id channel_id = record {
  team_id = team_id;
  kind = channel;
  id = channel_id;
  enterprise_id = none;
}

abbrev kind_beq : OwnerKind → OwnerKind → Bool
kind_beq user user = true
kind_beq channel channel = true
kind_beq _ _ = false

pub kind_beq_iff : (a b : OwnerKind) → (kind_beq a b ≡ true) ↔ (a ≡ b)
kind_beq_iff user user = ground arith
kind_beq_iff user channel = ground arith
kind_beq_iff channel user = ground arith
kind_beq_iff channel channel = ground arith

instance abbrev pub kind_eq : Eq OwnerKind
kind_eq = record { equals = kind_beq; equals_iff = kind_beq_iff }
