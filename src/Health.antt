-- ===== src/Health.antt =====
-- src/core/health.ts: who may notify an owner. The table notification_state is a map from its primary
-- key to the time of the last notification, in milliseconds of the callers' clocks.
pub mod Window
pub mod Tests
use text.Mathlib.TextEquality.{eq_iff}
use vouchr.Base.{
  ℕ, ◌+◌, ◌*◌, String, ◌≡◌, ◌↔◌, Bool, true, false, ◌&&◌, List, [], ◌∷◌, Option, none, some, leb,
  arith, if◌then◌else◌,
}
use vouchr.Base.Eq.{Eq, ◌==◌, string_eq, option_eq, nat_eq}
use vouchr.Base.Assoc.{lookup, insert, erase}
use vouchr.Owner.{Owner, OwnerKind, kind_eq, kind_beq_iff}

abbrev pub health_notify_debounce_ms : ℕ
health_notify_debounce_ms = 24 * 60 * 60 * 1000

pub data NotificationKind : Type 0 where
  refresh_dead expiring_soon expired : NotificationKind

abbrev notification_beq : NotificationKind → NotificationKind → Bool
notification_beq refresh_dead refresh_dead = true
notification_beq expiring_soon expiring_soon = true
notification_beq expired expired = true
notification_beq _ _ = false

notification_beq_iff : (a b : NotificationKind) → (notification_beq a b ≡ true) ↔ (a ≡ b)
notification_beq_iff refresh_dead refresh_dead = ground arith
notification_beq_iff refresh_dead expiring_soon = ground arith
notification_beq_iff refresh_dead expired = ground arith
notification_beq_iff expiring_soon refresh_dead = ground arith
notification_beq_iff expiring_soon expiring_soon = ground arith
notification_beq_iff expiring_soon expired = ground arith
notification_beq_iff expired refresh_dead = ground arith
notification_beq_iff expired expiring_soon = ground arith
notification_beq_iff expired expired = ground arith

pub record NotificationKey : Type 0 where
  pub team_id : String
  pub owner_kind : OwnerKind
  pub owner_id : String
  pub provider : String
  pub kind : NotificationKind

abbrev notification_key_beq : NotificationKey → NotificationKey → Bool
notification_key_beq a b =
    a.team_id == b.team_id
    && (a.owner_kind == b.owner_kind
        && (a.owner_id == b.owner_id
            && (a.provider == b.provider && notification_beq a.kind b.kind)))

pub notification_key_beq_iff : (a b : NotificationKey) → (notification_key_beq a b ≡ true) ↔ (a ≡ b)
notification_key_beq_iff a b = ground (
  arith,
  eq_iff a.team_id b.team_id,
  kind_beq_iff a.owner_kind b.owner_kind,
  eq_iff a.owner_id b.owner_id,
  eq_iff a.provider b.provider,
  notification_beq_iff a.kind b.kind,
)

instance abbrev pub notification_key_eq : Eq NotificationKey
notification_key_eq = record {
  equals = notification_key_beq;
  equals_iff = notification_key_beq_iff;
}

abbrev pub Table : Type 0
Table = List (NotificationKey × ℕ)

abbrev pub key_of : Owner → String → NotificationKind → NotificationKey
key_of o provider kind = record {
  team_id = o.team_id;
  owner_kind = o.kind;
  owner_id = o.id;
  provider = provider;
  kind = kind;
}

-- INSERT … ON CONFLICT DO UPDATE … WHERE last_notified_at <= now - window
claim_on : NotificationKey → ℕ → Table → Option ℕ → Bool × Table
claim_on k now t none = (true, insert k now t)
claim_on k now t (some last) =
    if leb (last + health_notify_debounce_ms) now then (true, insert k now t) else (false, t)

unfoldable pub claim : Owner → String → NotificationKind → ℕ → Table → Bool × Table
unfolding claim_on
claim o provider kind now t =
    claim_on (key_of o provider kind) now t (lookup (key_of o provider kind) t)

unfoldable pub release : Owner → String → NotificationKind → ℕ → Table → Table
release o provider kind claimed_at t =
    if lookup (key_of o provider kind) t == some claimed_at
    then erase (key_of o provider kind) t
    else t
