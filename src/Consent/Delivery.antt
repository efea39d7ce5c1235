-- ===== src/Consent/Delivery.antt =====
-- The delivery of a Connect prompt: claimDelivery, confirmDelivery and abandonDelivery of the class
-- Consent.
use vouchr.Base.{
  ℕ, ◌+◌, String, Bool, false, ◌&&◌, ◌||◌, List, [], ◌∷◌, Option, none, some, leb, ltb, not,
  is_some, if◌then◌else◌, if-cases,
}
use vouchr.Base.Eq.{◌==◌, string_eq, option_eq, nat_eq}
use vouchr.Base.Lists.{All}
use vouchr.Base.Table.{select, update, changes, All-update}
use vouchr.Approval.{prompt_delivery_lease_us}
use vouchr.Approval.Delivery.{DeliveryClaim, claimed, delivered, in_flight, stale, settled}
use vouchr.Interaction.{is_interaction_id}
use vouchr.Consent.{Row, Table, is_active, is_consent_state}

-- The WHERE of the claim's UPDATE.
unfoldable pub may_claim_state : String → Bool → ℕ → Row → Bool
may_claim_state state redeliver now r =
    r.state == state
    && is_active now r
    && (not (is_some r.delivered_at) || (redeliver && settled r.delivered_at now))
    && (not (is_some r.delivery_token) || leb r.delivery_lease_expires_at now)

abbrev pub lease_state : String → ℕ → Row → Row
lease_state token now r = record r {
  delivery_token = some token;
  delivery_lease_expires_at = now + prompt_delivery_lease_us;
  delivered_at = none;
}

-- One claim: its new token, and the times of its statement and of the read after a refusal.
pub record DeliveryAttempt : Type 0 where
  pub token : String
  pub now : ℕ
  pub read_at : ℕ

state_refusal : ℕ → Option Row → Option DeliveryClaim
state_refusal now none = some stale
state_refusal now (some r) =
    if is_some r.delivered_at
    then some delivered
    else if ltb now r.delivery_lease_expires_at
    then some in_flight
    else none

answer_or : (Table → DeliveryClaim × Table) → Table → Option DeliveryClaim → DeliveryClaim × Table
answer_or again t (some c) = (c, t)
answer_or again t none = again t

claim_attempt :
    String
    → Bool
    → DeliveryAttempt
    → (Table → DeliveryClaim × Table)
    → Table
    → DeliveryClaim × Table
unfolding answer_or state_refusal
claim_attempt state redeliver a again t =
    if is_some (select (may_claim_state state redeliver a.now) t)
    then (
      claimed a.token,
      update (may_claim_state state redeliver a.now) (lease_state a.token a.now) t,
    )
    else answer_or again t
        (state_refusal a.read_at (select (λ r. r.state == state && is_active a.read_at r) t))

claim_attempts : String → Bool → List DeliveryAttempt → Table → DeliveryClaim × Table
unfolding claim_attempt
claim_attempts state redeliver [] t = (in_flight, t)
claim_attempts state redeliver (a ∷ rest) t =
    claim_attempt state redeliver a (claim_attempts state redeliver rest) t

-- claimDelivery, with the attempts that it may make (three in the program)
unfoldable pub claim_state_delivery :
    String → Bool → List DeliveryAttempt → Table → DeliveryClaim × Table
unfolding claim_attempts
claim_state_delivery state redeliver attempts t =
    if is_consent_state state then claim_attempts state redeliver attempts t else (stale, t)

abbrev pub is_claimed_by : String → String → Row → Bool
is_claimed_by state token r =
    r.state == state
    && r.delivery_token == some token
    && not (is_some r.superseded_at)
    && not (is_some r.consumed_at)
    && not (is_some r.delivered_at)

unfoldable pub confirm_state_delivery : String → String → ℕ → Table → Bool × Table
confirm_state_delivery state token now t =
    if is_consent_state state && is_interaction_id token
    then (
      changes (λ r. is_claimed_by state token r && is_active now r) t == 1,
      update (λ r. is_claimed_by state token r && is_active now r)
          (λ r. record r {
            delivered_at = some now;
            delivery_token = none;
            delivery_lease_expires_at = 0;
          })
          t,
    )
    else (false, t)

unfoldable pub abandon_state_delivery : String → String → Table → Bool × Table
abandon_state_delivery state token t =
    if is_consent_state state && is_interaction_id token
    then (
      changes (is_claimed_by state token) t == 1,
      update (is_claimed_by state token)
          (λ r. record r { delivery_token = none; delivery_lease_expires_at = 0 }) t,
    )
    else (false, t)

module _ (P : Row → Type 0)
    (keep : (token : String) (now : ℕ) (r : Row) → P r → P (lease_state token now r)) where
  All-claim_attempts :
      (state : String) (redeliver : Bool) (attempts : List DeliveryAttempt) (t : Table)
      → All P t
      → All P (claim_attempts state redeliver attempts t).1
  unfolding claim_attempts claim_attempt answer_or
  All-claim_attempts state redeliver [] t h = h
  All-claim_attempts state redeliver (a ∷ rest) t h =
      if-cases (λ (x : DeliveryClaim × Table). All P x.1)
        (is_some (select (may_claim_state state redeliver a.now) t)) _ _
        (λ free.
          All-update P (may_claim_state state redeliver a.now) (lease_state a.token a.now)
            (λ r q hit. keep a.token a.now r q) t h)
        (λ taken.
          answered (All-claim_attempts state redeliver rest t h)
            (state_refusal a.read_at (select (λ r. r.state == state && is_active a.read_at r) t)))
    where
      answered :
          All P (claim_attempts state redeliver rest t).1
          → (o : Option DeliveryClaim)
          → All P (answer_or (claim_attempts state redeliver rest) t o).1
      answered q none = q
      answered q (some c) = h

  -- What the claim's lease keeps of a row, the claim keeps of every row.
  pub All-claim_state_delivery :
      (state : String) (redeliver : Bool) (attempts : List DeliveryAttempt) (t : Table)
      → All P t
      → All P (claim_state_delivery state redeliver attempts t).1
  unfolding claim_state_delivery
  All-claim_state_delivery state redeliver attempts t h =
      if-cases (λ (x : DeliveryClaim × Table). All P x.1) (is_consent_state state) _ _
        (λ ok. All-claim_attempts state redeliver attempts t h) (λ bad. h)
