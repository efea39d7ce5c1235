-- ===== src/Approval/Delivery.antt =====
-- The delivery of a prompt: claimDelivery, confirmDelivery and abandonDelivery of
-- src/core/approval.ts, on ids, tokens and audiences of the right form.
use vouchr.Base.{
  ℕ, ◌+◌, String, Bool, true, false, ◌&&◌, ◌||◌, List, [], ◌∷◌, Option, none, some, leb, ltb, not,
  is_some, if◌then◌else◌,
}
use vouchr.Base.Eq.{◌==◌, string_eq, option_eq}
use vouchr.Base.Table.{select, update, delete}
use vouchr.Approval.{
  Row, Table, status_eq, pending, prompt_delivery_lease_us, prompt_redelivery_debounce_us,
}

pub data DeliveryClaim : Type 0 where
  claimed : String → DeliveryClaim
  delivered in_flight stale : DeliveryClaim

-- delivered_at <= now - debounce, where it is not null
abbrev pub settled : Option ℕ → ℕ → Bool
settled none now = false
settled (some at) now = leb (at + prompt_redelivery_debounce_us) now

-- The WHERE of the claim's UPDATE.
unfoldable pub may_claim : String → String → Bool → ℕ → Row → Bool
may_claim id audience redeliver now r =
    r.id == id
    && r.status == pending
    && ltb now r.expires_at
    && (not (is_some r.delivery_token) || leb r.delivery_lease_expires_at now)
    && (not (r.delivery_audience == some audience)
        || not (is_some r.delivered_at)
        || (redeliver && settled r.delivered_at now))

abbrev pub lease : String → String → ℕ → Row → Row
lease token audience now r = record r {
  delivery_token = some token;
  delivery_lease_expires_at = now + prompt_delivery_lease_us;
  delivered_at = none;
  delivery_audience = some audience;
}

-- The claim's UPDATE … RETURNING id.
unfoldable pub take_lease : String → String → Bool → String → ℕ → Table → Bool × Table
unfolding may_claim
take_lease id audience redeliver token now t = (
  is_some (select (may_claim id audience redeliver now) t),
  update (may_claim id audience redeliver now) (lease token audience now) t,
)

-- What the row says of a claim that was refused: none to try again.
refusal_of : String → ℕ → Option Row → Option DeliveryClaim
refusal_of audience now none = some stale
refusal_of audience now (some r) =
    if not (r.delivery_audience == some audience)
    then (if is_some r.delivery_token && ltb now r.delivery_lease_expires_at
        then some in_flight
        else none)
    else if is_some r.delivered_at
    then some delivered
    else if ltb now r.delivery_lease_expires_at
    then some in_flight
    else none

refused_or : Option DeliveryClaim → Table → (Table → DeliveryClaim × Table) → DeliveryClaim × Table
refused_or (some c) t next = (c, t)
refused_or none t next = next t

claim_step :
    String
    → String
    → String
    → ℕ
    → Bool × Table
    → (Table → DeliveryClaim × Table)
    → DeliveryClaim × Table
unfolding refused_or refusal_of
claim_step id audience token later (true, t) next = (claimed token, t)
claim_step id audience token later (false, t) next =
    refused_or
      (refusal_of audience later
        (select (λ (r : Row). r.id == id && r.status == pending && ltb later r.expires_at) t))
      t next

-- claimDelivery: its attempts, each with its new token and the times of its two statements.
unfoldable pub claim_delivery :
    String → String → Bool → List (String × ℕ × ℕ) → Table → DeliveryClaim × Table
unfolding claim_step
claim_delivery id audience redeliver [] t = (in_flight, t)
claim_delivery id audience redeliver ((token, now, later) ∷ attempts) t =
    let next = claim_delivery id audience redeliver attempts in
    claim_step id audience token later (take_lease id audience redeliver token now t) next

-- The row whose lease the token holds, and which is not delivered.
unfoldable pub holds_lease : String → String → String → Row → Bool
holds_lease id token audience r =
    r.id == id
    && r.delivery_token == some token
    && r.delivery_audience == some audience
    && r.status == pending
    && not (is_some r.delivered_at)

-- confirmDelivery
unfoldable pub confirm_delivery : String → String → String → ℕ → Table → Bool × Table
unfolding holds_lease
confirm_delivery id token audience now t =
    let p = λ (r : Row). holds_lease id token audience r && ltb now r.expires_at in
    (
      is_some (select p t),
      update p
          (λ r. record r {
            delivered_at = some now;
            delivery_token = none;
            delivery_lease_expires_at = 0;
          })
          t,
    )

-- abandonDelivery
unfoldable pub abandon_delivery : String → String → String → Bool → Table → Bool × Table
unfolding holds_lease
abandon_delivery id token audience remove t =
    let p = holds_lease id token audience in
    (
      is_some (select p t),
      if remove
          then delete p t
          else update p (λ r. record r { delivery_token = none; delivery_lease_expires_at = 0 }) t,
    )
