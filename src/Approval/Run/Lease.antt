-- ===== src/Approval/Run/Lease.antt =====
-- One delivery of a prompt at a time.
use vouchr.Base.{ℕ, ◌≤◌, String, ◌≡◌, ◌≢◌, ◌⊎◌, true, List, [], ◌∷◌, is_some}
use vouchr.Base.Eq.{string_eq, option_eq}
use vouchr.Approval.{Row, Table, status_eq, pending}
use vouchr.Approval.Run.{Step, inserts, claims, confirms, abandons}

-- None of the steps ends the delivery of the id's prompt or makes a row with the id, and none claims
-- a prompt by a clock that is behind the time.
abbrev pub Undelivered : String → ℕ → List Step → Type 0
Undelivered id time [] = Unit {0}
Undelivered id time (inserts i now ∷ steps) = (i.id ≢ id) × Undelivered id time steps
Undelivered id time (confirms i token audience now ∷ steps) = ⊥
Undelivered id time (abandons i token audience remove ∷ steps) = ⊥
Undelivered id time (claims i audience rd token now ∷ steps) =
    (time ≤ now) × Undelivered id time steps
Undelivered id time (_ ∷ steps) = Undelivered id time steps

-- The row's delivery is not to be claimed before the time.
abbrev IsHeld : String → ℕ → Row → Type 0
IsHeld id until r =
    r.id ≡ id
    → (r.status ≢ pending)
      ⊎ ((is_some r.delivery_token ≡ true) × (until ≤ r.delivery_lease_expires_at))
