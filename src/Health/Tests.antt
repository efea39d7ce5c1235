-- ===== src/Health/Tests.antt =====
-- Two replicas that notify one owner.
use vouchr.Base.{◌≡◌, refl, true, false, [], ◌∷◌, none, arith}
use vouchr.Base.Assoc.{lookup, insert}
use vouchr.Owner.{Owner, user}
use vouchr.Health.{claim, refresh_dead}
use vouchr.Health.Window.{claims, releases, run, claim_exclusive}

abbrev alice : Owner
alice = record { team_id = "T1"; kind = user; id = "U1"; enterprise_id = none }

granted : (claim alice "github" refresh_dead 1000 []).0 ≡ true
unfolding claim lookup insert
granted = refl

claim_exclusive_example :
    (claim alice "github" refresh_dead 5000 (
      run
        (releases alice "github" refresh_dead 900 ∷ claims alice "github" refresh_dead 2000 ∷ [])
        (claim alice "github" refresh_dead 1000 []).1)).0
    ≡ false
claim_exclusive_example =
    claim_exclusive alice "github" refresh_dead 1000 5000 []
      (releases alice "github" refresh_dead 900 ∷ claims alice "github" refresh_dead 2000 ∷ [])
      granted (λ same. omega arith, tt) (omega arith)
