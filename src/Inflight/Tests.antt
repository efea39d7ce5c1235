-- ===== src/Inflight/Tests.antt =====
-- Runs of the limiter, and its theorems at concrete inputs.
use vouchr.Base.{◌≡◌, refl, List, [], ◌∷◌}
use vouchr.Base.Assoc.{lookup, insert, erase}
use vouchr.Inflight.{
  Limiter, built, make, enter, enter_provider, release, decrement, release_slot, enters,
  enters_provider, releases, Call, run, step, assert_inflight_limits, is_positive_safe,
}
use vouchr.Inflight.Counts.{Inv, run-Inv}

abbrev small : Limiter
small = record {
  global_max = 2;
  provider_max = 1;
  retry_after_ms = 1000;
  global_count = 0;
  per_provider = [];
  slots = [];
}

small_limiter : make 2 1 1000 ≡ built small
unfolding make assert_inflight_limits is_positive_safe
small_limiter = refl

limiter : Unit {0}
unfolding run step enter enter_provider release release_slot decrement lookup insert erase
limiter = tt

abbrev calls : List Call
calls =
    enters
    ∷ enters_provider "github"
    ∷ enters_provider "github"
    ∷ releases 1
    ∷ releases 1
    ∷ enters_provider "github"
    ∷ releases 0
    ∷ []

after_calls :
    ((run small calls).global_count ≡ 0) × ((run small calls).per_provider ≡ ("github", 1) ∷ [])
unfolding limiter
after_calls = (refl, refl)

run-Inv_example : Inv (run small calls)
run-Inv_example = run-Inv 2 1 1000 small calls small_limiter
