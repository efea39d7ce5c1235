-- ===== src/Consent/Tests.antt =====
-- Runs of the consent states, and its theorems at concrete inputs.
use vouchr.Base.{ℕ, ◌+◌, ◌<◌, ◌≡◌, refl, ◌↔◌, String, true, List, [], ◌∷◌, none, some, arith}
use vouchr.Base.Eq.{string_eq}
use vouchr.Base.Table.{select, delete, update, changes}
use vouchr.Base.Assoc.{lookup}
use vouchr.Owner.{SlackIdentity}
use vouchr.ProviderId.{is_valid_provider_id}
use vouchr.Fence.{
  ProvisioningScopeKind, in_all, in_team, of_user, of_team_user, of_channel, of_team_channel,
  set_mark, latest_of, user_marks, latest_user_offboard_tombstone,
  latest_provisioning_revocation_tombstone, owner_provisioning_scopes, team_mark,
}
use vouchr.Consent.{Row, Table, consent_row, is_consent_state, user_fences}
use vouchr.Consent.Issue.{
  Begin, prompt, new_row, begin_fenced, begin_with, begin_on, insert_new, is_reusable,
}
use vouchr.Consent.Callback.{
  active, invalidated, unavailable, offboarded, is_unconsumed, consume, consume_on, classify,
  classify_live, finalize_provisioning, finalize_on, finalize_absent,
}
use vouchr.Consent.Once.{run, begins, verifies, consume_state_once}
use vouchr.Consent.Active.{IsActive, consume_active_iff}
use vouchr.Consent.Sweep.{sweep_stale, is_stale, sweep_stale_total, state_recovery_retention_us}

-- A stand-in for the hash of a scope.
abbrev scope_hash : ProvisioningScopeKind → List String → String
scope_hash in_all parts = "all"
scope_hash in_team parts = "team"
scope_hash of_user parts = "user"
scope_hash of_team_user parts = "team_user"
scope_hash of_channel parts = "channel"
scope_hash of_team_channel parts = "team_channel"

abbrev ada : SlackIdentity
ada = record { enterprise_id = none; team_id = "T1"; user_id = "U1" }

abbrev state_one : String
state_one = "AAAAAAAAAAAAAAAAAAAAAAAAAAAAAAAAAAAAAAAAAAA"

abbrev state_two : String
state_two = "BBBBBBBBBBBBBBBBBBBBBBBBBBBBBBBBBBBBBBBBBBB"

abbrev asks : String → ℕ → Begin
asks state at = record {
  identity = ada;
  provider = "github";
  channel = none;
  issued_at = at;
  state = state;
  verifier = "v";
  observed_at = at;
  now = at;
}

consent : Unit {0}
unfolding is_consent_state is_valid_provider_id latest_user_offboard_tombstone
    latest_provisioning_revocation_tombstone user_marks owner_provisioning_scopes latest_of
    begin_fenced begin_with begin_on insert_new is_reusable consume consume_on classify
    classify_live finalize_provisioning finalize_on finalize_absent set_mark lookup select update
consent = tt

abbrev asked : Table
asked = new_row ada "github" none 100 state_one "v" ∷ []

begins_one : begin_fenced scope_hash (asks state_one 100) [] [] ≡ (prompt state_one, asked)
unfolding consent
begins_one = refl

-- A second request gives the state that is there.
begins_again : begin_fenced scope_hash (asks state_two 200) [] asked ≡ (prompt state_one, asked)
unfolding consent
begins_again = refl

goes_on :
    (consume scope_hash state_one 300 300 [] asked).0
    ≡ active (consent_row (new_row ada "github" none 100 state_one "v"))
unfolding consent
goes_on = refl

-- After an offboarding the state is spent, and answers that the user is offboarded.
blocked :
    (consume scope_hash state_one 300 300 ((team_mark "T1" "U1", 250) ∷ []) asked).0
    ≡ invalidated offboarded (consent_row (new_row ada "github" none 100 state_one "v"))
unfolding consent
blocked = refl

consume_state_once_example :
    (consume scope_hash state_one 500 500 [] (
      run scope_hash
        (begins (asks state_two 400) [] ∷ verifies state_one 410 ∷ [])
        (consume scope_hash state_one 300 300 [] asked).1)).0
    ≡ unavailable
consume_state_once_example =
    consume_state_once scope_hash state_one 300 300 [] asked
      (begins (asks state_two 400) [] ∷ verifies state_one 410 ∷ [])
      ((λ e. absurd (ground (arith, (string_eq.equals_iff state_two state_one).1 e))), tt) 500 500
      []

consume_active_iff_example :
    ((consume scope_hash state_one 300 300 [] asked).0
      ≡ active (consent_row (new_row ada "github" none 100 state_one "v")))
    ↔ ((is_consent_state state_one ≡ true)
        × ((r : Row) × (select (is_unconsumed state_one) asked ≡ some r)
            × IsActive r 300 (user_fences scope_hash (consent_row r).identity r.provider [])
            × (consent_row (new_row ada "github" none 100 state_one "v") ≡ consent_row r)))
consume_active_iff_example =
    consume_active_iff scope_hash state_one 300 300 [] asked
      (consent_row (new_row ada "github" none 100 state_one "v"))

abbrev much_later : ℕ
much_later = state_recovery_retention_us + 101

one_stale : changes (is_stale much_later) asked < 2
unfolding changes
one_stale = omega arith

sweep_stale_total_example :
    sweep_stale 2 much_later asked
    ≡ some (changes (is_stale much_later) asked, delete (is_stale much_later) asked)
sweep_stale_total_example = sweep_stale_total 2 much_later asked one_stale
