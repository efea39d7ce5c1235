-- ===== src/Delegation/Tests.antt =====
-- A worker, a member who lends it a credential, and the theorems at them.
use vouchr.Base.{
  String, ◌≡◌, refl, inl, true, false, [], ◌∷◌, ◌++◌, Option, none, some, arith, is_some,
}
use vouchr.Base.Lists.{All}
use vouchr.Base.Table.{select, update, changes}
use vouchr.Owner.{SlackIdentity, user_owner}
use vouchr.ChannelConfig.{person}
use vouchr.Interaction.{is_interaction_id}
use vouchr.Delegation.{
  Row, SessionScope, Attempt, ResolveInputs, in_scope, resolved, begin_worker_session,
  bind_worker_session, resolve_worker_owner, worker_session_for, put_fresh, still_holds, scope_of,
  owned_by,
}
use vouchr.Delegation.Begin.{begin_quiet}
use vouchr.Delegation.Resolve.{resolve-IsEntitled, IsEntitled}
use vouchr.Delegation.Run.{binds, touches, sweeps, run, IsBounded, run-IsBounded}
use vouchr.Delegation.Run.Once.{bind_once, IsBoundTo}

abbrev session_id : String
session_id = "0b0e7a4e-1f2d-4c3b-8a5e-6f7081920a0b"

abbrev credential : String
credential = "1c1f8b5f-203e-4d4c-9b6f-708192a3b1c2"

abbrev worker : SlackIdentity
worker = record { enterprise_id = none; team_id = "T1"; user_id = "W1" }

abbrev inputs : ResolveInputs
inputs = record {
  acting = worker;
  provider = "github";
  governable_channel = some "C1";
  thread = none;
  eligible = true;
  identity = person;
}

abbrev scope : SessionScope
scope = scope_of inputs "C1"

abbrev bound_row : Row
bound_row = record {
  id = session_id;
  team_id = "T1";
  channel = "C1";
  thread = "";
  worker_user_id = "W1";
  provider = "github";
  member_user_id = some "U1";
  credential_id = some credential;
  bound_at = some 1000;
  expires_at = 9000;
}

abbrev open_row : Row
open_row = record bound_row { member_user_id = none; credential_id = none; bound_at = none }

-- An attempt in which the vault says that every member holds one credential.
abbrev alone : Option String → Attempt
alone c = record {
  id = credential;
  read_at = 2000;
  write_at = 2001;
  live = λ m. c;
  meanwhile = λ t. t;
}

sessions : Unit {0}
unfolding resolve_worker_owner begin_worker_session bind_worker_session worker_session_for put_fresh
    still_holds in_scope is_interaction_id select update changes
sessions = tt

ids : is_interaction_id session_id ≡ true
unfolding sessions
ids = refl

not_id : is_interaction_id "0b0e7a4e-1f2d-5c3b-8a5e-6f7081920a0b" ≡ false
unfolding sessions
not_id = refl

lent :
    (resolve_worker_owner (alone (some credential) ∷ []) inputs (bound_row ∷ [])).0
    ≡ resolved (owned_by worker "U1") credential
unfolding sessions
lent = refl

reconnected :
    (resolve_worker_owner (alone none ∷ []) inputs (bound_row ∷ [])).0
    ≡ resolved (user_owner worker) credential
unfolding sessions
reconnected = refl

resolve-IsEntitled_example :
    IsEntitled
      (alone (some credential) ∷ [])
      inputs
      (bound_row ∷ [])
      (some "C1")
      (owned_by worker "U1")
      credential
resolve-IsEntitled_example =
    resolve-IsEntitled (alone (some credential) ∷ []) inputs (bound_row ∷ []) (owned_by worker "U1")
      credential lent

-- Another replica empties the table meanwhile, and binds nothing.
abbrev raced : Attempt
raced = record {
  id = session_id;
  read_at = 1;
  write_at = 2;
  live = λ m. none;
  meanwhile = λ t. open_row ∷ [];
}

begin_quiet_example :
    is_some (begin_worker_session ((raced ∷ []) ++ alone none ∷ []) scope (bound_row ∷ [])).0 ≡ true
begin_quiet_example =
    begin_quiet scope (raced ∷ []) [] (alone none) (bound_row ∷ []) (omega arith, λ u. refl)

run-IsBounded_example : All IsBounded (
    run
      (binds session_id "U1" credential 2000 ∷ touches session_id 3000 ∷ sweeps 4000 ∷ [])
      (open_row ∷ []))
run-IsBounded_example =
    run-IsBounded
      (binds session_id "U1" credential 2000 ∷ touches session_id 3000 ∷ sweeps 4000 ∷ [])
      (open_row ∷ []) (inl (refl, refl, refl), tt)

binding : (bind_worker_session session_id "U1" credential 2000 (open_row ∷ [])).0 ≡ true
unfolding sessions
binding = refl

bind_once_example :
    All (IsBoundTo session_id "U1" credential) (
      run
        (touches session_id 3000 ∷ [])
        (bind_worker_session session_id "U1" credential 2000 (open_row ∷ [])).1)
    × ((bind_worker_session session_id "U2" credential 4000 (
          run
            (touches session_id 3000 ∷ [])
            (bind_worker_session session_id "U1" credential 2000 (open_row ∷ [])).1)).0
        ≡ false)
bind_once_example =
    bind_once session_id "U1" credential 2000 (open_row ∷ []) (tt, tt) binding
      (touches session_id 3000 ∷ []) tt "U2" credential 4000
