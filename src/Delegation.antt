-- ===== src/Delegation.antt =====
-- src/core/delegation.ts: the sessions of workers. A worker has no credential of its own; the member
-- of the channel who authorizes its request lends theirs, for that worker, provider and conversation.
-- Each statement of SQL is a function on the rows of worker_session, with the database's time as an
-- argument.
pub mod Begin
pub mod Resolve
pub mod Run
pub mod Tests
use vouchr.Base.{
  ℕ, ◌+◌, min, String, Bool, true, false, ◌&&◌, ◌||◌, List, [], ◌∷◌, Option, none, some, get_or,
  is_some, leb, ltb, not, if◌then◌else◌,
}
use vouchr.Base.Eq.{◌==◌, string_eq, option_eq, nat_eq}
use vouchr.Base.Table.{select, delete, update, changes}
use vouchr.Owner.{SlackIdentity, Owner, user_owner}
use vouchr.ChannelConfig.{ChannelIdentity, person}
use vouchr.Interaction.{is_interaction_id, worker_session_idle_ttl_us, worker_session_max_ttl_us}

-- WorkerSession
pub record Session : Type 0 where
  pub id : String
  pub member_user_id : Option String
  pub credential_id : Option String
  pub bound_at : Option ℕ

-- WorkerSessionScope
pub record SessionScope : Type 0 where
  pub team_id : String
  pub channel : String
  pub thread : Option String
  pub worker_user_id : String
  pub provider : String

-- A row of worker_session.
pub record Row : Type 0 where
  pub id : String
  pub team_id : String
  pub channel : String
  pub thread : String
  pub worker_user_id : String
  pub provider : String
  pub member_user_id : Option String
  pub credential_id : Option String
  pub bound_at : Option ℕ
  pub expires_at : ℕ

abbrev pub Table : Type 0
Table = List Row

abbrev pub to_session : Row → Session
to_session r = record {
  id = r.id;
  member_user_id = r.member_user_id;
  credential_id = r.credential_id;
  bound_at = r.bound_at;
}

-- SCOPE_SQL
unfoldable pub in_scope : SessionScope → Row → Bool
in_scope s r =
    r.team_id == s.team_id
    && r.channel == s.channel
    && r.thread == get_or s.thread ""
    && r.worker_user_id == s.worker_user_id
    && r.provider == s.provider

abbrev pub session_of : Option Row → Option Session
session_of none = none
session_of (some r) = some (to_session r)

abbrev pub is_live_in : SessionScope → ℕ → Row → Bool
is_live_in scope now r = in_scope scope r && ltb now r.expires_at

unfoldable pub worker_session_for : SessionScope → ℕ → Table → Option Session
worker_session_for scope now t = session_of (select (is_live_in scope now) t)

-- current.memberUserId, as a truth value
abbrev pub member_of : Option String → Option String
member_of none = none
member_of (some m) = if m == "" then none else some m

-- !member || (await liveCredential(member, …)) === current.credentialId
abbrev pub member_holds : (String → Option String) → Option String → Option String → Bool
member_holds live credential none = true
member_holds live credential (some m) = live m == credential

unfoldable pub still_holds : (String → Option String) → Session → Bool
still_holds live s = member_holds live s.credential_id (member_of s.member_user_id)

abbrev pub fresh_row : String → SessionScope → ℕ → Row
fresh_row id s now = record {
  id = id;
  team_id = s.team_id;
  channel = s.channel;
  thread = get_or s.thread "";
  worker_user_id = s.worker_user_id;
  provider = s.provider;
  member_user_id = none;
  credential_id = none;
  bound_at = none;
  expires_at = now + worker_session_idle_ttl_us;
}

-- The condition of the update on a conflict: the row has expired, or it is the one that was read.
abbrev pub is_replaceable : Option String → ℕ → Row → Bool
is_replaceable seen now r = leb r.expires_at now || some r.id == seen

-- INSERT … ON CONFLICT DO UPDATE … WHERE … RETURNING
put_on : String → SessionScope → Option String → ℕ → Table → Option Row → Option Session × Table
put_on id scope seen now t none =
    (some (to_session (fresh_row id scope now)), fresh_row id scope now ∷ t)
put_on id scope seen now t (some r) =
    if is_replaceable seen now r
    then (
      some (to_session (fresh_row id scope now)),
      update (in_scope scope) (λ _. fresh_row id scope now) t,
    )
    else (none, t)

unfoldable pub put_fresh :
    String → SessionScope → Option String → ℕ → Table → Option Session × Table
unfolding put_on
put_fresh id scope seen now t = put_on id scope seen now t (select (in_scope scope) t)

-- One attempt of beginWorkerSession: the new id, the times of its read and of its write, what the
-- vault says in between of a member's live credential, and what others do to the table meanwhile.
pub record Attempt : Type 0 where
  pub id : String
  pub read_at : ℕ
  pub write_at : ℕ
  pub live : String → Option String
  pub meanwhile : Table → Table

abbrev pub id_of : Option Session → Option String
id_of none = none
id_of (some s) = some s.id

pub finish : (Table → Option Session × Table) → Option Session × Table → Option Session × Table
finish again (some s, t) = (some s, t)
finish again (none, t) = again t

pub attempt :
    Attempt
    → SessionScope
    → (Table → Option Session × Table)
    → Option Session
    → Table
    → Option Session × Table
unfolding finish
attempt a scope again none t = finish again (put_fresh a.id scope none a.write_at (a.meanwhile t))
attempt a scope again (some s) t =
    if still_holds a.live s
    then (some s, a.meanwhile t)
    else finish again (put_fresh a.id scope (some s.id) a.write_at (a.meanwhile t))

-- beginWorkerSession: none where its attempts (three in the program) all lose, and it throws
unfoldable pub begin_worker_session : List Attempt → SessionScope → Table → Option Session × Table
unfolding attempt
begin_worker_session [] scope t = (none, t)
begin_worker_session (a ∷ attempts) scope t =
    attempt a scope (begin_worker_session attempts scope) (worker_session_for scope a.read_at t) t

abbrev pub is_unbound_live : String → ℕ → Row → Bool
is_unbound_live id now r = r.id == id && not (is_some r.member_user_id) && ltb now r.expires_at

unfoldable pub unbound_worker_session_live : String → ℕ → Table → Bool
unbound_worker_session_live id now t =
    is_interaction_id id && is_some (select (is_unbound_live id now) t)

abbrev pub bind_row : String → String → ℕ → Row → Row
bind_row member credential now r = record r {
  member_user_id = some member;
  credential_id = some credential;
  bound_at = some now;
  expires_at = now + worker_session_idle_ttl_us;
}

unfoldable pub bind_worker_session : String → String → String → ℕ → Table → Bool × Table
bind_worker_session id member credential now t =
    if is_interaction_id id && is_interaction_id credential
    then (
      changes (is_unbound_live id now) t == 1,
      update (is_unbound_live id now) (bind_row member credential now) t,
    )
    else (false, t)

abbrev pub touch_row : ℕ → Row → Row
touch_row now r = record r {
  expires_at =
      min (now + worker_session_idle_ttl_us) (get_or r.bound_at now + worker_session_max_ttl_us);
}

unfoldable pub touch_worker_session : String → ℕ → Table → Table
touch_worker_session id now t =
    if is_interaction_id id
    then update (λ r. r.id == id && ltb now r.expires_at) (touch_row now) t
    else t

pub data RefusedCode : Type 0 where
  no_channel ineligible shared_identity : RefusedCode

-- WorkerResolution, and the error that no session could be recorded
pub data Resolution : Type 0 where
  resolved : Owner → String → Resolution
  refused : RefusedCode → Resolution
  unrecorded : Resolution

pub record ResolveInputs : Type 0 where
  pub acting : SlackIdentity
  pub provider : String
  pub governable_channel : Option String
  pub thread : Option String
  pub eligible : Bool
  pub identity : ChannelIdentity

abbrev pub scope_of : ResolveInputs → String → SessionScope
scope_of i channel = record {
  team_id = i.acting.team_id;
  channel = channel;
  thread = i.thread;
  worker_user_id = i.acting.user_id;
  provider = i.provider;
}

-- session.memberUserId && session.credentialId
abbrev pub pair_of : Option String → Option String → Option (String × String)
pair_of (some m) (some c) = some (m, c)
pair_of _ _ = none

abbrev pub binding_of : Session → Option (String × String)
binding_of s = pair_of (member_of s.member_user_id) (member_of s.credential_id)

abbrev pub owned_by : SlackIdentity → String → Owner
owned_by acting member =
    user_owner
      (record { enterprise_id = acting.enterprise_id; team_id = acting.team_id; user_id = member })

run_as : SlackIdentity → Session → Option (String × String) → Resolution
run_as acting s none = resolved (user_owner acting) s.id
run_as acting s (some (member, credential)) = resolved (owned_by acting member) credential

resolved_from : SlackIdentity → Option Session × Table → Resolution × Table
unfolding run_as
resolved_from acting (none, t) = (unrecorded, t)
resolved_from acting (some s, t) = (run_as acting s (binding_of s), t)

is_person : ChannelIdentity → Bool
is_person person = true
is_person _ = false

in_channel : List Attempt → ResolveInputs → Table → Option String → Resolution × Table
unfolding resolved_from is_person
in_channel attempts i t none = (refused no_channel, t)
in_channel attempts i t (some channel) =
    if not i.eligible
    then (refused ineligible, t)
    else if not (is_person i.identity)
    then (refused shared_identity, t)
    else resolved_from i.acting (begin_worker_session attempts (scope_of i channel) t)

unfoldable pub resolve_worker_owner : List Attempt → ResolveInputs → Table → Resolution × Table
unfolding in_channel
resolve_worker_owner attempts i t = in_channel attempts i t (member_of i.governable_channel)

unfoldable pub end_worker_sessions_for_user : SlackIdentity → Table → Table
end_worker_sessions_for_user who t =
    delete
      (λ r.
        r.team_id == who.team_id
        && (r.member_user_id == some who.user_id || r.worker_user_id == who.user_id))
      t

unfoldable pub sweep_worker_sessions : ℕ → Table → ℕ × Table
sweep_worker_sessions now t =
    (changes (λ r. leb r.expires_at now) t, delete (λ r. leb r.expires_at now) t)
