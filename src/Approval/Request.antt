-- ===== src/Approval/Request.antt =====
-- The statement of an agent's reason and link, and the recording of a request: requestOn of
-- src/core/approval.ts. Each database statement is a function on the table at the time that it runs.
use vouchr.Base.{
  ℕ, ◌+◌, String, Bool, true, false, ◌&&◌, ◌||◌, List, [], ◌∷◌, Option, none, some, leb, ltb, not,
  is_some, if◌then◌else◌,
}
use vouchr.Base.Eq.{◌==◌, string_eq, option_eq}
use vouchr.Base.Table.{select, update}
use vouchr.Base.Text.{len, is_blank, has_reason_controls}
use vouchr.Approval.{
  ApprovalKey, Columns, Row, Table, status_eq, pending, denied, grant_eq, thread, same_parties,
  same_action, match_sql, key_params, pending_interaction_ttl_us, max_approval_path_bytes,
}

abbrev pub max_reason_bytes : ℕ
max_reason_bytes = 500

pub record ApprovalStatement : Type 0 where
  pub reason : Option String
  pub link : Option String

-- assertReason, of a text
unfoldable pub is_reason : String → Bool
is_reason s = not (is_blank s) && leb (len s) max_reason_bytes && not (has_reason_controls s)

abbrev reason_ok : Option String → Bool
reason_ok none = true
reason_ok (some s) = is_reason s

pub record Inserted : Type 0 where
  pub id : String
  pub action_key : String
  pub columns : Columns
  pub statement : ApprovalStatement
  pub backchannel : Bool

abbrev pub fresh_row : Inserted → ℕ → Row
fresh_row i now = record {
  id = i.id;
  action_key = i.action_key;
  columns = i.columns;
  status = pending;
  approved_by = none;
  created_at = now;
  expires_at = now + pending_interaction_ttl_us;
  reason = i.statement.reason;
  link = i.statement.link;
  backchannel = i.backchannel;
  delivery_token = none;
  delivery_lease_expires_at = 0;
  delivered_at = none;
  delivery_audience = none;
}

-- DO UPDATE SET …: the parties and `delegated` of the stored row stay.
abbrev pub revived_columns : Columns → Columns → Columns
revived_columns old new = record old {
  method = new.method;
  origin = new.origin;
  host = new.host;
  path = new.path;
  query_hash = new.query_hash;
  governable_channel = new.governable_channel;
}

abbrev pub revive : Inserted → ℕ → Row → Row
revive i now r = record (fresh_row i now) { columns = revived_columns r.columns i.columns }

-- The WHERE of ON CONFLICT(action_key) DO UPDATE.
unfoldable pub may_revive : Inserted → ℕ → Row → Bool
unfolding same_parties same_action
may_revive i now r =
    same_parties r.columns i.columns
    && (r.columns.grant == thread || same_action r.columns i.columns)
    && (leb r.expires_at now || r.status == denied)

-- INSERT … ON CONFLICT(action_key) DO UPDATE … RETURNING id: whether it returned a row
unfoldable pub insert_request : Inserted → ℕ → Table → Bool × Table
unfolding may_revive
insert_request i now t =
    if is_some (select (λ (r : Row). r.action_key == i.action_key) t)
    then (
      is_some (select (λ (r : Row). r.action_key == i.action_key && may_revive i now r) t),
      update (λ (r : Row). r.action_key == i.action_key && may_revive i now r) (revive i now) t,
    )
    else (true, fresh_row i now ∷ t)

-- The id of the live row of the action.
unfoldable pub find_live : String → Columns → ℕ → Table → Option String
unfolding match_sql
find_live action_key columns now t =
    elim (select
      (λ (r : Row).
        r.action_key == action_key
        && match_sql r.columns columns
        && not (r.status == denied)
        && ltb now r.expires_at)
      t) [ none ↦ none | some r ↦ some r.id ]

abbrev coalesce : Option String → Option String → Option String
coalesce none b = b
coalesce (some a) b = some a

abbrev pub with_statement : ApprovalStatement → Row → Row
with_statement s r = record r { reason = coalesce r.reason s.reason; link = coalesce r.link s.link }

unfoldable pub adopt_statement : ApprovalStatement → String → Table → Table
adopt_statement s id t =
    if is_some s.reason || is_some s.link
    then update (λ (r : Row). r.id == id && r.status == pending && not (is_some r.delivered_at))
        (with_statement s) t
    else t

pub data Requested : Type 0 where
  requested : String → Bool → Requested
  not_recorded : Requested

-- One attempt: none to try again.
found : ApprovalStatement → Option String → Table → Option Requested × Table
found s none t = (none, t)
found s (some id) t = (some (requested id false), adopt_statement s id t)

attempt : Inserted → ℕ → ℕ → Bool × Table → Option Requested × Table
unfolding found
attempt i now later (true, t) = (some (requested i.id true), t)
attempt i now later (false, t) = found i.statement (find_live i.action_key i.columns later t) t

retry : Option Requested × Table → (Table → Requested × Table) → Requested × Table
retry (some r, t) next = (r, t)
retry (none, t) next = next t

-- The attempts, each with its new id and the times of its two statements.
pub request_attempts : Inserted → List (String × ℕ × ℕ) → Table → Requested × Table
unfolding attempt retry
request_attempts i [] t = (not_recorded, t)
request_attempts i ((id, now, later) ∷ rest) t =
    let j = record i { id = id } in
    let next = request_attempts i rest in retry (attempt j now later (insert_request j now t)) next

pub data RequestError : Type 0 where
  path_too_long bad_scope bad_reason : RequestError

pub data RequestResult : Type 0 where
  refused : RequestError → RequestResult
  answered : Requested × Table → RequestResult

request_with :
    String
    → ApprovalStatement
    → Bool
    → List (String × ℕ × ℕ)
    → Table
    → Option Columns
    → RequestResult
unfolding request_attempts
request_with action_key s backchannel attempts t none = refused bad_scope
request_with action_key s backchannel attempts t (some columns) = answered (
    request_attempts
      (record {
        id = "";
        action_key = action_key;
        columns = columns;
        statement = s;
        backchannel = backchannel;
      })
      attempts t)

-- requestOn, of a key whose credential id is an interaction id and a link that is canonical
unfoldable pub request_on :
    String → ApprovalKey → ApprovalStatement → Bool → List (String × ℕ × ℕ) → Table → RequestResult
unfolding request_with key_params
request_on action_key k s backchannel attempts t =
    if leb (len k.path) max_approval_path_bytes
    then (if reason_ok s.reason
        then request_with action_key s backchannel attempts t (key_params k)
        else refused bad_reason)
    else refused path_too_long
