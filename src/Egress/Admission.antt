-- ===== src/Egress/Admission.antt =====
-- Everything that `fetch` of src/core/injector.ts decides before it reads the secret, in its order:
-- method, statement, gate, bound of the path, authority of the handle, rate, credential, approval. The
-- state is the rate limiter's store and the table of approvals.
pub mod Proceeds
use vouchr.Base.{
  ℕ, ◌*◌, String, Bool, true, false, ◌&&◌, List, [], ◌∷◌, Option, none, some, get_or, leb, ltb, not,
  if◌then◌else◌,
}
use vouchr.Base.Eq.{◌==◌, string_eq, option_eq}
use vouchr.Base.Text.{len}
use vouchr.RateLimit.{Taken, take}
use vouchr.RateLimit
use vouchr.Approval.{ApprovalKey, Columns, Row, Table, key_params, max_approval_path_bytes}
use vouchr.Approval.Who.{Asked, Delegation, unbound, delegation_of}
use vouchr.Approval.Request.{
  ApprovalStatement, Requested, RequestError, RequestResult, is_reason, request_on,
}
use vouchr.Approval.Request
use vouchr.Approval.Grant.{Check, Spent, nothing, spent, authorization_changed, consume_audited}
use vouchr.Egress.Method.{canonical_method}
use vouchr.Egress.Gate.{
  Url, Provider, ApprovalRule, RateRule, Handle, Gate, egress_gate, approval_needed, approval_key,
}

pub record State : Type 0 where
  pub rates : RateLimit.Store
  pub approvals : Table

-- What the handle's collaborators answer in the course of one call, and its clocks. The audit rows that
-- a refusal leaves are not in the state.
pub record Answers : Type 0 where
  -- useStillValid, true where there is none
  pub use_still_valid : Bool
  -- the credential that bindCredential pins
  pub bound : Option String
  -- the vault's live credential, read under the locks of the spend
  pub live_id : Option String
  pub approvals_wired : Bool
  -- the fences and the validation of the spend
  pub check : Row → Check
  -- whether the locked checks of a request hold
  pub request_valid : Bool
  -- the ids and times of the request's attempts
  pub attempts : List (String × ℕ × ℕ)
  -- credentialLockKey(owner, provider)
  pub lock_key : String
  pub now_ms : ℕ
  pub now_us : ℕ
  pub later_us : ℕ

-- The digests: queryDigest and approvalActionKey.
pub record Digests : Type 0 where
  pub query : String → String
  pub action : ApprovalKey → String

pub data Stop : Type 0 where
  invalid_method invalid_statement path_too_large use_changed no_connection no_store : Stop
  credential_changed access_changed invalid_scope : Stop
  refused : Gate → Stop
  rate_limited : ℕ → Stop
  approval_required : Requested → Stop
  bad_request : RequestError → Stop

pub data Admission : Type 0 where
  stopped : Stop → Admission
  -- the secret is read, with the grant that was spent
  proceeds : Option Row → Admission

abbrev pub asked_of : ApprovalKey → Asked
asked_of k = record {
  delegated = k.delegated;
  owner_kind = k.owner_kind;
  owner_id = k.owner_id;
  user_id = k.user_id;
  governable_channel = k.governable_channel;
}

statement_ok : Option String → Bool
statement_ok none = true
statement_ok (some r) = is_reason r

module _ (dig : Digests) (a : Answers) where
  requested_with : State → RequestResult → Admission × State
  requested_with s (RequestResult.refused e) = (stopped (bad_request e), s)
  requested_with s (RequestResult.answered (r, t)) =
      (stopped (approval_required r), record s { approvals = t })

  ask : ApprovalKey → ApprovalStatement → State → Admission × State
  unfolding requested_with
  ask k statement s =
      if a.request_valid
      then requested_with s
          (request_on (dig.action k) k statement k.delegated a.attempts s.approvals)
      else (stopped access_changed, s)

  spent_with : ApprovalKey → ApprovalStatement → State → Spent × Table → Admission × State
  unfolding ask
  spent_with k statement s (nothing, t) = ask k statement (record s { approvals = t })
  spent_with k statement s (spent r, t) = (proceeds (some r), record s { approvals = t })
  spent_with k statement s (authorization_changed, t) =
      (stopped access_changed, record s { approvals = t })

  spend_live : ApprovalKey → ApprovalStatement → State → Option Columns → Admission × State
  unfolding spent_with
  spend_live k statement s none = (stopped invalid_scope, s)
  spend_live k statement s (some c) =
      spent_with k statement s
        (consume_audited (dig.action k) c a.check a.now_us a.later_us s.approvals)

  -- consumeAudited, and requestAudited where it finds nothing; an unbound worker has nothing to spend
  spend : ApprovalKey → ApprovalStatement → State → Delegation → Admission × State
  unfolding spend_live ask
  spend k statement s unbound = ask k statement s
  spend k statement s _ =
      if a.live_id == some k.credential_id
      then spend_live k statement s (key_params k)
      else (stopped credential_changed, s)

  module _ (h : Handle) (u : Url) (statement : ApprovalStatement) where
    approve_with : String → String → State → Option ApprovalRule → Admission × State
    unfolding spend
    approve_with method credential_id s none = (proceeds none, s)
    approve_with method credential_id s (some rule) =
        if approval_needed (some rule) method u.pathname
        then (if a.approvals_wired
            then spend (approval_key dig.query h u method credential_id rule) statement s
                (delegation_of (asked_of (approval_key dig.query h u method credential_id rule)))
            else (stopped no_store, s))
        else (proceeds none, s)

    bind_with : String → State → Option String → Admission × State
    unfolding approve_with
    bind_with method s none = (stopped no_connection, s)
    bind_with method s (some c) = approve_with method c s h.provider.approval

    taken_with : String → State → Taken × RateLimit.Store → Admission × State
    unfolding bind_with
    taken_with method s (Taken.ok, rates) = bind_with method (record s { rates = rates }) a.bound
    taken_with method s (Taken.retry_after ms, rates) =
        (stopped (rate_limited ms), record s { rates = rates })

    -- takeRateBudget: a token of the bucket is 60,000 of the store's units
    rate_with : String → State → Option RateRule → Admission × State
    unfolding taken_with
    rate_with method s none = bind_with method s a.bound
    rate_with method s (some rl) = taken_with method s (
        take a.now_ms a.lock_key 60000 rl.per_minute (get_or rl.burst rl.per_minute * 60000)
          s.rates)

    valid_with : String → State → Admission × State
    unfolding rate_with
    valid_with method s =
        if approval_needed h.provider.approval method u.pathname
          && ltb max_approval_path_bytes (len u.pathname)
        then (stopped path_too_large, s)
        else if a.use_still_valid
        then rate_with method s h.provider.rate_limit
        else (stopped use_changed, s)

    gate_with : String → State → Gate → Admission × State
    unfolding valid_with
    gate_with method s Gate.allowed = valid_with method s
    gate_with method s Gate.invalid_url = (stopped (refused Gate.invalid_url), s)
    gate_with method s (Gate.denied r) = (stopped (refused (Gate.denied r)), s)

    method_with : State → Option String → Admission × State
    unfolding gate_with statement_ok
    method_with s none = (stopped invalid_method, s)
    method_with s (some method) =
        if statement_ok statement.reason
        then gate_with method s (egress_gate h.provider u method)
        else (stopped invalid_statement, s)

    -- fetch, up to `this.vault.get`
    unfoldable pub admit : String → State → Admission × State
    unfolding method_with
    admit method s = method_with s (canonical_method method)
