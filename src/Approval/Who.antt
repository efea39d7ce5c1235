-- ===== src/Approval/Who.antt =====
-- Who decides a request: effectiveApprover, delegationOf and approvalDecider of src/core/approval.ts.
pub mod Rule
use vouchr.Base.{String, Bool, true, false, ◌&&◌, Option, none, some, if◌then◌else◌}
use vouchr.Base.Eq.{◌==◌, string_eq}
use vouchr.Owner.{OwnerKind, user, channel, kind_eq}

pub data Approver : Type 0 where
  self member : Approver

pub data Delegation : Type 0 where
  ordinary unbound bound : Delegation

-- The fields that delegationOf and approvalDecider read.
pub record Asked : Type 0 where
  pub delegated : Bool
  pub owner_kind : OwnerKind
  pub owner_id : String
  pub user_id : String
  pub governable_channel : Option String

rule_of : Option Approver → OwnerKind → Approver
rule_of (some a) kind = a
rule_of none channel = member
rule_of none user = self

degrade : Approver → Option String → Approver
degrade member none = self
degrade a _ = a

unfoldable pub effective_approver : Option Approver → OwnerKind → Option String → Approver
unfolding rule_of degrade
effective_approver approver kind governable = degrade (rule_of approver kind) governable

unfoldable pub delegation_of : Asked → Delegation
delegation_of k =
    if k.delegated
    then (if k.owner_kind == user && k.owner_id == k.user_id then unbound else bound)
    else ordinary

pub record Decider : Type 0 where
  pub approver : Approver
  pub decider : String

decider_of : Option Approver → Asked → Delegation → Decider
decider_of approver k unbound = record { approver = member; decider = k.user_id }
decider_of approver k bound = record { approver = self; decider = k.owner_id }
decider_of approver k ordinary = record {
  approver = effective_approver approver k.owner_kind k.governable_channel;
  decider = k.user_id;
}

unfoldable pub approval_decider : Option Approver → Asked → Decider
unfolding decider_of
approval_decider approver k = decider_of approver k (delegation_of k)
