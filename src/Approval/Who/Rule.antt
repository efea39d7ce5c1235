-- ===== src/Approval/Who/Rule.antt =====
-- Which rule holds for whom.
use vouchr.Base.{◌≡◌, ◌≢◌, inl, inr, ◌⊎◌, true, Option, arith, Bool-cases}
use text.Mathlib.TextEquality.{eq_iff}
use vouchr.Base.Eq.{◌==◌, string_eq}
use vouchr.Owner.{user, kind_eq, kind_beq_iff}
use vouchr.Approval.Who.{Approver, member, Asked, delegation_of, approval_decider, decider_of}

-- Where a worker's request names a person as the owner of its credential: the rule is that another
-- member decides, or the one who decides is not the worker.
pub approval_decider-delegated :
    (a : Option Approver) (k : Asked)
    → k.delegated ≡ true
    → k.owner_kind ≡ user
    → ((approval_decider a k).approver ≡ member) ⊎ ((approval_decider a k).decider ≢ k.user_id)
unfolding approval_decider delegation_of decider_of
approval_decider-delegated a k d u = elim (Bool-cases (k.owner_id == k.user_id)) [
  | inl own ↦ inl (ground (arith, kind_beq_iff k.owner_kind user))
  | inr other ↦ inr (ground (arith, kind_beq_iff k.owner_kind user, eq_iff k.owner_id k.user_id))
]
