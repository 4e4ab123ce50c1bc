-- ===== src/Release/Approvers.antt =====
-- internal/releasecenter/approval_policy.go: approver groups and policies in memory.
pub mod Resolution
pub mod Membership
use Prim.Native.String.{◌++◌ as concat}
use ai_etl_platform.Common.{
  ℤ, pos, int_lt, ℕ, ◌+◌, String, str_eq, Option, none, some, List, [], ◌∷◌, Bool, true, false, not,
  ◌&&◌, ◌||◌, if◌then◌else◌, ltb, leb, ◌==◌, Dict, get, put, has, trim_space, equal_fold, is_blank,
  Outcome, ok, err,
}
use ai_etl_platform.Release.Publication.{Actor}
use ai_etl_platform.Release.Center.{ReleaseRequest, RiskLevel, risk_low, risk_rank, other_risk}

pub record ApprovalGroup : Type 0 where
  pub id : String
  pub tenant_id : String
  pub name : String
  pub active : Bool
  pub members : List String

pub record ApprovalPolicy : Type 0 where
  pub id : String
  pub tenant_id : String
  pub knowledge_space_id : String
  pub permission : String
  pub minimum_risk : RiskLevel
  pub required_approvals : ℤ
  pub approver_group_id : String
  pub allow_requester_approval : Bool
  pub priority : ℤ
  pub active : Bool

pub data PolicyFault : Type 0 where
  invalid_approval_policy : PolicyFault
  approval_forbidden : PolicyFault
  membership_check : String → PolicyFault

-- `risk == ""`
abbrev pub is_unset : RiskLevel → Bool
is_unset (other_risk s) = str_eq s ""
is_unset _ = false

unfoldable pub validate_approval_policy : ApprovalPolicy → Option PolicyFault
validate_approval_policy policy =
    if is_blank policy.id
      || is_blank policy.tenant_id
      || is_blank policy.approver_group_id
      || int_lt policy.required_approvals (pos 1)
      || int_lt (pos 2) policy.required_approvals
    then some invalid_approval_policy
    else if not (is_unset policy.minimum_risk) && risk_rank policy.minimum_risk == 0
    then some invalid_approval_policy
    else none

unfoldable pub validate_approval_group : ApprovalGroup → Option PolicyFault
validate_approval_group group =
    if is_blank group.id || is_blank group.tenant_id || is_blank group.name
    then some invalid_approval_policy
    else none

unfoldable pub policy_matches : ApprovalPolicy → String → String → RiskLevel → Bool
policy_matches policy knowledge_space_id permission risk =
    if not policy.active
      || not (str_eq policy.knowledge_space_id "")
        && not (str_eq policy.knowledge_space_id knowledge_space_id)
      || not (str_eq policy.permission "") && not (equal_fold policy.permission permission)
    then false
    else let minimum = if is_unset policy.minimum_risk then risk_low else policy.minimum_risk in
      leb (risk_rank minimum) (risk_rank risk)

unfoldable pub policy_specificity : ApprovalPolicy → ℕ
policy_specificity policy =
    (if not (str_eq policy.knowledge_space_id "") then 4 else 0)
    + (if not (str_eq policy.permission "") then 2 else 0)
    + risk_rank policy.minimum_risk

pub record ApprovalPolicyStore : Type 0 where
  pub groups : Dict ApprovalGroup
  pub policies : Dict ApprovalPolicy
  pub members : Dict (Dict Bool)

-- `tenantID+"\x00"+id`
abbrev pub store_key : String → String → String
store_key tenant_id id = concat (concat tenant_id "\0") id

unfoldable pub put_group :
    ApprovalGroup → ApprovalPolicyStore → Option PolicyFault × ApprovalPolicyStore
put_group group s =
    if has (validate_approval_group group)
    then (some invalid_approval_policy, s)
    else let tenant_id = trim_space group.tenant_id in
      let id = trim_space group.id in
      let trimmed : ApprovalGroup = record group {
        id = id;
        tenant_id = tenant_id;
        name = trim_space group.name;
      } in
      (none, record s { groups = put s.groups (store_key tenant_id id) trimmed })

-- a nil map reads as empty
abbrev pub or_no_members : Option (Dict Bool) → Dict Bool
or_no_members none = []
or_no_members (some m) = m

unfoldable pub set_group_member :
    String → String → String → Bool → ApprovalPolicyStore → Option PolicyFault × ApprovalPolicyStore
set_group_member tenant_id group_id user_id active s =
    if is_blank tenant_id || is_blank group_id || is_blank user_id
    then (some invalid_approval_policy, s)
    else let key = store_key (trim_space tenant_id) (trim_space group_id) in
      if not (has (get s.groups key))
      then (some invalid_approval_policy, s)
      else let members = put (or_no_members (get s.members key)) (trim_space user_id) active in
        (none, record s { members = put s.members key members })

unfoldable pub put_policy :
    ApprovalPolicy → ApprovalPolicyStore → Option PolicyFault × ApprovalPolicyStore
put_policy policy s =
    if has (validate_approval_policy policy)
    then (some invalid_approval_policy, s)
    else let tenant_id = trim_space policy.tenant_id in
      let id = trim_space policy.id in
      let trimmed : ApprovalPolicy = record policy {
        id = id;
        tenant_id = tenant_id;
        approver_group_id = trim_space policy.approver_group_id;
      } in
      (none, record s { policies = put s.policies (store_key tenant_id id) trimmed })

-- `policy.TenantID == tenantID && policyMatches(...)`
unfoldable pub applies : String → String → String → RiskLevel → ApprovalPolicy → Bool
applies tenant_id space permission risk policy =
    str_eq policy.tenant_id tenant_id && policy_matches policy space permission risk

unfoldable pub matching : (ApprovalPolicy → Bool) → Dict ApprovalPolicy → List ApprovalPolicy
matching test [] = []
matching test ((key, policy) ∷ rest) =
    let others = matching test rest in if test policy then policy ∷ others else others

-- the comparison of the stable sort
unfoldable pub outranks : ApprovalPolicy → ApprovalPolicy → Bool
outranks p q =
    if not (policy_specificity p == policy_specificity q)
    then ltb (policy_specificity q) (policy_specificity p)
    else int_lt q.priority p.priority

insert_policy : ApprovalPolicy → List ApprovalPolicy → List ApprovalPolicy
insert_policy p [] = p ∷ []
insert_policy p (q ∷ qs) =
    let rest = insert_policy p qs in if outranks q p then q ∷ rest else p ∷ q ∷ qs

unfoldable pub sort_policies : List ApprovalPolicy → List ApprovalPolicy
unfolding insert_policy
sort_policies [] = []
sort_policies (p ∷ ps) = insert_policy p (sort_policies ps)

abbrev pub first : List ApprovalPolicy → Option ApprovalPolicy
first [] = none
first (p ∷ ps) = some p

-- `none` is the source's `false`. The map is visited in the order of the association list, which
-- stands for any order of Go's `range`.
unfoldable pub resolve_approval_policy :
    String → String → String → RiskLevel → ApprovalPolicyStore → Option ApprovalPolicy
resolve_approval_policy tenant_id space permission risk s =
    first (sort_policies (matching (applies tenant_id space permission risk) s.policies))

-- a missing key of a Boolean map reads as false
abbrev pub or_false : Option Bool → Bool
or_false none = false
or_false (some b) = b

abbrev pub is_active : Option ApprovalGroup → Bool
is_active none = false
is_active (some group) = group.active

unfoldable pub is_approval_group_member : String → String → String → ApprovalPolicyStore → Bool
is_approval_group_member tenant_id group_id user_id s =
    let key = store_key (trim_space tenant_id) (trim_space group_id) in
    if not (is_active (get s.groups key))
    then false
    else or_false (get (or_no_members (get s.members key)) (trim_space user_id))

-- `IsApprovalGroupMember` of the store's interface
abbrev pub MemberCheck : Type 0
MemberCheck = String → String → String → Outcome String Bool

abbrev own_request : Actor → ReleaseRequest → Bool
own_request actor request =
    not request.allow_requester_approval && str_eq request.requested_by actor.user_id

abbrev judge : Actor → ReleaseRequest → Outcome String Bool → Option PolicyFault
judge actor request (err e) = some (membership_check e)
judge actor request (ok member) =
    if not member || own_request actor request then some approval_forbidden else none

unfoldable pub authorize_approval : MemberCheck → Actor → ReleaseRequest → Option PolicyFault
authorize_approval member actor request =
    if is_blank request.approver_group_id
    then if own_request actor request then some approval_forbidden else none
    else judge actor request (member actor.tenant_id request.approver_group_id actor.user_id)
