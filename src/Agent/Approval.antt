-- ===== src/Agent/Approval.antt =====
-- internal/agent/approval.go: `MemoryApprovalStore`. `cloneApproval` is the identity on values.
pub mod Decisions
pub mod Index
pub mod Listing
mod Order
pub mod Tenancy
use Prim.Native.Nat.{Ordering}
use Prim.Native.String.{compare, ◌++◌ as append}
use ai_etl_platform.Common.{
  text_lt, ℕ, ◌==◌, ltb, String, str_eq, Option, none, some, List, [], ◌∷◌, ◌++◌, Bool, true, false,
  ◌&&◌, not, if◌then◌else◌, Dict, get, put, has, Outcome, ok, err,
}
use ai_etl_platform.Agent.Types.{RawMessage}

pub data ApprovalStatus : Type 0 where
  unset pending approved rejected : ApprovalStatus
  other : String → ApprovalStatus

pub data ApprovalFault : Type 0 where
  id_required run_id_required tenant_id_required step_index_required tool_name_required :
      ApprovalFault
  must_be_pending : ApprovalFault
  already_exists not_found : String → ApprovalFault
  unsupported : ApprovalStatus → ApprovalFault
  already_decided : String → ApprovalStatus → ApprovalFault

pub record ApprovalRequest : Type 0 where
  pub id : String
  pub run_id : String
  pub tenant_id : String
  pub step_index : ℕ
  pub tool_name : String
  pub tool_arguments : RawMessage
  pub status : ApprovalStatus
  pub requested_by : String
  pub requested_at : ℕ
  pub decided_by : String
  pub decided_at : ℕ
  pub reason : String

pub record ApprovalStore : Type 0 where
  pub approvals : Dict ApprovalRequest
  pub by_run : Dict (List String)

abbrev pub empty_store : ApprovalStore
empty_store = record { approvals = []; by_run = [] }

abbrev pub is_pending : ApprovalStatus → Bool
is_pending ApprovalStatus.pending = true
is_pending _ = false

-- a status that is not set becomes pending
abbrev pub or_pending : ApprovalStatus → ApprovalStatus
or_pending unset = pending
or_pending s = s

unfoldable pub validate_for_create : ApprovalRequest → Option ApprovalFault
validate_for_create a =
    if str_eq a.id ""
    then some id_required
    else if str_eq a.run_id ""
    then some run_id_required
    else if str_eq a.tenant_id ""
    then some tenant_id_required
    else if a.step_index == 0
    then some step_index_required
    else if str_eq a.tool_name ""
    then some tool_name_required
    else if not (is_pending (or_pending a.status))
    then some must_be_pending
    else none

-- two pairs of a tenant and a run may share a key, where one of the texts holds a colon
unfoldable pub approval_index_key : String → String → String
approval_index_key tenant_id run_id = append tenant_id (append ":" run_id)

abbrev pub or_nil : Option (List String) → List String
or_nil none = []
or_nil (some ids) = ids

unfoldable pub create_approval :
    ApprovalRequest → ApprovalStore → Option ApprovalFault × ApprovalStore
create_approval approval s =
    let a : ApprovalRequest = record approval { status = or_pending approval.status } in
    elim (validate_for_create a) [
      | some e ↦ (some e, s)
      | none ↦
          if has (get s.approvals a.id)
          then (some (already_exists a.id), s)
          else let key = approval_index_key a.tenant_id a.run_id in
            (
              none,
              record {
                approvals = put s.approvals a.id a;
                by_run = put s.by_run key (or_nil (get s.by_run key) ++ a.id ∷ []);
              },
            )
    ]

-- `!ok || approval.TenantID != tenantID`
abbrev of_tenant : String → Option ApprovalRequest → Option ApprovalRequest
of_tenant tenant_id none = none
of_tenant tenant_id (some a) = if str_eq a.tenant_id tenant_id then some a else none

unfoldable pub load_approval :
    String → String → ApprovalStore → Outcome ApprovalFault ApprovalRequest
load_approval tenant_id id s = elim (of_tenant tenant_id (get s.approvals id)) [
  | none ↦ err (not_found id)
  | some a ↦ ok a
]

abbrev pub decided : ApprovalRequest → ApprovalStatus → String → String → ℕ → ApprovalRequest
decided a status decided_by reason decided_at = record a {
  status = status;
  decided_by = decided_by;
  decided_at = decided_at;
  reason = reason;
}

abbrev pub is_decision : ApprovalStatus → Bool
is_decision ApprovalStatus.approved = true
is_decision ApprovalStatus.rejected = true
is_decision _ = false

unfoldable pub decide_approval :
    String
    → String
    → ApprovalStatus
    → String
    → String
    → ℕ
    → ApprovalStore
    → Outcome ApprovalFault ApprovalRequest × ApprovalStore
decide_approval tenant_id id status decided_by reason decided_at s =
    if not (is_decision status)
    then (err (unsupported status), s)
    else elim (of_tenant tenant_id (get s.approvals id)) [
      | none ↦ (err (not_found id), s)
      | some a ↦
          if not (is_pending a.status)
          then (err (already_decided id a.status), s)
          else let a' = decided a status decided_by reason decided_at in
            (ok a', record s { approvals = put s.approvals id a' })
    ]

-- `sortApprovals`: by step index, then time, then id
unfoldable pub comes_before : ApprovalRequest → ApprovalRequest → Bool
unfolding text_lt
comes_before a b =
    if not (a.step_index == b.step_index)
    then ltb a.step_index b.step_index
    else if not (a.requested_at == b.requested_at)
    then ltb a.requested_at b.requested_at
    else text_lt a.id b.id

insert_sorted : ApprovalRequest → List ApprovalRequest → List ApprovalRequest
insert_sorted a [] = a ∷ []
insert_sorted a (b ∷ bs) =
    let rest = insert_sorted a bs in if comes_before b a then b ∷ rest else a ∷ b ∷ bs

unfoldable pub sort_approvals : List ApprovalRequest → List ApprovalRequest
unfolding insert_sorted
sort_approvals [] = []
sort_approvals (a ∷ as') = insert_sorted a (sort_approvals as')

-- the loop over the ids of the run's index entry
abbrev pub of_run : String → String → Option ApprovalRequest → Bool
of_run tenant_id run_id none = false
of_run tenant_id run_id (some a) = str_eq a.tenant_id tenant_id && str_eq a.run_id run_id

keep : String → String → Option ApprovalRequest → List ApprovalRequest → List ApprovalRequest
keep tenant_id run_id none rest = rest
keep tenant_id run_id (some a) rest = if of_run tenant_id run_id (some a) then a ∷ rest else rest

collect : Dict ApprovalRequest → String → String → List String → List ApprovalRequest
collect approvals tenant_id run_id [] = []
collect approvals tenant_id run_id (id ∷ ids) =
    keep tenant_id run_id (get approvals id) (collect approvals tenant_id run_id ids)

unfoldable pub list_run_approvals : String → String → ApprovalStore → List ApprovalRequest
unfolding collect keep
list_run_approvals tenant_id run_id s = sort_approvals (
    collect s.approvals tenant_id run_id
      (or_nil (get s.by_run (approval_index_key tenant_id run_id))))
