-- ===== src/Release/Center.antt =====
-- internal/releasecenter/releasecenter.go: the release policy, the overview, and the binding of a
-- review to the candidate it was made for.
pub mod Rules
use ai_etl_platform.Common.{
  ℕ, String, str_eq, Option, none, some, List, [], ◌∷◌, ◌++◌, Bool, true, false, not, ◌&&◌, ◌||◌,
  if◌then◌else◌, ltb, ◌==◌, is_nil, trim_space, to_lower, equal_fold, is_blank,
}
use ai_etl_platform.Release.Publication.{Candidate, blocked}

-- the string constants, and any other string
pub data RiskLevel : Type 0 where
  risk_low : RiskLevel
  risk_medium : RiskLevel
  risk_high : RiskLevel
  risk_critical : RiskLevel
  other_risk : String → RiskLevel

pub data RequestState : Type 0 where
  request_approval_pending : RequestState
  request_manual_exception : RequestState
  request_needs_info : RequestState
  request_rejected : RequestState
  request_published : RequestState
  other_state : String → RequestState

abbrev pub risk_rank : RiskLevel → ℕ
risk_rank risk_critical = 4
risk_rank risk_high = 3
risk_rank risk_medium = 2
risk_rank risk_low = 1
risk_rank (other_risk _) = 0

pub record PolicyInput : Type 0 where
  pub permission : String
  pub risk : RiskLevel
  pub agent_available : Bool

pub record PolicyDecision : Type 0 where
  pub required_approvals : ℕ
  pub state : RequestState
  pub manual_exception : Bool

-- `in.Risk == RiskHigh || in.Risk == RiskCritical`
abbrev pub is_severe : RiskLevel → Bool
is_severe risk_high = true
is_severe risk_critical = true
is_severe _ = false

unfoldable pub evaluate_policy : PolicyInput → PolicyDecision
evaluate_policy in_ =
    let permission = to_lower (trim_space in_.permission) in
    let required = if str_eq permission "confidential" then 2 else 1 in
    let required' = if is_severe in_.risk then 2 else required in
    if not in_.agent_available
    then record {
      required_approvals = required';
      state = request_manual_exception;
      manual_exception = true;
    }
    else record {
      required_approvals = required';
      state = request_approval_pending;
      manual_exception = false;
    }

-- the fields that the rules below read
pub record ReviewReport : Type 0 where
  pub id : String
  pub document_id : String
  pub document_version_id : String
  pub generation_id : String
  pub release_revision : ℕ
  pub status : String
  pub recommendation : String
  pub expires_at : ℕ

pub record ReleaseRequest : Type 0 where
  pub id : String
  pub tenant_id : String
  pub document_id : String
  pub candidate : Candidate
  pub review_id : String
  pub policy_id : String
  pub approver_group_id : String
  pub allow_requester_approval : Bool
  pub required_approvals : ℕ
  pub state : RequestState
  pub requested_by : String
  pub created_at : ℕ
  pub updated_at : ℕ

pub record OverviewInput : Type 0 where
  pub document_id : String
  pub file_name : String
  pub permission : String
  pub ingestion_status : String
  pub doc_status : String
  pub owner : String
  pub effective_date_present : Bool
  pub knowledge_space_id : String
  pub publication_status : String
  pub deletion_status : String
  pub candidate_ready : Bool
  pub replacement_pending : Bool
  pub review_status : String
  pub request_state : RequestState
  pub review_id : String
  pub required_approvals : ℕ
  pub approved_decisions : ℕ
  pub request_id : String

pub record OverviewItem : Type 0 where
  pub document_id : String
  pub file_name : String
  pub permission : String
  pub knowledge_space_id : String
  pub state : String
  pub blockers : List String
  pub request_id : String
  pub review_id : String
  pub request_state : RequestState
  pub required_approvals : ℕ
  pub approved_decisions : ℕ

abbrev item : OverviewInput → String → List String → OverviewItem
item in_ state blockers = record {
  document_id = in_.document_id;
  file_name = in_.file_name;
  permission = in_.permission;
  knowledge_space_id = in_.knowledge_space_id;
  state = state;
  blockers = blockers;
  request_id = in_.request_id;
  review_id = in_.review_id;
  request_state = in_.request_state;
  required_approvals = in_.required_approvals;
  approved_decisions = in_.approved_decisions;
}

abbrev pub is_published : RequestState → Bool
is_published request_published = true
is_published _ = false

abbrev pub is_rejected : RequestState → Bool
is_rejected request_rejected = true
is_rejected _ = false

abbrev pub is_awaiting : RequestState → Bool
is_awaiting request_approval_pending = true
is_awaiting request_manual_exception = true
is_awaiting _ = false

abbrev pub is_manual_exception : RequestState → Bool
is_manual_exception request_manual_exception = true
is_manual_exception _ = false

abbrev pub is_incomplete : RequestState → Bool
is_incomplete request_needs_info = true
is_incomplete _ = false

unfoldable pub snapshot_blockers : OverviewInput → List String
snapshot_blockers in_ =
    blocked (str_eq in_.knowledge_space_id "" || str_eq in_.knowledge_space_id "user-uploads")
      "managed_space_required"
    ++ blocked (not (str_eq in_.ingestion_status "completed")) "ingestion_not_completed"
    ++ blocked (not (str_eq in_.doc_status "") && not (str_eq in_.doc_status "active"))
        "document_not_active"
    ++ blocked (str_eq in_.deletion_status "pending") "document_deletion_pending"
    ++ blocked (is_blank in_.owner) "owner_required"
    ++ blocked (not in_.effective_date_present) "effective_date_required"
    ++ blocked (not in_.candidate_ready) "exact_candidate_unavailable"

unfoldable pub project_overview : OverviewInput → OverviewItem
project_overview in_ =
    if not in_.replacement_pending
      && (str_eq in_.publication_status "published" || is_published in_.request_state)
    then item in_ "published" []
    else if is_rejected in_.request_state
    then item in_ "rejected" []
    else if str_eq in_.ingestion_status "queued" || str_eq in_.ingestion_status "processing"
    then item in_ "checking" ("ingestion_not_completed" ∷ [])
    else if is_awaiting in_.request_state
    then item in_ "approval_pending" []
    else if is_incomplete in_.request_state
    then item in_ "needs_info" (
        (if str_eq in_.review_status "expired"
          then "review_expired"
          else "exact_candidate_unavailable")
        ∷ [])
    else if str_eq in_.review_status "failed"
    then item in_ "review_blocked" ("agent_review_unavailable" ∷ [])
    else let blockers = snapshot_blockers in_ in
      item in_ (if is_nil blockers then "checking" else "needs_info") blockers

pub data ReviewFault : Type 0 where
  stale_review : ReviewFault
  invalid_review : ReviewFault

-- the zero time is 0
unfoldable pub review_is_expired : ReviewReport → ℕ → Bool
review_is_expired report now =
    equal_fold (trim_space report.status) "expired"
    || not (report.expires_at == 0) && not (ltb now report.expires_at)

unfoldable pub validate_review_binding : ReviewReport → Candidate → ℕ → Option ReviewFault
validate_review_binding report candidate now =
    if not (str_eq report.document_id candidate.document_id)
      || not (str_eq report.document_version_id candidate.document_version_id)
      || not (str_eq report.generation_id candidate.generation_id)
      || not (report.release_revision == candidate.release_revision)
    then some stale_review
    else if str_eq report.id "" || str_eq report.status "" || str_eq report.recommendation ""
    then some invalid_review
    else if review_is_expired report now
    then some stale_review
    else none
