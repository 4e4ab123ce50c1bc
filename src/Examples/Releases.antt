-- ===== src/Examples/Releases.antt =====
-- A document on its way to being published.
use ai_etl_platform.Common.{
  pos, ℕ, ◌≡◌, inl, inr, refl, String, [], ◌∷◌, none, some, true, false, ok, arith, get, eq_iff,
  trim_space, equal_fold, is_blank,
}
use ai_etl_platform.Release.Publication.{
  Actor, Candidate, Document, DocumentReader, CandidateReader, Publisher, Assessment, assess,
  publish_approved, assessment, document_blockers,
}
use ai_etl_platform.Release.Publication.Readiness.{
  IsReady, assess-IsReady_iff, publish_requested_iff, publish_approved-assess,
}
use ai_etl_platform.Release.Center.{
  request_approval_pending, ReleaseRequest, risk_low, risk_high, ReviewReport,
  validate_review_binding, OverviewInput, request_needs_info,
}
use ai_etl_platform.Release.Center.Rules.{validate_review_binding_iff}
use ai_etl_platform.Release.Approvers.{
  ApprovalGroup, ApprovalPolicy, ApprovalPolicyStore, set_group_member, is_approval_group_member,
  authorize_approval, resolve_approval_policy, store_key,
}
use ai_etl_platform.Release.Approvers.Resolution.{Applies, Resolves, resolve_approval_policy_lem}
use ai_etl_platform.Release.Approvers.Membership.{
  authorize_approval_iff, is_approval_group_member-set_group_member,
}

abbrev pub admin : Actor
admin = record { tenant_id = " t "; user_id = "bob"; role = "Admin" }

abbrev handbook : Document
handbook = record {
  doc_id = "d1";
  tenant_id = "t";
  knowledge_space_id = "hr";
  status = "completed";
  doc_status = "active";
  publication_status = "draft";
  owner = "alice";
  effective_date = 50;
}

abbrev pub candidate : Candidate
candidate = record {
  document_id = "d1";
  document_version_id = "v2";
  generation_id = "g2";
  expected_chunk_count = 7;
  expected_chunk_digest = "abc";
  release_revision = 3;
}

abbrev pub documents : DocumentReader
documents = λ tenant id. ok (some handbook)

abbrev pub candidates : CandidateReader
candidates = λ tenant id. ok (some candidate)

handbook-IsReady : IsReady handbook candidate
unfolding is_blank trim_space
handbook-IsReady = record {
  managed = λ e. absurd (ground (arith, e, eq_iff "hr" "user-uploads"));
  placed = refl;
  ingested = refl;
  active = inr refl;
  publishable = inl refl;
  owned = refl;
  dated = omega arith;
  valid = refl;
  same = refl;
}

assess_example :
    (a : Assessment) × (assess (some documents) (some candidates) admin "d1" ≡ ok a)
    × (a.ready ≡ true)
    × (a.candidate ≡ some candidate)
unfolding is_blank trim_space
assess_example =
    (assess-IsReady_iff documents candidates admin "d1" candidate).0.1
      (handbook, refl, refl, refl, refl, refl, handbook-IsReady)

abbrev pub publisher : Publisher
publisher = λ actor c key. none

publish_requested_example :
    (publish_approved (some publisher) admin candidate "key").1
    ≡ some (record { actor = admin; candidate = candidate; idempotency_key = "key" })
unfolding is_blank trim_space equal_fold
publish_requested_example =
    (publish_requested_iff (some publisher) admin candidate "key"
        (record { actor = admin; candidate = candidate; idempotency_key = "key" })).1
      (refl, refl, refl, refl, refl)

abbrev one : ℕ
one = 1

abbrev overview : OverviewInput
overview = record {
  document_id = "d1";
  file_name = "handbook.pdf";
  permission = "internal";
  ingestion_status = "completed";
  doc_status = "active";
  owner = "alice";
  effective_date_present = true;
  knowledge_space_id = "hr";
  publication_status = "published";
  deletion_status = "";
  candidate_ready = true;
  replacement_pending = false;
  review_status = "";
  request_state = request_needs_info;
  review_id = "";
  required_approvals = 1;
  approved_decisions = 1;
  request_id = "";
}

abbrev pub report : ReviewReport
report = record {
  id = "w1";
  document_id = "d1";
  document_version_id = "v2";
  generation_id = "g2";
  release_revision = 3;
  status = "completed";
  recommendation = "publish";
  expires_at = 200;
}

validate_review_binding_example : validate_review_binding report candidate 199 ≡ none
unfolding equal_fold trim_space
validate_review_binding_example = (validate_review_binding_iff report candidate 199).1 (
  refl,
  refl,
  refl,
  refl,
  (λ e. absurd (ground (arith, e, eq_iff "w1" ""))),
  (λ e. absurd (ground (arith, e, eq_iff "completed" ""))),
  (λ e. absurd (ground (arith, e, eq_iff "publish" ""))),
  refl,
  inr (omega arith),
)

abbrev policy : String → String → ℕ → ApprovalPolicy
policy id space priority = record {
  id = id;
  tenant_id = "t";
  knowledge_space_id = space;
  permission = "";
  minimum_risk = risk_low;
  required_approvals = pos 2;
  approver_group_id = "g";
  allow_requester_approval = false;
  priority = pos priority;
  active = true;
}

abbrev approvers : ApprovalGroup
approvers = record { id = "g"; tenant_id = "t"; name = "approvers"; active = true; members = [] }

abbrev policy_store : ApprovalPolicyStore
policy_store = record {
  groups = (store_key "t" "g", approvers) ∷ [];
  policies =
      ("p1", policy "p1" "" 9) ∷ ("p2", policy "p2" "hr" 1) ∷ ("p3", policy "p3" "hr" 5) ∷ [];
  members = [];
}

resolve_approval_policy_example :
    Resolves
      (Applies "t" "hr" "internal" risk_high)
      policy_store.policies
      (resolve_approval_policy "t" "hr" "internal" risk_high policy_store)
resolve_approval_policy_example =
    resolve_approval_policy_lem "t" "hr" "internal" risk_high policy_store

abbrev pub release_request : ReleaseRequest
release_request = record {
  id = "q1";
  tenant_id = "t";
  document_id = "d1";
  candidate = candidate;
  review_id = "w1";
  policy_id = "p3";
  approver_group_id = "g";
  allow_requester_approval = false;
  required_approvals = 2;
  state = request_approval_pending;
  requested_by = "alice";
  created_at = 10;
  updated_at = 10;
}

authorize_approval_example : authorize_approval (λ t g u. ok true) admin release_request ≡ none
authorize_approval_example =
    (authorize_approval_iff (λ t g u. ok true) admin release_request).1
      (inr refl, inr (λ e. absurd (ground (arith, e, eq_iff "alice" "bob"))))

set_group_member_example :
    is_approval_group_member "t" "g" "bob" (set_group_member "t" "g" " bob" true policy_store).1
    ≡ true
unfolding set_group_member is_blank trim_space get
set_group_member_example =
    is_approval_group_member-set_group_member "t" "g" " bob" "t" "g" "bob" true policy_store refl

abbrev assessed : Assessment
assessed = record {
  document_id = "d1";
  knowledge_space_id = "hr";
  ready = true;
  blockers = [];
  candidate = some candidate;
}

publish_approved-assess_example :
    (publish_approved (some publisher) admin candidate "key").1
    ≡ some (record { actor = admin; candidate = candidate; idempotency_key = "key" })
unfolding assess assessment document_blockers is_blank trim_space equal_fold
publish_approved-assess_example =
    publish_approved-assess documents candidates publisher admin "d1" "key" candidate {a = assessed}
      refl refl refl refl
