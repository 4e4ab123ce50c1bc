-- ===== src/Release/Publication.antt =====
-- internal/publicationworkflow/workflow.go: readiness of a document, and its publication. The
-- readers and the publisher are interfaces in the source and arguments here.
pub mod Readiness
use ai_etl_platform.Common.{
  ℕ, String, str_eq, Option, none, some, List, [], ◌∷◌, ◌++◌, Bool, not, ◌&&◌, ◌||◌, if◌then◌else◌,
  ltb, ◌==◌, is_nil, true, Outcome, ok, err, trim_space, equal_fold, is_blank,
}

pub record Actor : Type 0 where
  pub tenant_id : String
  pub user_id : String
  pub role : String

pub record Candidate : Type 0 where
  pub document_id : String
  pub document_version_id : String
  pub generation_id : String
  pub expected_chunk_count : ℕ
  pub expected_chunk_digest : String
  pub release_revision : ℕ

pub record Assessment : Type 0 where
  pub document_id : String
  pub knowledge_space_id : String
  pub ready : Bool
  pub blockers : List String
  pub candidate : Option Candidate

pub record PublicationResult : Type 0 where
  pub document_id : String
  pub publication_status : String

-- the fields of `docstore.Document` that the workflow reads; the zero time is 0
pub record Document : Type 0 where
  pub doc_id : String
  pub tenant_id : String
  pub knowledge_space_id : String
  pub status : String
  pub doc_status : String
  pub publication_status : String
  pub owner : String
  pub effective_date : ℕ

pub data WorkflowFault : Type 0 where
  not_found : WorkflowFault
  admin_required : WorkflowFault
  no_publisher : WorkflowFault
  not_configured : WorkflowFault
  invalid_candidate : WorkflowFault
  key_required : WorkflowFault
  external : String → WorkflowFault

abbrev pub DocumentReader : Type 0
DocumentReader = String → String → Outcome String (Option Document)

abbrev pub CandidateReader : Type 0
CandidateReader = String → String → Outcome String (Option Candidate)

-- the error that `Publish` returns, if any
abbrev pub Publisher : Type 0
Publisher = Actor → Candidate → String → Option String

abbrev pub valid_candidate : Candidate → Bool
valid_candidate candidate =
    not (is_blank candidate.document_id)
    && not (is_blank candidate.document_version_id)
    && not (is_blank candidate.generation_id)
    && ltb 0 candidate.expected_chunk_count
    && not (is_blank candidate.expected_chunk_digest)
    && ltb 0 candidate.release_revision

-- what a publication asked the publisher for
pub record Request : Type 0 where
  pub actor : Actor
  pub candidate : Candidate
  pub idempotency_key : String

abbrev published : Candidate → Option String → Outcome WorkflowFault PublicationResult
published candidate (some e) = err (external e)
published candidate none =
    ok (record { document_id = candidate.document_id; publication_status = "published" })

abbrev publish_with :
    Publisher
    → Actor
    → Candidate
    → String
    → Outcome WorkflowFault PublicationResult × Option Request
publish_with publisher actor candidate key =
    if not (valid_candidate candidate)
    then (err invalid_candidate, none)
    else if is_blank key
    then (err key_required, none)
    else (
      published candidate (publisher actor candidate key),
      some (record { actor = actor; candidate = candidate; idempotency_key = key }),
    )

-- `PublishApproved`, with the call of the publisher that it made
unfoldable pub publish_approved :
    Option Publisher
    → Actor
    → Candidate
    → String
    → Outcome WorkflowFault PublicationResult × Option Request
publish_approved publisher actor candidate key =
    if not (equal_fold (trim_space actor.role) "admin")
    then (err admin_required, none)
    else elim publisher [
      | none ↦ (err no_publisher, none)
      | some p ↦ publish_with p actor candidate key
    ]

-- `if condition { blockers = append(blockers, name) }`
abbrev pub blocked : Bool → String → List String
blocked condition name = if condition then name ∷ [] else []

abbrev pub no_candidate : Document → Option Candidate → Bool
no_candidate doc none = true
no_candidate doc (some candidate) =
    not (valid_candidate candidate) || not (str_eq candidate.document_id doc.doc_id)

unfoldable pub document_blockers : Document → Option Candidate → List String
document_blockers doc candidate =
    blocked (str_eq doc.knowledge_space_id "user-uploads" || is_blank doc.knowledge_space_id)
      "managed_space_required"
    ++ blocked (not (str_eq doc.status "completed")) "ingestion_not_completed"
    ++ blocked (not (str_eq doc.doc_status "") && not (str_eq doc.doc_status "active"))
        "document_not_active"
    ++ blocked
        (not (str_eq doc.publication_status "draft")
          && not (str_eq doc.publication_status "published"))
        "document_not_publishable"
    ++ blocked (is_blank doc.owner) "owner_required"
    ++ blocked (doc.effective_date == 0) "effective_date_required"
    ++ blocked (no_candidate doc candidate) "exact_candidate_unavailable"

unfoldable pub assessment : Document → Option Candidate → Assessment
unfolding document_blockers
assessment doc candidate =
    let blockers = document_blockers doc candidate in
    record {
      document_id = doc.doc_id;
      knowledge_space_id = doc.knowledge_space_id;
      ready = is_nil blockers;
      blockers = blockers;
      candidate = if is_nil blockers then candidate else none;
    }

abbrev assess_candidate :
    Document → Outcome String (Option Candidate) → Outcome WorkflowFault Assessment
assess_candidate doc (err e) = err (external e)
assess_candidate doc (ok candidate) = ok (assessment doc candidate)

abbrev assess_document :
    CandidateReader
    → String
    → String
    → Outcome String (Option Document)
    → Outcome WorkflowFault Assessment
assess_document candidates tenant_id doc_id (err e) = err (external e)
assess_document candidates tenant_id doc_id (ok none) = err not_found
assess_document candidates tenant_id doc_id (ok (some doc)) =
    if not (str_eq doc.tenant_id tenant_id)
    then err not_found
    else assess_candidate doc (candidates tenant_id doc_id)

abbrev assess_with :
    DocumentReader → CandidateReader → String → String → Outcome WorkflowFault Assessment
assess_with documents candidates tenant_id doc_id =
    if str_eq tenant_id "" || str_eq doc_id ""
    then err not_found
    else assess_document candidates tenant_id doc_id (documents tenant_id doc_id)

unfoldable pub assess :
    Option DocumentReader
    → Option CandidateReader
    → Actor
    → String
    → Outcome WorkflowFault Assessment
assess (some documents) (some candidates) actor doc_id =
    assess_with documents candidates (trim_space actor.tenant_id) (trim_space doc_id)
assess _ _ actor doc_id = err not_configured
