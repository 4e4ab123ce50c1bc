-- ===== src/Release/Decisions.antt =====
-- internal/releasecenter/coordinator.go: `ApprovalService.Decide`. The store, the workflow and the
-- policies are interfaces in the source and arguments here; what the clock and the generator of
-- ids answer are arguments too. A notification is kept as the facts it is built from.
pub mod Admission
pub mod FourEyes
pub mod Safety
use ai_etl_platform.Common.{
  ℕ, suc, String, str_eq, Option, none, some, List, [], ◌∷◌, ◌++◌, Bool, true, false, not, ◌&&◌,
  ◌||◌, if◌then◌else◌, ltb, ◌==◌, Outcome, ok, err, ◌>>=◌, ◌>>◌, check, trim_space, to_lower,
  equal_fold, is_blank,
}
use ai_etl_platform.Release.Publication.{
  Actor, Candidate, Assessment, WorkflowFault, PublicationResult, Request,
}
use ai_etl_platform.Release.Center.{
  RequestState, request_rejected, request_published, ReleaseRequest, ReviewReport, ReviewFault,
  stale_review, validate_review_binding, is_awaiting, is_manual_exception,
}
use ai_etl_platform.Release.Approvers.{MemberCheck, PolicyFault, authorize_approval}

pub record Decision : Type 0 where
  pub id : String
  pub tenant_id : String
  pub request_id : String
  pub decided_by : String
  pub decision : String
  pub reason : String
  pub decided_at : ℕ

pub data DecisionFault : Type 0 where
  admin_required policy_not_configured different_administrator not_awaiting : DecisionFault
  invalid_decision reason_required decision_conflict : DecisionFault
  of_policy : PolicyFault → DecisionFault
  of_review : ReviewFault → DecisionFault
  of_workflow : WorkflowFault → DecisionFault
  of_store : String → DecisionFault

-- `coordinatorStore`, by what `Decide` calls of it
pub record ReleaseStore : Type 1 where
  pub State : Type 0
  pub get_request : String → String → State → Outcome String ReleaseRequest
  pub get_review : String → String → State → Outcome String ReviewReport
  pub list_decisions : String → String → State → Outcome String (List Decision)
  pub record_decision : Decision → State → Option String × State
  pub set_request_state : String → String → RequestState → State → Option String × State

-- `PublicationWorkflow` and `ApprovalPolicyStore`, by what `Decide` calls of them
pub record Services : Type 0 where
  pub assess : Actor → String → Outcome WorkflowFault Assessment
  pub publish : Actor → Candidate → String → Outcome WorkflowFault PublicationResult
  pub policies : Option MemberCheck

pub data Notice : Type 0 where
  -- decision, id of the entry, who decided, how many approvals there are
  decision_recorded : ReleaseRequest → String → String → String → ℕ → Notice
  -- decision, who decided, how many approvals there are
  state_changed : ReleaseRequest → String → String → Option ℕ → Notice

pub record ApprovalResult : Type 0 where
  pub request : ReleaseRequest
  pub decisions : List Decision

abbrev lift_store : {A : Type 0} → Outcome String A → Outcome DecisionFault A
lift_store (ok a) = ok a
lift_store (err e) = err (of_store e)

abbrev pub is_approved : Decision → Bool
is_approved d = str_eq d.decision "approved"

unfoldable pub count_approved : List Decision → ℕ
count_approved [] = 0
count_approved (d ∷ ds) = let rest = count_approved ds in if is_approved d then suc rest else rest

abbrev group_objection : Option MemberCheck → Actor → ReleaseRequest → Option DecisionFault
group_objection none actor request = some policy_not_configured
group_objection (some member) actor request = elim (authorize_approval member actor request) [
  | none ↦ none
  | some e ↦ some (of_policy e)
]

-- a request of a group asks for its members, any other for somebody who did not make it
unfoldable pub objection : Option MemberCheck → Actor → ReleaseRequest → Option DecisionFault
objection policies actor request =
    if not (str_eq request.approver_group_id "")
    then group_objection policies actor request
    else if str_eq request.requested_by actor.user_id && not request.allow_requester_approval
    then some different_administrator
    else none

abbrev review_objection : ReviewReport → Candidate → ℕ → Option DecisionFault
review_objection report candidate now = elim (validate_review_binding report candidate now) [
  | none ↦ none
  | some e ↦ some (of_review e)
]

-- the loop over the decisions: whether the actor has decided so before
unfoldable pub scan : String → String → String → List Decision → Bool → Outcome DecisionFault Bool
scan user decision reason [] found = ok found
scan user decision reason (d ∷ ds) found =
    let skipped = scan user decision reason ds found in
    let matched = scan user decision reason ds true in
    if not (str_eq d.decided_by user)
    then skipped
    else if not (str_eq d.decision decision) || not (str_eq d.reason reason)
    then err decision_conflict
    else matched

-- the entry of a decision that the actor had not taken
abbrev pub entry_for : ℕ → String → Actor → String → String → String → Decision
entry_for later fresh actor request_id decision reason = record {
  id = fresh;
  tenant_id = actor.tenant_id;
  request_id = request_id;
  decided_by = actor.user_id;
  decision = decision;
  reason = trim_space reason;
  decided_at = later;
}

-- the id of the actor's first decision
abbrev entry_of : String → List Decision → String
entry_of user [] = ""
entry_of user (d ∷ ds) = if str_eq d.decided_by user then d.id else entry_of user ds

abbrev pub candidate_eq : Candidate → Candidate → Bool
candidate_eq a b =
    str_eq a.document_id b.document_id
    && str_eq a.document_version_id b.document_version_id
    && str_eq a.generation_id b.generation_id
    && a.expected_chunk_count == b.expected_chunk_count
    && str_eq a.expected_chunk_digest b.expected_chunk_digest
    && a.release_revision == b.release_revision

abbrev pub is_current : Assessment → Candidate → Bool
is_current a candidate =
    a.ready && elim a.candidate [ none ↦ false | some c ↦ candidate_eq c candidate ]

module _ (store : ReleaseStore) (services : Services) where
  -- the store, what was handed to it by `RecordDecision`, to the workflow and to the notifier, the
  -- latest first
  pub record World : Type 0 where
    pub state : store.State
    pub recorded : List Decision
    pub published : List Request
    pub notices : List Notice

  abbrev pub Answer : Type 0
  Answer = Outcome DecisionFault ApprovalResult × World

  -- the reads and checks before a decision is recorded: the request, the normalised decision, all
  -- decisions on it so far, and whether the actor's is among them
  unfoldable pub admit :
      ℕ
      → Actor
      → String
      → String
      → String
      → store.State
      → Outcome DecisionFault (ReleaseRequest × String × List Decision × Bool)
  admit now actor request_id decision reason s = do
    check (if equal_fold (trim_space actor.role) "admin" then none else some admin_required)
    request ← lift_store (store.get_request actor.tenant_id request_id s)
    check (objection services.policies actor request)
    check (if is_awaiting request.state then none else some not_awaiting)
    report ← lift_store (store.get_review actor.tenant_id request.review_id s)
    check (review_objection report request.candidate now)
    let normal = to_lower (trim_space decision)
    check (
        if not (str_eq normal "approved") && not (str_eq normal "rejected")
        then some invalid_decision
        else none)
    check (
        if is_manual_exception request.state && is_blank reason then some reason_required else none)
    decisions ← lift_store (store.list_decisions actor.tenant_id request_id s)
    found ← scan actor.user_id normal (trim_space reason) decisions false
    ok (request, normal, decisions, found)

  abbrev set_published : Actor → String → ReleaseRequest → List Decision → ℕ → World → Answer
  set_published actor request_id request decisions approved w =
      let final : ReleaseRequest = record request { state = request_published } in
      let (refused, s) =
        store.set_request_state actor.tenant_id request_id request_published w.state in
      elim refused [
        | some e ↦ (err (of_store e), record w { state = s })
        | none ↦ (
          ok (record { request = final; decisions = decisions }),
          record w {
            state = s;
            notices = state_changed final "approved" actor.user_id (some approved) ∷ w.notices;
          },
        )
      ]

  -- `PublishApproved` under the request's id, and the state after it
  abbrev publish_request : Actor → String → ReleaseRequest → List Decision → ℕ → World → Answer
  publish_request actor request_id request decisions approved w =
      let w' : World = record w {
        published =
            record { actor = actor; candidate = request.candidate; idempotency_key = request.id }
            ∷ w.published;
      } in
      elim (services.publish actor request.candidate request.id) [
        | err e ↦ (err (of_workflow e), w')
        | ok _ ↦ set_published actor request_id request decisions approved w'
      ]

  abbrev publish_if_current : Actor → String → ReleaseRequest → List Decision → ℕ → World → Answer
  publish_if_current actor request_id request decisions approved w =
      elim (services.assess actor request.document_id) [
        | err e ↦ (err (of_workflow e), w)
        | ok a ↦
            if not (is_current a request.candidate)
            then (err (of_review stale_review), w)
            else publish_request actor request_id request decisions approved w
      ]

  -- the error of storing a rejection is dropped
  abbrev set_rejected : Actor → String → ReleaseRequest → String → List Decision → World → Answer
  set_rejected actor request_id request decision decisions w =
      let final : ReleaseRequest = record request { state = request_rejected } in
      let s = (store.set_request_state actor.tenant_id request_id request_rejected w.state).1 in
      (
        ok (record { request = final; decisions = decisions }),
        record w {
          state = s;
          notices = state_changed final decision actor.user_id none ∷ w.notices;
        },
      )

  -- a recorded decision takes effect
  unfoldable pub settle : Actor → String → ReleaseRequest → String → List Decision → World → Answer
  unfolding count_approved
  settle actor request_id request decision decisions w =
      if str_eq decision "rejected"
      then set_rejected actor request_id request decision decisions w
      else if ltb (count_approved decisions) request.required_approvals
      then (ok (record { request = request; decisions = decisions }), w)
      else publish_if_current actor request_id request decisions (count_approved decisions) w

  abbrev notify_and_settle :
      Actor → String → ReleaseRequest → String → List Decision → String → World → Answer
  notify_and_settle actor request_id request decision decisions entry w =
      settle actor request_id request decision decisions (record w {
        notices =
            decision_recorded request decision entry actor.user_id (count_approved decisions)
            ∷ w.notices;
      })

  -- `RecordDecision`
  abbrev pub recorded_world : Decision → World → World
  recorded_world entry w = record w {
    state = (store.record_decision entry w.state).1;
    recorded = entry ∷ w.recorded;
  }

  -- a decision that the actor had not taken is recorded first
  unfoldable pub decide_admitted :
      ℕ
      → String
      → Actor
      → String
      → String
      → ReleaseRequest × String × List Decision × Bool
      → World
      → Answer
  unfolding settle
  decide_admitted later fresh actor request_id reason (request, decision, decisions, true) w =
      notify_and_settle actor request_id request decision decisions
        (entry_of actor.user_id decisions) w
  decide_admitted later fresh actor request_id reason (request, decision, decisions, false) w =
      let entry = entry_for later fresh actor request_id decision reason in
      elim (store.record_decision entry w.state).0 [
        | some e ↦ (err (of_store e), recorded_world entry w)
        | none ↦
            notify_and_settle actor request_id request decision (decisions ++ entry ∷ []) fresh
              (recorded_world entry w)
      ]

  -- `now` is when the review is judged, `later` when the decision is recorded, `fresh` its id
  unfoldable pub decide : ℕ → ℕ → String → Actor → String → String → String → World → Answer
  unfolding admit decide_admitted
  decide now later fresh actor request_id decision reason w =
      elim (admit now actor request_id decision reason w.state) [
        | err e ↦ (err e, w)
        | ok admitted ↦ decide_admitted later fresh actor request_id reason admitted w
      ]
