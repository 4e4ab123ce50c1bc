-- ===== src/Examples/Decisions.antt =====
-- Two administrators decide on a release request.
use ai_etl_platform.Common.{
  ◌≡◌, ◌⊎◌, refl, List, [], ◌∷◌, ◌++◌, none, some, true, ok, arith, trim_space, to_lower,
  equal_fold, is_blank,
}
use ai_etl_platform.Release.Publication.{Actor, Request, assess, publish_approved}
use ai_etl_platform.Release.Center.{
  RequestState, request_approval_pending, request_published, ReleaseRequest,
}
use ai_etl_platform.Release.Decisions.{
  Decision, ReleaseStore, Services, ApprovalResult, World, decide,
}
use ai_etl_platform.Release.Decisions.Safety.{BacksAll, decide-IsBacked}
use ai_etl_platform.Release.Decisions.FourEyes.{
  other_approved, decide-other_approved, decide-RecordsOnce, RecordsOnce,
}
use ai_etl_platform.Examples.Releases.{
  admin, documents, candidates, publisher, report, release_request,
}

abbrev request : ReleaseRequest
request = record release_request { approver_group_id = "" }

abbrev carol : Decision
carol = record {
  id = "e1";
  tenant_id = "t";
  request_id = "q1";
  decided_by = "carol";
  decision = "approved";
  reason = "";
  decided_at = 90;
}

abbrev Stored : Type 0
Stored = List Decision × RequestState

-- a store of the one request
abbrev store : ReleaseStore
store = record {
  State = Stored;
  get_request = λ tenant id s. ok (record request { state = s.1 });
  get_review = λ tenant id s. ok report;
  list_decisions = λ tenant id s. ok s.0;
  record_decision = λ d s. (none, (s.0 ++ d ∷ [], s.1));
  set_request_state = λ tenant id state s. (none, (s.0, state));
}

abbrev services : Services
services = record {
  assess = assess (some documents) (some candidates);
  publish = λ actor c key. (publish_approved (some publisher) actor c key).0;
  policies = none;
}

abbrev world : List Decision → World store services
world ds = record {
  state = (ds, request_approval_pending);
  recorded = [];
  published = [];
  notices = [];
}

-- the second approval publishes
decide_second :
    (decide store services 100 101 "e2" admin "q1" " Approved" "" (world (carol ∷ []))).1.state.1
    ≡ request_published
unfolding decide equal_fold trim_space ai_etl_platform.Release.Decisions.objection
    ai_etl_platform.Release.Center.validate_review_binding
    ai_etl_platform.Release.Center.review_is_expired to_lower ai_etl_platform.Release.Decisions.scan
    assess ai_etl_platform.Release.Publication.assessment is_blank publish_approved
decide_second = refl

-- the first does not
decide_first :
    (decide store services 100 101 "e2" admin "q1" " Approved" "" (world [])).1.published ≡ []
unfolding decide equal_fold trim_space ai_etl_platform.Release.Decisions.objection
    ai_etl_platform.Release.Center.validate_review_binding
    ai_etl_platform.Release.Center.review_is_expired to_lower ai_etl_platform.Release.Decisions.scan
decide_first = refl

decide_example :
    BacksAll store services 100 admin "q1" ""
      (world (carol ∷ []))
      (decide store services 100 101 "e2" admin "q1" " Approved" ""
        (world (carol ∷ []))).1.published
decide_example =
    decide-IsBacked store services 100 101 "e2" admin "q1" " Approved" "" (world (carol ∷ []))

decide-other_approved_example :
    ((decide store services 100 101 "e2" admin "q1" " Approved" "" (world (carol ∷ []))).1.published
      ≡ [])
    ⊎ (other_approved "bob" (carol ∷ []) ≡ true)
decide-other_approved_example =
    decide-other_approved store services 100 101 "e2" admin "q1" " Approved" "" (world (carol ∷ []))
      {request = request} {ds = carol ∷ []} refl refl (refl, tt) (omega arith)

decide-RecordsOnce_example :
    RecordsOnce store services admin "q1"
      (carol ∷ [])
      (world (carol ∷ []))
      (decide store services 100 101 "e2" admin "q1" " Approved" "" (world (carol ∷ [])))
decide-RecordsOnce_example =
    decide-RecordsOnce store services 100 101 "e2" admin "q1" " Approved" "" (world (carol ∷ []))
      {ds = carol ∷ []} refl (refl, tt)
