-- ===== src/Examples/Approvals.antt =====
-- Two approvals of one run.
use ai_etl_platform.Common.{
  ℕ, ◌≡◌, refl, String, [], ◌∷◌, some, err, arith, get, put, eq_iff, Among,
}
use ai_etl_platform.Agent.Types.{no_bytes}
use ai_etl_platform.Agent.Approval.{
  ApprovalRequest, ApprovalStore, pending, approved, rejected, empty_store, create_approval,
  load_approval, not_found, list_run_approvals, decided, validate_for_create,
}
use ai_etl_platform.Agent.Approval.Decisions.{creating, deciding, after, after_all, decision_final}
use ai_etl_platform.Agent.Approval.Tenancy.{other_tenant_excluded}
use ai_etl_platform.Agent.Approval.Index.{IsIndexed, after-IsIndexed}
use ai_etl_platform.Agent.Approval.Listing.{list_run_approvals_iff}

abbrev request : String → ℕ → ApprovalRequest
request id step = record {
  id = id;
  run_id = "r1";
  tenant_id = "t";
  step_index = step;
  tool_name = "publish";
  tool_arguments = no_bytes;
  status = pending;
  requested_by = "alice";
  requested_at = 100;
  decided_by = "";
  decided_at = 0;
  reason = "";
}

empty_store-IsIndexed : IsIndexed empty_store
unfolding get
empty_store-IsIndexed = record { own_id = λ id a e. absurd (cc e); named = λ id a e. absurd (cc e) }

-- the approval of step 2 is submitted before that of step 1
abbrev one_approval : ApprovalStore
one_approval = after (creating (request "a2" 2)) empty_store

abbrev two_approvals : ApprovalStore
two_approvals = after (creating (request "a1" 1)) one_approval

after-IsIndexed_example : IsIndexed one_approval
after-IsIndexed_example =
    after-IsIndexed (creating (request "a2" 2)) empty_store empty_store-IsIndexed

two_approvals-IsIndexed : IsIndexed two_approvals
two_approvals-IsIndexed =
    after-IsIndexed (creating (request "a1" 1)) one_approval
      (after-IsIndexed (creating (request "a2" 2)) empty_store empty_store-IsIndexed)

list_run_approvals_example : Among (request "a1" 1) (list_run_approvals "t" "r1" two_approvals)
unfolding after create_approval get put validate_for_create
list_run_approvals_example =
    (list_run_approvals_iff two_approvals "t" "r1" (request "a1" 1) two_approvals-IsIndexed).1
      (refl, refl, refl)

-- bob approves step 2
abbrev approved_by_bob : ApprovalRequest
approved_by_bob = decided (request "a2" 2) approved "bob" "fine" 120

abbrev decided_store : ApprovalStore
decided_store = record { approvals = ("a2", approved_by_bob) ∷ []; by_run = [] }

decision_final_example :
    get
      (after_all
        (deciding "t" "a2" rejected "eve" "no" 130 ∷ creating (request "a2" 2) ∷ [])
        decided_store).approvals
      "a2"
    ≡ some approved_by_bob
unfolding get
decision_final_example =
    decision_final (deciding "t" "a2" rejected "eve" "no" 130 ∷ creating (request "a2" 2) ∷ [])
      decided_store "a2" approved_by_bob refl refl

other_tenant_excluded_example :
    (get (after_all (deciding "u" "a2" approved "eve" "" 130 ∷ []) one_approval).approvals "a2"
      ≡ some (request "a2" 2))
    × (load_approval "u" "a2"
          (after_all (deciding "u" "a2" approved "eve" "" 130 ∷ []) one_approval)
        ≡ err (not_found "a2"))
    × (Among (request "a2" 2) (
          list_run_approvals "u" "r1"
            (after_all (deciding "u" "a2" approved "eve" "" 130 ∷ []) one_approval))
        → ⊥)
unfolding after create_approval get put validate_for_create
other_tenant_excluded_example =
    other_tenant_excluded (deciding "u" "a2" approved "eve" "" 130 ∷ []) one_approval
      (request "a2" 2) "u" "r1"
      (after-IsIndexed (creating (request "a2" 2)) empty_store empty_store-IsIndexed) refl
      (λ e. absurd (ground (arith, e, eq_iff "u" "t")), tt)
      (λ e. absurd (ground (arith, e, eq_iff "u" "t")))
