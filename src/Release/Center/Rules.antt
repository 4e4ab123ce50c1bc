-- ===== src/Release/Center/Rules.antt =====
-- What the release policy, the overview and the binding of reviews guarantee.
use ai_etl_platform.Common.{
  ℕ, ◌≤◌, ◌<◌, String, eq_iff, none, ◌≡◌, ◌≢◌, ◌↔◌, ◌⊎◌, Bool, true, false, arith, [], trim_space,
  to_lower, equal_fold,
}
use ai_etl_platform.Release.Publication.{Candidate}
use ai_etl_platform.Release.Center.{
  RiskLevel, risk_rank, evaluate_policy, ReviewReport, review_is_expired, validate_review_binding,
  OverviewInput, project_overview, is_published,
}

-- A worse risk never lowers the number of approvals, which is 1 or 2, and 2 for a confidential
-- document whatever the risk; whether the agent is available does not change it.
evaluate_policy_escalates :
    (permission : String) (risk worse : RiskLevel) (available available' : Bool)
    → risk_rank risk ≤ risk_rank worse
    → let before =
        evaluate_policy
          (record { permission = permission; risk = risk; agent_available = available }) in
      let after =
        evaluate_policy
          (record { permission = permission; risk = worse; agent_available = available' }) in
      (1 ≤ before.required_approvals)
      × (before.required_approvals ≤ after.required_approvals)
      × (after.required_approvals ≤ 2)
      × ((to_lower (trim_space permission) ≢ "confidential") ⊎ (before.required_approvals ≡ 2))
unfolding evaluate_policy
evaluate_policy_escalates permission risk worse available available' h =
    let e = eq_iff (to_lower (trim_space permission)) "confidential" in
    (ground arith, ground arith, ground arith, ground (arith, e))

-- A document shows as published exactly when no replacement is pending and its catalogue row or
-- its release request is published; it then shows no blockers.
project_overview_published :
    (in_ : OverviewInput)
    → ((project_overview in_).state ≡ "published") ↔ (
        (in_.replacement_pending ≡ false)
        × ((project_overview in_).blockers ≡ [])
        × ((in_.publication_status ≡ "published") ⊎ (is_published in_.request_state ≡ true)))
unfolding project_overview
project_overview_published in_ =
    let e = eq_iff in_.publication_status "published" in
    let a = eq_iff "rejected" "published" in
    let b = eq_iff "checking" "published" in
    let c = eq_iff "approval_pending" "published" in
    let d = eq_iff "needs_info" "published" in
    let f = eq_iff "review_blocked" "published" in
    (
      λ h. (
        ground (arith, h, e, a, b, c, d, f),
        ground (arith, h, a, b, c, d, f),
        ground (arith, h, e, a, b, c, d, f),
      ),
      λ h. ground (arith, h, e),
    )

-- A review lets a candidate through exactly when it was made for that version, generation and
-- revision of that document, names itself, its status and its recommendation, and has not expired.
pub validate_review_binding_iff :
    (report : ReviewReport) (candidate : Candidate) (now : ℕ)
    → (validate_review_binding report candidate now ≡ none) ↔ (
        (report.document_id ≡ candidate.document_id)
        × (report.document_version_id ≡ candidate.document_version_id)
        × (report.generation_id ≡ candidate.generation_id)
        × (report.release_revision ≡ candidate.release_revision)
        × (report.id ≢ "")
        × (report.status ≢ "")
        × (report.recommendation ≢ "")
        × (equal_fold (trim_space report.status) "expired" ≡ false)
        × ((report.expires_at ≡ 0) ⊎ (now < report.expires_at)))
unfolding validate_review_binding review_is_expired
validate_review_binding_iff report candidate now =
    let a = eq_iff report.document_id candidate.document_id in
    let b = eq_iff report.document_version_id candidate.document_version_id in
    let c = eq_iff report.generation_id candidate.generation_id in
    let d = eq_iff report.id "" in
    let e = eq_iff report.status "" in
    let f = eq_iff report.recommendation "" in
    (
      λ h. (
        ground (arith, a, h),
        ground (arith, b, h),
        ground (arith, c, h),
        ground (arith, h),
        ground (arith, d, h),
        ground (arith, e, h),
        ground (arith, f, h),
        ground (arith, h),
        ground (arith, h),
      ),
      λ h. ground (arith, h, a, b, c, d, e, f),
    )

-- A review that lets a candidate through at some time would have done so at every earlier time: it
-- never becomes valid again.
validate_review_binding_earlier :
    (report : ReviewReport) (candidate : Candidate) (now later : ℕ)
    → now ≤ later
    → validate_review_binding report candidate later ≡ none
    → validate_review_binding report candidate now ≡ none
unfolding validate_review_binding review_is_expired
validate_review_binding_earlier report candidate now later before h = ground (arith, h)
