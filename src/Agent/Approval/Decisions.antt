-- ===== src/Agent/Approval/Decisions.antt =====
-- A decision is taken once, by the tenant, and never changes afterwards.
use ai_etl_platform.Common.{
  ℕ, String, ◌≡◌, some, List, [], ◌∷◌, true, false, arith, get, get-put, eq_iff, ok, err, inl, inr,
  Option-cases,
}
use ai_etl_platform.Agent.Approval.{
  ApprovalStatus, ApprovalRequest, ApprovalStore, is_pending, is_decision, or_pending,
  create_approval, decide_approval, already_decided, decided,
}

pub data ApprovalCall : Type 0 where
  creating : ApprovalRequest → ApprovalCall
  deciding : String → String → ApprovalStatus → String → String → ℕ → ApprovalCall

unfoldable pub after : ApprovalCall → ApprovalStore → ApprovalStore
after (creating a) s = (create_approval a s).1
after (deciding tenant id status who why at) s = (decide_approval tenant id status who why at s).1

unfoldable pub after_all : List ApprovalCall → ApprovalStore → ApprovalStore
unfolding after
after_all [] s = s
after_all (c ∷ cs) s = after_all cs (after c s)

-- the approval that `create_approval` stores
abbrev pub submitted : ApprovalRequest → ApprovalRequest
submitted a = record a { status = or_pending a.status }

decided_stays :
    (c : ApprovalCall) (s : ApprovalStore) (id : String) (a : ApprovalRequest)
    → get s.approvals id ≡ some a
    → is_pending a.status ≡ false
    → get (after c s).approvals id ≡ some a
unfolding after create_approval decide_approval
decided_stays (creating b) s id a e d =
    ground (arith, e, d, eq_iff b.id id, get-put s.approvals b.id id (submitted b))
decided_stays (deciding tenant j status who why at) s id a e d =
    elim (Option-cases (get s.approvals j)) [
      | inl n ↦ ground (arith, e, n)
      | inr (b, n) ↦
          ground
            (arith, e, n, d, eq_iff j id, get-put s.approvals j id (decided b status who why at))
    ]

-- Once an approval is not pending any more, no sequence of creations and decisions changes it.
pub decision_final :
    (cs : List ApprovalCall) (s : ApprovalStore) (id : String) (a : ApprovalRequest)
    → get s.approvals id ≡ some a
    → is_pending a.status ≡ false
    → get (after_all cs s).approvals id ≡ some a
unfolding after_all
decision_final [] s id a e d = e
decision_final (c ∷ cs) s id a e d =
    decision_final cs (after c s) id a (decided_stays c s id a e d) d

decide_approval_lem :
    (s : ApprovalStore) (tenant id who why : String) (status : ApprovalStatus) (at : ℕ)
    {a : ApprovalRequest}
    → (decide_approval tenant id status who why at s).0 ≡ ok a
    → (get (decide_approval tenant id status who why at s).1.approvals id ≡ some a)
      × (a.status ≡ status)
      × (is_pending status ≡ false)
      × (a.tenant_id ≡ tenant)
unfolding decide_approval
decide_approval_lem s tenant id who why status at {a} h = elim (Option-cases (get s.approvals id)) [
  | inl n ↦ absurd (ground (arith, n))
  | inr (b, n) ↦
      let g = get-put s.approvals id id (decided b status who why at) in
      (
        ground (arith, n, h, eq_iff id id, g),
        ground (arith, n, h),
        ground (arith, n, h),
        ground (arith, n, h, eq_iff b.tenant_id tenant),
      )
]

refused :
    (s : ApprovalStore) (tenant id who why : String) (status : ApprovalStatus) (at : ℕ)
    (a : ApprovalRequest)
    → get s.approvals id ≡ some a
    → a.tenant_id ≡ tenant
    → is_pending a.status ≡ false
    → is_decision status ≡ true
    → decide_approval tenant id status who why at s ≡ (err (already_decided id a.status), s)
unfolding decide_approval
refused s tenant id who why status at a e t p d =
    ground (arith, e, t, p, d, eq_iff a.tenant_id tenant)

-- Of two decisions on one approval the second fails, whatever calls come between them.
second_decision_refused :
    (cs : List ApprovalCall) (s : ApprovalStore) (tenant id who who' why why' : String)
    (status status' : ApprovalStatus) (at at' : ℕ) {a : ApprovalRequest}
    → (decide_approval tenant id status who why at s).0 ≡ ok a
    → is_decision status' ≡ true
    → let s' = after_all cs (decide_approval tenant id status who why at s).1 in
      decide_approval tenant id status' who' why' at' s' ≡ (err (already_decided id status), s')
second_decision_refused cs s tenant id who who' why why' status status' at at' {a} h d =
    let f = decide_approval_lem s tenant id who why status at h in
    let s' = (decide_approval tenant id status who why at s).1 in
    let kept = decision_final cs s' id a f.0 (rw f.1 f.2) in
    cc (f.1, refused (after_all cs s') tenant id who' why' status' at' a kept f.3 (rw f.1 f.2) d)
