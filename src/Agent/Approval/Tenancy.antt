-- ===== src/Agent/Approval/Tenancy.antt =====
-- What one tenant can do to an approval of another.
use ai_etl_platform.Common.{
  sym, String, ◌≡◌, ◌≢◌, some, List, [], ◌∷◌, All, Among, arith, get, get-put, eq_iff, err, inl,
  inr, Option-cases,
}
use ai_etl_platform.Agent.Approval.{
  ApprovalRequest, ApprovalStore, create_approval, decide_approval, load_approval,
  list_run_approvals, not_found, decided,
}
use ai_etl_platform.Agent.Approval.Decisions.{
  ApprovalCall, creating, deciding, after, after_all, submitted,
}
use ai_etl_platform.Agent.Approval.Index.{IsIndexed, after-IsIndexed}
use ai_etl_platform.Agent.Approval.Listing.{list_run_approvals_iff}

-- A decision is another tenant's. Anybody may submit approvals.
abbrev pub IsForeign : String → ApprovalCall → Type 0
IsForeign tenant (creating a) = Unit
IsForeign tenant (deciding other id status who why at) = other ≢ tenant

foreign_stays :
    (c : ApprovalCall) (s : ApprovalStore) (a : ApprovalRequest)
    → IsForeign a.tenant_id c
    → get s.approvals a.id ≡ some a
    → get (after c s).approvals a.id ≡ some a
unfolding after create_approval decide_approval
foreign_stays (creating b) s a f e =
    ground (arith, e, eq_iff b.id a.id, get-put s.approvals b.id a.id (submitted b))
foreign_stays (deciding other id status who why at) s a f e =
    elim (Option-cases (get s.approvals id)) [
      | inl n ↦ ground (arith, e, n)
      | inr (b, n) ↦ ground (
        arith,
        e,
        n,
        f,
        eq_iff id a.id,
        eq_iff b.tenant_id other,
        eq_iff a.tenant_id other,
        get-put s.approvals id a.id (decided b status who why at),
      )
    ]

after_all-foreign :
    (cs : List ApprovalCall) (s : ApprovalStore) (a : ApprovalRequest)
    → All (IsForeign a.tenant_id) cs
    → get s.approvals a.id ≡ some a
    → get (after_all cs s).approvals a.id ≡ some a
unfolding after_all
after_all-foreign [] s a f e = e
after_all-foreign (c ∷ cs) s a f e =
    after_all-foreign cs (after c s) a f.1 (foreign_stays c s a f.0 e)

after_all-IsIndexed :
    (cs : List ApprovalCall) (s : ApprovalStore) → IsIndexed s → IsIndexed (after_all cs s)
unfolding after_all
after_all-IsIndexed [] s v = v
after_all-IsIndexed (c ∷ cs) s v = after_all-IsIndexed cs (after c s) (after-IsIndexed c s v)

hidden :
    (s : ApprovalStore) (a : ApprovalRequest) (tenant : String)
    → get s.approvals a.id ≡ some a
    → tenant ≢ a.tenant_id
    → load_approval tenant a.id s ≡ err (not_found a.id)
unfolding load_approval
hidden s a tenant e ne = ground (arith, e, ne, eq_iff a.tenant_id tenant)

-- Whatever approvals are submitted and whatever decisions other tenants try, an approval of a
-- well-indexed store stays as it is; and another tenant neither loads it, which answers as if it
-- were not there, nor finds it in the listing of any run.
pub other_tenant_excluded :
    (cs : List ApprovalCall) (s : ApprovalStore) (a : ApprovalRequest) (tenant run : String)
    → IsIndexed s
    → get s.approvals a.id ≡ some a
    → All (IsForeign a.tenant_id) cs
    → tenant ≢ a.tenant_id
    → (get (after_all cs s).approvals a.id ≡ some a)
      × (load_approval tenant a.id (after_all cs s) ≡ err (not_found a.id))
      × (Among a (list_run_approvals tenant run (after_all cs s)) → ⊥)
other_tenant_excluded cs s a tenant run v e f ne =
    let s' = after_all cs s in
    let e' = after_all-foreign cs s a f e in
    (
      e',
      hidden s' a tenant e' ne,
      λ h.
          let listed = (list_run_approvals_iff s' tenant run a (after_all-IsIndexed cs s v)).0 h in
          absurd (ne (sym listed.1)),
    )
