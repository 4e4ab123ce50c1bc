-- ===== src/Release/Approvers/Membership.antt =====
-- Who may approve a request, and what the store says of a group's members.
use ai_etl_platform.Common.{
  String, none, ◌≡◌, ◌↔◌, ◌⊎◌, ◌≢◌, inl, inr, Bool, true, ◌&&◌, arith, get, put, get-put, eq_iff,
  str_eq, trim_space, is_blank, ok, if◌then◌else◌, Outcome-cases,
}
use ai_etl_platform.Release.Publication.{Actor}
use ai_etl_platform.Release.Center.{ReleaseRequest}
use ai_etl_platform.Release.Approvers.{
  ApprovalPolicyStore, MemberCheck, set_group_member, is_approval_group_member, authorize_approval,
  store_key, or_no_members, is_active,
}

-- An actor may approve a request exactly when it names no group or the store says that the actor is
-- a member of its group, and the actor did not make it, unless it allows its requester to approve.
pub authorize_approval_iff :
    (member : MemberCheck) (actor : Actor) (request : ReleaseRequest)
    → (authorize_approval member actor request ≡ none) ↔ (
        ((is_blank request.approver_group_id ≡ true)
          ⊎ (member actor.tenant_id request.approver_group_id actor.user_id ≡ ok true))
        × ((request.allow_requester_approval ≡ true) ⊎ (request.requested_by ≢ actor.user_id)))
unfolding authorize_approval
authorize_approval_iff member actor request =
    let answer = member actor.tenant_id request.approver_group_id actor.user_id in
    let same = eq_iff request.requested_by actor.user_id in
    elim (Outcome-cases answer) [
      | inl (e, h) ↦ (λ k. ground (arith, k, h, same), λ k. ground (arith, k, h, same))
      | inr (b, h) ↦ (λ k. ground (arith, k, h, same), λ k. ground (arith, k, h, same))
    ]

-- After a membership was set, the store answers with it for that user of that group, if the group
-- is active; its answer for any other user or group is as before.
pub is_approval_group_member-set_group_member :
    (tenant group user tenant' group' user' : String) (active : Bool) (s : ApprovalPolicyStore)
    → (set_group_member tenant group user active s).0 ≡ none
    → let key = store_key (trim_space tenant) (trim_space group) in
      let key' = store_key (trim_space tenant') (trim_space group') in
      is_approval_group_member tenant' group' user' (set_group_member tenant group user active s).1
      ≡ (if str_eq key key' && str_eq (trim_space user) (trim_space user')
          then active && is_active (get s.groups key)
          else is_approval_group_member tenant' group' user' s)
unfolding set_group_member is_approval_group_member
is_approval_group_member-set_group_member tenant group user tenant' group' user' active s h =
    let key = store_key (trim_space tenant) (trim_space group) in
    let key' = store_key (trim_space tenant') (trim_space group') in
    let old = or_no_members (get s.members key) in
    let new = put old (trim_space user) active in
    ground (
      arith,
      h,
      eq_iff key key',
      get-put s.members key key' new,
      get-put old (trim_space user) (trim_space user') active,
    )
