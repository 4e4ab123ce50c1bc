-- ===== src/Agent/Approval/Index.antt =====
-- The index of a store names every stored approval.
use ai_etl_platform.Common.{
  subst, sym, has, ◌&&◌, Among, Among-append_left, Among-append_right, ℕ, String, ◌≡◌, some, [],
  ◌∷◌, ◌++◌, arith, get, put, get-put, eq_iff, inl, inr, Option-cases, Bool-cases, ◌⊎◌, refl,
  str_eq,
}
use ai_etl_platform.Agent.Approval.{
  ApprovalStatus, ApprovalRequest, ApprovalStore, create_approval, decide_approval, decided,
  validate_for_create, is_decision, is_pending, or_nil, approval_index_key,
}
use ai_etl_platform.Agent.Approval.Decisions.{ApprovalCall, creating, deciding, after, submitted}

-- Every stored approval has its own id, and its run's index entry names it.
pub record IsIndexed (s : ApprovalStore) : Type 0 where
  pub own_id : (id : String) (a : ApprovalRequest) → get s.approvals id ≡ some a → a.id ≡ id
  pub named :
      (id : String) (a : ApprovalRequest)
      → get s.approvals id ≡ some a
      → Among id (or_nil (get s.by_run (approval_index_key a.tenant_id a.run_id)))

-- the store after an accepted creation
abbrev added : ApprovalRequest → ApprovalStore → ApprovalStore
added b s =
    let key = approval_index_key b.tenant_id b.run_id in
    record {
      approvals = put s.approvals b.id (submitted b);
      by_run = put s.by_run key (or_nil (get s.by_run key) ++ b.id ∷ []);
    }

create_approval_lem :
    (b : ApprovalRequest) (s : ApprovalStore)
    → ((create_approval b s).1 ≡ s) ⊎ ((create_approval b s).1 ≡ added b s)
unfolding create_approval
create_approval_lem b s = elim (Option-cases (validate_for_create (submitted b))) [
  | inl e ↦ elim (Bool-cases (has (get s.approvals b.id))) [
    | inl h ↦ inl (rw (e, h, create_approval))
    | inr h ↦ inr (rw (e, h, create_approval))
  ]
  | inr (x, e) ↦ inl (rw (e, create_approval))
]

-- an index entry only grows
Among-added :
    (b : ApprovalRequest) (s : ApprovalStore) (id key : String)
    → Among id (or_nil (get s.by_run key))
    → Among id (or_nil (get (added b s).by_run key))
Among-added b s id key h =
    let own = approval_index_key b.tenant_id b.run_id in
    let ids = or_nil (get s.by_run own) in
    elim (Bool-cases (str_eq own key)) [
      | inl e ↦
          rw (get-put, e)
            (Among-append_left id ids (b.id ∷ [])
              (subst (λ k. Among id (or_nil (get s.by_run k))) (sym ((eq_iff own key).0 e)) h))
      | inr e ↦ rw (get-put, e) h
    ]

Among-added_self :
    (b : ApprovalRequest) (s : ApprovalStore)
    → Among b.id (or_nil (get (added b s).by_run (approval_index_key b.tenant_id b.run_id)))
Among-added_self b s =
    let own = approval_index_key b.tenant_id b.run_id in
    rw (get-put, (eq_iff own own).1 refl)
      (Among-append_right b.id (or_nil (get s.by_run own)) (b.id ∷ []) (inl refl))

IsIndexed-added : (b : ApprovalRequest) (s : ApprovalStore) → IsIndexed s → IsIndexed (added b s)
IsIndexed-added b s v = record {
  own_id = λ id a g.
      ground (arith, g, v.own_id id a, eq_iff b.id id, get-put s.approvals b.id id (submitted b));
  named = λ id a g. elim (Bool-cases (str_eq b.id id)) [
    | inl e ↦
        let same : a ≡ submitted b =
          ground (arith, g, e, get-put s.approvals b.id id (submitted b)) in
        rw same (
          subst
            (λ k.
              Among k (or_nil (get (added b s).by_run (approval_index_key b.tenant_id b.run_id))))
            ((eq_iff b.id id).0 e) (Among-added_self b s))
    | inr e ↦
        Among-added b s id (approval_index_key a.tenant_id a.run_id)
          (v.named id a (ground (arith, g, e, get-put s.approvals b.id id (submitted b))))
  ];
}

decide_approval-cases :
    (tenant id who why : String) (status : ApprovalStatus) (at : ℕ) (s : ApprovalStore)
    → ((decide_approval tenant id status who why at s).1 ≡ s)
      ⊎ ((a : ApprovalRequest) × (get s.approvals id ≡ some a)
          × ((decide_approval tenant id status who why at s).1
              ≡ record s { approvals = put s.approvals id (decided a status who why at) }))
unfolding decide_approval
decide_approval-cases tenant id who why status at s = elim (Option-cases (get s.approvals id)) [
  | inl e ↦ inl (ground (arith, e))
  | inr (a, e) ↦
      elim (Bool-cases (is_decision status && str_eq a.tenant_id tenant && is_pending a.status)) [
        | inl d ↦ inr (a, e, ground (arith, e, d))
        | inr d ↦ inl (ground (arith, e, d))
      ]
]

-- Creations and decisions keep the index complete.
pub after-IsIndexed : (c : ApprovalCall) (s : ApprovalStore) → IsIndexed s → IsIndexed (after c s)
unfolding after
after-IsIndexed (creating b) s v = elim (create_approval_lem b s) [
  | inl e ↦ rw e v
  | inr e ↦ rw e (IsIndexed-added b s v)
]
after-IsIndexed (deciding tenant id status who why at) s v =
    elim (decide_approval-cases tenant id who why status at s) [
      | inl e ↦ rw e v
      | inr (a, g, e) ↦ rw e (record {
        own_id = λ j b h. ground (
          arith,
          g,
          h,
          v.own_id id a g,
          v.own_id j b,
          eq_iff id j,
          get-put s.approvals id j (decided a status who why at),
        );
        named = λ j b h. elim (Bool-cases (str_eq id j)) [
          | inl q ↦
              let same : b ≡ decided a status who why at =
                ground (arith, h, q, get-put s.approvals id j (decided a status who why at)) in
              rw same (
                subst
                  (λ k. Among k (or_nil (get s.by_run (approval_index_key a.tenant_id a.run_id))))
                  ((eq_iff id j).0 q) (v.named id a g))
          | inr q ↦
              v.named j b
                (ground (arith, h, q, get-put s.approvals id j (decided a status who why at)))
        ];
      })
    ]
