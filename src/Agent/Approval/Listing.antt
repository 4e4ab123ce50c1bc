-- ===== src/Agent/Approval/Listing.antt =====
-- The listing of a run's approvals is complete, exact and sorted.
use ai_etl_platform.Agent.Approval.Index.{IsIndexed}
use ai_etl_platform.Common.{
  subst, subst₂, sym, Among, String, ◌≡◌, ◌↔◌, Option, none, some, List, [], ◌∷◌, true, false,
  arith, Dict, get, eq_iff, inl, inr, Bool-cases, ◌⊎◌, refl,
}
use ai_etl_platform.Agent.Approval.{
  ApprovalRequest, ApprovalStore, of_run, collect, keep, insert_sorted, comes_before,
  sort_approvals, list_run_approvals, or_nil, approval_index_key,
}
use ai_etl_platform.Agent.Approval.Order.{comes_before_asymm}

Among-insert_sorted :
    (a b : ApprovalRequest) (xs : List ApprovalRequest)
    → Among a (insert_sorted b xs) ↔ ((a ≡ b) ⊎ Among a xs)
unfolding insert_sorted
Among-insert_sorted a b [] = (λ h. h, λ h. h)
Among-insert_sorted a b (x ∷ xs) =
    let ih = Among-insert_sorted a b xs in
    elim (Bool-cases (comes_before x b)) [
      | inl e ↦ rw e (λ h. ground (arith, ih.0, h), λ h. ground (arith, ih.1, h))
      | inr e ↦ rw e (λ h. h, λ h. h)
    ]

Among-sort_approvals :
    (a : ApprovalRequest) (xs : List ApprovalRequest) → Among a (sort_approvals xs) ↔ Among a xs
unfolding sort_approvals
Among-sort_approvals a [] = (λ h. h, λ h. h)
Among-sort_approvals a (x ∷ xs) =
    let ih = Among-sort_approvals a xs in
    let at = Among-insert_sorted a x (sort_approvals xs) in
    (
      λ h. elim (at.0 h) [ inl e ↦ inl e | inr t ↦ inr (ih.0 t) ],
      λ h. elim h [ inl e ↦ at.1 (inl e) | inr t ↦ at.1 (inr (ih.1 t)) ],
    )

Among-keep :
    (a : ApprovalRequest) (tenant run : String) (o : Option ApprovalRequest)
    (rest : List ApprovalRequest)
    → Among a (keep tenant run o rest)
      ↔ (((o ≡ some a) × (of_run tenant run (some a) ≡ true)) ⊎ Among a rest)
unfolding keep
Among-keep a tenant run none rest =
    (λ h. inr h, λ h. elim h [ inl e ↦ absurd (cc e.0) | inr t ↦ t ])
Among-keep a tenant run (some b) rest = elim (Bool-cases (of_run tenant run (some b))) [
  | inl e ↦ rw e (λ h. ground (arith, e, h), λ h. ground (arith, e, h))
  | inr e ↦ rw e (λ h. inr h, λ h. ground (arith, e, h))
]

Among-collect :
    (m : Dict ApprovalRequest) (tenant run : String) (ids : List String) (a : ApprovalRequest)
    → Among a (collect m tenant run ids)
      ↔ ((id : String) × Among id ids × (get m id ≡ some a) × (of_run tenant run (some a) ≡ true))
unfolding collect
Among-collect m tenant run [] a = (λ h. absurd h, λ h. absurd h.1)
Among-collect m tenant run (id ∷ ids) a =
    let ih = Among-collect m tenant run ids a in
    let at = Among-keep a tenant run (get m id) (collect m tenant run ids) in
    (
      λ h. elim (at.0 h) [
        | inl e ↦ (id, inl refl, e.0, e.1)
        | inr t ↦ let (j, l, g, r) = ih.0 t in (j, inr l, g, r)
      ],
      λ (j, l, g, r).
          at.1 (elim l [ inl e ↦ inl (rw e at g, r) | inr t ↦ inr (ih.1 (j, t, g, r)) ]),
    )

-- With an index that names every stored approval, the listing of a run holds exactly the stored
-- approvals of that tenant and run, whatever other runs share its index key.
pub list_run_approvals_iff :
    (s : ApprovalStore) (tenant run : String) (a : ApprovalRequest)
    → IsIndexed s
    → Among a (list_run_approvals tenant run s)
      ↔ ((get s.approvals a.id ≡ some a) × (a.tenant_id ≡ tenant) × (a.run_id ≡ run))
unfolding list_run_approvals
list_run_approvals_iff s tenant run a v =
    let key = approval_index_key tenant run in
    let ids = or_nil (get s.by_run key) in
    let sorted = Among-sort_approvals a (collect s.approvals tenant run ids) in
    let listed = Among-collect s.approvals tenant run ids a in
    (
      λ h.
          let (id, l, g, r) = listed.0 (sorted.0 h) in
          (
            subst (λ k. get s.approvals k ≡ some a) (sym (v.own_id id a g)) g,
            ground (arith, r, eq_iff a.tenant_id tenant),
            ground (arith, r, eq_iff a.run_id run),
          ),
      λ (g, t, r). sorted.1 (
          listed.1 (
            a.id,
            subst₂ (λ x y. Among a.id (or_nil (get s.by_run (approval_index_key x y)))) t r
                (v.named a.id a g),
            g,
            ground (arith, t, r, eq_iff a.tenant_id tenant, eq_iff a.run_id run),
          )),
    )

-- No element comes strictly before the one in front of it.
abbrev pub IsOrdered : List ApprovalRequest → Type 0
IsOrdered [] = Unit
IsOrdered (a ∷ []) = Unit
IsOrdered (a ∷ b ∷ rest) = (comes_before b a ≡ false) × IsOrdered (b ∷ rest)

insert_sorted-IsOrdered :
    (a : ApprovalRequest) (xs : List ApprovalRequest)
    → IsOrdered xs
    → IsOrdered (insert_sorted a xs)
unfolding insert_sorted
insert_sorted-IsOrdered a [] h = tt
insert_sorted-IsOrdered a (x ∷ []) h = elim (Bool-cases (comes_before x a)) [
  | inl e ↦ rw e (comes_before_asymm x a e, tt)
  | inr e ↦ rw e (e, tt)
]
insert_sorted-IsOrdered a (x ∷ y ∷ rest) h =
    let ih = insert_sorted-IsOrdered a (y ∷ rest) h.1 in
    ground (arith, h.0, h.1, ih, comes_before_asymm x a)

sort_approvals-IsOrdered : (xs : List ApprovalRequest) → IsOrdered (sort_approvals xs)
unfolding sort_approvals
sort_approvals-IsOrdered [] = tt
sort_approvals-IsOrdered (x ∷ xs) =
    insert_sorted-IsOrdered x (sort_approvals xs) (sort_approvals-IsOrdered xs)

-- The listing is sorted by step index, then request time, then id.
list_run_approvals-IsOrdered :
    (s : ApprovalStore) (tenant run : String) → IsOrdered (list_run_approvals tenant run s)
unfolding list_run_approvals
list_run_approvals-IsOrdered s tenant run =
    sort_approvals-IsOrdered
      (collect s.approvals tenant run (or_nil (get s.by_run (approval_index_key tenant run))))
