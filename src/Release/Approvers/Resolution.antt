-- ===== src/Release/Approvers/Resolution.antt =====
-- The resolved policy applies, and no policy that applies outranks it.
use ai_etl_platform.Common.{
  ℕ, ◌+◌, ◌≤◌, ◌<◌, str_eq, eq_iff, equal_fold, ℤ, pos, negsuc, int_lt, String, Option, none, some,
  ◌≡◌, ◌⊎◌, inl, inr, refl, Bool, true, false, arith, List, [], ◌∷◌, Dict, Bool-cases,
  if◌then◌else◌,
}
use ai_etl_platform.Release.Center.{RiskLevel, risk_rank}
use ai_etl_platform.Release.Approvers.{
  is_unset, policy_matches, policy_specificity, ApprovalPolicy, ApprovalPolicyStore, applies,
  matching, outranks, insert_policy, sort_policies, first, resolve_approval_policy,
}

-- The policy stands in the map.
abbrev pub Stored : ApprovalPolicy → Dict ApprovalPolicy → Type 0
Stored p [] = ⊥
Stored p ((key, q) ∷ rest) = (p ≡ q) ⊎ Stored p rest

-- No policy of the map both passes the test and outranks `p`.
abbrev IsBest : (ApprovalPolicy → Bool) → ApprovalPolicy → Dict ApprovalPolicy → Type 0
IsBest test p [] = Unit
IsBest test p ((key, q) ∷ rest) = ((test q ≡ false) ⊎ (outranks q p ≡ false)) × IsBest test p rest

-- No policy of the map passes the test.
abbrev NoneApplies : (ApprovalPolicy → Bool) → Dict ApprovalPolicy → Type 0
NoneApplies test [] = Unit
NoneApplies test ((key, q) ∷ rest) = (test q ≡ false) × NoneApplies test rest

int_lt_asymm : (a b : ℤ) → int_lt a b ≡ true → int_lt b a ≡ false
int_lt_asymm (pos m) (pos n) h = ground arith
int_lt_asymm (pos m) (negsuc n) h = ground arith
int_lt_asymm (negsuc m) (pos n) h = ground arith
int_lt_asymm (negsuc m) (negsuc n) h = ground arith

int_lt_join : (a b c : ℤ) → int_lt a b ≡ false → int_lt b c ≡ false → int_lt a c ≡ false
int_lt_join (pos l) (pos m) (pos n) h k = ground arith
int_lt_join (pos l) (pos m) (negsuc n) h k = refl
int_lt_join (pos l) (negsuc m) (pos n) h k = ground arith
int_lt_join (pos l) (negsuc m) (negsuc n) h k = refl
int_lt_join (negsuc l) (pos m) c h k = ground arith
int_lt_join (negsuc l) (negsuc m) (pos n) h k = ground arith
int_lt_join (negsuc l) (negsuc m) (negsuc n) h k = ground arith

outranks_asymm : (p q : ApprovalPolicy) → outranks p q ≡ true → outranks q p ≡ false
unfolding outranks
outranks_asymm p q h = ground (arith, int_lt_asymm q.priority p.priority)

outranks_join :
    (p q r : ApprovalPolicy) → outranks p q ≡ false → outranks q r ≡ false → outranks p r ≡ false
unfolding outranks
outranks_join p q r h k = ground (arith, int_lt_join r.priority q.priority p.priority)

insert_policy_head :
    (p : ApprovalPolicy) (ps : List ApprovalPolicy)
    → first (insert_policy p ps)
      ≡ elim (first ps) [ none ↦ some p | some q ↦ if outranks q p then some q else some p ]
unfolding insert_policy
insert_policy_head p [] = refl
insert_policy_head p (q ∷ qs) = ground arith

-- a policy that ties with the best or is outranked by it takes over its place
IsBest-join :
    (test : ApprovalPolicy → Bool) (p q : ApprovalPolicy) (m : Dict ApprovalPolicy)
    → outranks q p ≡ false
    → IsBest test q m
    → IsBest test p m
IsBest-join test p q [] h t = tt
IsBest-join test p q ((key, r) ∷ rest) h (inl e, t) = (inl e, IsBest-join test p q rest h t)
IsBest-join test p q ((key, r) ∷ rest) h (inr e, t) =
    (inr (outranks_join r q p e h), IsBest-join test p q rest h t)

NoneApplies-IsBest :
    (test : ApprovalPolicy → Bool) (p : ApprovalPolicy) (m : Dict ApprovalPolicy)
    → NoneApplies test m
    → IsBest test p m
NoneApplies-IsBest test p [] h = tt
NoneApplies-IsBest test p ((key, q) ∷ rest) h = (inl h.0, NoneApplies-IsBest test p rest h.1)

outranks_self : (p : ApprovalPolicy) → outranks p p ≡ false
outranks_self p = elim (Bool-cases (outranks p p)) [ inl e ↦ outranks_asymm p p e | inr e ↦ e ]

-- What a resolution among the policies of a map answers.
abbrev Picks : (ApprovalPolicy → Bool) → Dict ApprovalPolicy → Option ApprovalPolicy → Type 0
Picks test m none = NoneApplies test m
Picks test m (some p) = Stored p m × (test p ≡ true) × IsBest test p m

picks :
    (test : ApprovalPolicy → Bool) (m : Dict ApprovalPolicy)
    → Picks test m (first (sort_policies (matching test m)))
unfolding sort_policies matching
picks test [] = tt
picks test ((key, p) ∷ rest) =
    let ih = picks test rest in
    elim (Bool-cases (test p)) [
      | inl e ↦
          rw (e, insert_policy_head p (sort_policies (matching test rest)))
            (extended (first (sort_policies (matching test rest))) e ih)
      | inr e ↦ rw e (kept (first (sort_policies (matching test rest))) e ih)
    ]
  where
    kept :
        (o : Option ApprovalPolicy)
        → test p ≡ false
        → Picks test rest o
        → Picks test ((key, p) ∷ rest) o
    kept none e h = (e, h)
    kept (some q) e h = (inr h.0, h.1, (inl e, h.2))

    extended :
        (o : Option ApprovalPolicy)
        → test p ≡ true
        → Picks test rest o
        → Picks test
            ((key, p) ∷ rest)
            (elim o [ none ↦ some p | some q ↦ if outranks q p then some q else some p ])
    extended none e h = (inl refl, e, (inr (outranks_self p), NoneApplies-IsBest test p rest h))
    extended (some q) e h = elim (Bool-cases (outranks q p)) [
      | inl b ↦ rw b (inr h.0, h.1, (inr (outranks_asymm q p b), h.2))
      | inr b ↦ rw b (inl refl, e, (inr (outranks_self p), IsBest-join test p q rest b h.2))
    ]

-- The policy is an active one of the tenant, it names no space or this one, and no permission or
-- this one in whatever case, and the risk is at least its smallest, a low one where it names none.
pub record Applies (tenant_id space permission : String) (risk : RiskLevel) (p : ApprovalPolicy)
    : Type 0 where
  pub same_tenant : p.tenant_id ≡ tenant_id
  pub active : p.active ≡ true
  pub of_space : (p.knowledge_space_id ≡ "") ⊎ (p.knowledge_space_id ≡ space)
  pub of_permission : (p.permission ≡ "") ⊎ (equal_fold p.permission permission ≡ true)
  pub of_risk :
      ((is_unset p.minimum_risk ≡ true) × (1 ≤ risk_rank risk))
      ⊎ ((is_unset p.minimum_risk ≡ false) × (risk_rank p.minimum_risk ≤ risk_rank risk))

abbrev worth : ℕ → String → ℕ
worth n text = if str_eq text "" then 0 else n

-- How specific a policy is: 4 for a space, 2 for a permission, and the rank of the smallest risk.
abbrev pub score : ApprovalPolicy → ℕ
score p = worth 4 p.knowledge_space_id + worth 2 p.permission + risk_rank p.minimum_risk

-- The first policy is more specific, or as specific and of a larger priority.
abbrev pub IsPreferred : ApprovalPolicy → ApprovalPolicy → Type 0
IsPreferred p q =
    (score q < score p) ⊎ ((score p ≡ score q) × (int_lt q.priority p.priority ≡ true))

-- Each policy of the map does not apply or is not preferred to `p`.
abbrev pub Tops : (ApprovalPolicy → Type 0) → ApprovalPolicy → Dict ApprovalPolicy → Type 0
Tops A p [] = Unit
Tops A p ((key, q) ∷ rest) = ((A q → ⊥) ⊎ (IsPreferred q p → ⊥)) × Tops A p rest

-- No policy of the map applies.
abbrev pub Lacks : (ApprovalPolicy → Type 0) → Dict ApprovalPolicy → Type 0
Lacks A [] = Unit
Lacks A ((key, q) ∷ rest) = (A q → ⊥) × Lacks A rest

-- What a resolution among the policies of a map answers.
abbrev pub Resolves :
    (ApprovalPolicy → Type 0) → Dict ApprovalPolicy → Option ApprovalPolicy → Type 0
Resolves A m none = Lacks A m
Resolves A m (some p) = Stored p m × A p × Tops A p m

outranks-IsPreferred : (p q : ApprovalPolicy) → IsPreferred p q → outranks p q ≡ true
unfolding outranks policy_specificity
outranks-IsPreferred p q h = ground (arith, h)

module _ (tenant_id space permission : String) (risk : RiskLevel) where
  abbrev test : ApprovalPolicy → Bool
  test = applies tenant_id space permission risk

  abbrev A : ApprovalPolicy → Type 0
  A = Applies tenant_id space permission risk

  Applies-applies : (p : ApprovalPolicy) → A p → test p ≡ true
  unfolding applies policy_matches
  Applies-applies p h = ground (
    arith,
    h.same_tenant,
    h.active,
    h.of_space,
    h.of_permission,
    h.of_risk,
    eq_iff p.tenant_id tenant_id,
    eq_iff p.knowledge_space_id "",
    eq_iff p.knowledge_space_id space,
    eq_iff p.permission "",
  )

  applies-Applies : (p : ApprovalPolicy) → test p ≡ true → A p
  unfolding applies policy_matches
  applies-Applies p h = record {
    same_tenant = ground (arith, h, eq_iff p.tenant_id tenant_id);
    active = ground (arith, h);
    of_space = ground (arith, h, eq_iff p.knowledge_space_id "", eq_iff p.knowledge_space_id space);
    of_permission = ground (arith, h, eq_iff p.permission "");
    of_risk = elim (Bool-cases (is_unset p.minimum_risk)) [
      | inl e ↦ inl (e, ground (arith, h, e))
      | inr e ↦ inr (e, ground (arith, h, e))
    ];
  }

  lacks : (m : Dict ApprovalPolicy) → NoneApplies test m → Lacks A m
  lacks [] h = tt
  lacks ((key, q) ∷ rest) h =
      (λ a. absurd (ground (arith, h.0, Applies-applies q a)), lacks rest h.1)

  tops : (p : ApprovalPolicy) (m : Dict ApprovalPolicy) → IsBest test p m → Tops A p m
  tops p [] h = tt
  tops p ((key, q) ∷ rest) (inl e, t) =
      (inl (λ a. absurd (ground (arith, e, Applies-applies q a))), tops p rest t)
  tops p ((key, q) ∷ rest) (inr e, t) =
      (inr (λ b. absurd (ground (arith, e, outranks-IsPreferred q p b))), tops p rest t)

  resolves : (m : Dict ApprovalPolicy) (o : Option ApprovalPolicy) → Picks test m o → Resolves A m o
  resolves m none h = lacks m h
  resolves m (some p) h = (h.0, applies-Applies p h.1, tops p m h.2)

-- A resolved policy is stored and active, is one of the tenant that applies to the space, the
-- permission and the risk, and no other such policy has a larger score, or as large a one and a
-- larger priority; of policies that tie in both, the map's order decides. No policy is resolved
-- only if none of the tenant's applies.
pub resolve_approval_policy_lem :
    (tenant_id space permission : String) (risk : RiskLevel) (s : ApprovalPolicyStore)
    → Resolves
        (Applies tenant_id space permission risk)
        s.policies
        (resolve_approval_policy tenant_id space permission risk s)
unfolding resolve_approval_policy
resolve_approval_policy_lem tenant_id space permission risk s =
    resolves tenant_id space permission risk s.policies
      (resolve_approval_policy tenant_id space permission risk s)
      (picks (applies tenant_id space permission risk) s.policies)
