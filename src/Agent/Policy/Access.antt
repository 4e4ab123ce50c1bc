-- ===== src/Agent/Policy/Access.antt =====
-- What the static authorizer lets through.
use ai_etl_platform.Common.{
  ◌≡◌, ◌↔◌, ◌⊎◌, inl, inr, refl, String, none, List, [], ◌∷◌, true, false, arith, trim_space,
  equal_fold, is_blank, Bool-cases,
}
use ai_etl_platform.Agent.Types.{Actor}
use ai_etl_platform.Agent.Tools.Definition.{ToolDefinition}
use ai_etl_platform.Agent.Policy.{has_string, missing, authorize}

-- `values` has an entry that is `target` up to case and outer white space.
pub data Holds : List String → String → Type 0 where
  here :
      {value : String} {values : List String} {target : String}
      → equal_fold (trim_space value) (trim_space target) ≡ true
      → Holds (value ∷ values) target
  later :
      {value : String} {values : List String} {target : String}
      → Holds values target
      → Holds (value ∷ values) target

-- Each required permission that is not blank is held.
abbrev pub HoldsAll : List String → List String → Type 0
HoldsAll held [] = Unit
HoldsAll held (r ∷ rs) = ((is_blank r ≡ true) ⊎ Holds held (trim_space r)) × HoldsAll held rs

has_string→Holds :
    (vs : List String) (target : String) → has_string vs target ≡ true → Holds vs target
unfolding has_string
has_string→Holds [] target h = absurd (ground (arith, h))
has_string→Holds (v ∷ vs) target h =
    elim (Bool-cases (equal_fold (trim_space v) (trim_space target))) [
      | inl e ↦ here e
      | inr e ↦ later (has_string→Holds vs target (ground (arith, e, h)))
    ]

Holds→has_string :
    {vs : List String} {target : String} → Holds vs target → has_string vs target ≡ true
unfolding has_string
Holds→has_string (here e) = ground (arith, e)
Holds→has_string (later h) = ground (arith, Holds→has_string h)

missing→HoldsAll : (held rs : List String) → missing held rs ≡ none → HoldsAll held rs
unfolding missing
missing→HoldsAll held [] h = tt
missing→HoldsAll held (r ∷ rs) h = elim (Bool-cases (is_blank r)) [
  | inl b ↦ (inl b, missing→HoldsAll held rs (ground (arith, b, h)))
  | inr b ↦ (
    inr (has_string→Holds held _ (ground (arith, b, h))),
    missing→HoldsAll held rs (ground (arith, b, h)),
  )
]

HoldsAll→missing : (held rs : List String) → HoldsAll held rs → missing held rs ≡ none
unfolding missing
HoldsAll→missing held [] h = refl
HoldsAll→missing held (r ∷ rs) (inl b, h) = ground (arith, b, HoldsAll→missing held rs h)
HoldsAll→missing held (r ∷ rs) (inr b, h) =
    ground (arith, Holds→has_string b, HoldsAll→missing held rs h)

-- An actor may use a tool exactly when tenant and user are named, every required permission that
-- is not blank is held, and, if the tool wants approval, the tool is among the approved ones.
-- (Blank is empty after trimming; names are compared up to case and outer white space.)
pub authorize_iff :
    (actor : Actor) (tool : ToolDefinition)
    → (authorize actor tool ≡ none) ↔ (
        (is_blank actor.tenant_id ≡ false)
        × (is_blank actor.user_id ≡ false)
        × HoldsAll actor.permissions tool.required_permissions
        × ((tool.requires_approval ≡ false) ⊎ Holds actor.approved_tools tool.name))
unfolding authorize
authorize_iff actor tool = (allowed, λ h. permitted h.0 h.1 h.2 h.3)
  where
    approved :
        authorize actor tool ≡ none
        → (tool.requires_approval ≡ false) ⊎ Holds actor.approved_tools tool.name
    approved h = elim (Bool-cases tool.requires_approval) [
      | inl r ↦ inr (has_string→Holds actor.approved_tools tool.name (ground (arith, r, h)))
      | inr r ↦ inl r
    ]

    allowed :
        authorize actor tool ≡ none
        → (is_blank actor.tenant_id ≡ false)
          × (is_blank actor.user_id ≡ false)
          × HoldsAll actor.permissions tool.required_permissions
          × ((tool.requires_approval ≡ false) ⊎ Holds actor.approved_tools tool.name)
    allowed h = (
      ground (arith, h),
      ground (arith, h),
      missing→HoldsAll actor.permissions tool.required_permissions (ground (arith, h)),
      approved h,
    )

    permitted :
        is_blank actor.tenant_id ≡ false
        → is_blank actor.user_id ≡ false
        → HoldsAll actor.permissions tool.required_permissions
        → (tool.requires_approval ≡ false) ⊎ Holds actor.approved_tools tool.name
        → authorize actor tool ≡ none
    permitted t u p (inl r) =
        ground (arith, HoldsAll→missing actor.permissions tool.required_permissions p)
    permitted t u p (inr a) =
        ground (
          arith,
          HoldsAll→missing actor.permissions tool.required_permissions p,
          Holds→has_string a,
        )
