-- ===== src/Agent/Policy.antt =====
-- internal/agent/policy.go: the static authorizer.
pub mod Access
use ai_etl_platform.Common.{
  String, Option, none, some, List, [], ◌∷◌, Bool, true, false, ◌&&◌, ◌||◌, not, if◌then◌else◌,
  trim_space, equal_fold, is_blank,
}
use ai_etl_platform.Agent.Types.{
  Fault, Actor, tenant_required, user_required, missing_permission, approval_required,
}
use ai_etl_platform.Agent.Tools.Definition.{ToolDefinition}

unfoldable pub has_string : List String → String → Bool
has_string [] target = false
has_string (value ∷ values) target =
    equal_fold (trim_space value) (trim_space target) || has_string values target

-- the loop over the required permissions
missing : List String → List String → Option Fault
missing held [] = none
missing held (required ∷ rest) =
    let later = missing held rest in
    if is_blank required
    then later
    else if not (has_string held (trim_space required))
    then some (missing_permission (trim_space required))
    else later

unfoldable pub authorize : Actor → ToolDefinition → Option Fault
unfolding missing
authorize actor tool =
    if is_blank actor.tenant_id
    then some tenant_required
    else if is_blank actor.user_id
    then some user_required
    else elim (missing actor.permissions tool.required_permissions) [
      | some e ↦ some e
      | none ↦
          if tool.requires_approval && not (has_string actor.approved_tools tool.name)
          then some (approval_required tool.name)
          else none
    ]
