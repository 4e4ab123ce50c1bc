-- ===== src/Agent/Tools/Definition.antt =====
-- internal/agent/tools.go: what the registry and the authorizer know of a tool.
use ai_etl_platform.Common.{ℕ, String, Bool, List}
use ai_etl_platform.Agent.Schema.{JsonSchema}

pub record ToolDefinition : Type 0 where
  pub name : String
  pub description : String
  pub parameters : JsonSchema
  pub required_permissions : List String
  pub timeout : ℕ
  pub idempotent : Bool
  pub side_effect : Bool
  pub requires_approval : Bool
