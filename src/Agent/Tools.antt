-- ===== src/Agent/Tools.antt =====
-- internal/agent/tools.go: the registry of tools. A handler or compensator is code that the
-- registry calls and does not know: a function of the number of the call, so that two calls may
-- answer differently, and of what the source passes to it.
pub mod Definition
pub mod Registration
use ai_etl_platform.Common.{
  ℕ, String, str_eq, trim_space, to_lower, Option, none, some, List, [], Bool, false, ◌&&◌, ◌||◌,
  not, if◌then◌else◌, Dict, get, put, has, Outcome, ok, err, ◌>>=◌, ◌>>◌, check,
}
use ai_etl_platform.Agent.Types.{
  Fault, Actor, ToolResult, Json, RawMessage, unknown_tool, handler_required, needs_compensation,
  IdempotencyKey, tool_exists, no_compensation, tool_name_required,
}
use ai_etl_platform.Agent.Schema.{validate_arguments}
use ai_etl_platform.Agent.Tools.Definition.{ToolDefinition}

pub record ToolInvocation : Type 0 where
  pub run_id : String
  pub step_index : ℕ
  pub tenant_id : String
  pub user_id : String
  pub role : String
  pub permissions : List String
  pub tool_name : String
  pub arguments : Dict Json
  pub idempotency_key : IdempotencyKey

-- `(ToolResult, error)`: a handler may return both a result and an error
abbrev pub Reply : Type 0
Reply = ToolResult × Option Fault

abbrev pub Handler : Type 0
Handler = ℕ → ToolInvocation → Reply

abbrev pub Compensator : Type 0
Compensator = ℕ → ToolInvocation → ToolResult → Reply

pub record RegisteredTool : Type 0 where
  pub definition : ToolDefinition
  pub handler : Handler
  pub compensator : Option Compensator

abbrev pub Registry : Type 0
Registry = Dict RegisteredTool

abbrev pub Authorizer : Type 0
Authorizer = Actor → ToolDefinition → Option Fault

unfoldable pub normalize_tool_name : String → String
normalize_tool_name name = to_lower (trim_space name)

unfoldable pub idempotency_key : String → ℕ → String → IdempotencyKey
unfolding normalize_tool_name
idempotency_key run_id step_index tool_name = (run_id, step_index, normalize_tool_name tool_name)

-- an empty schema type is set to "object"
abbrev with_defaults : String → ToolDefinition → ToolDefinition
with_defaults name definition = record definition {
  name = name;
  parameters = record (definition.parameters) {
    type = if str_eq definition.parameters.type "" then "object" else definition.parameters.type;
  };
}

unfoldable pub register :
    ToolDefinition → Option Handler → Option Compensator → Registry → Option Fault × Registry
register definition none compensator tools =
    let name = normalize_tool_name definition.name in
    if str_eq name ""
    then (some tool_name_required, tools)
    else (some (handler_required name), tools)
register definition (some handler) compensator tools =
    let name = normalize_tool_name definition.name in
    if str_eq name ""
    then (some tool_name_required, tools)
    else if definition.side_effect && not definition.idempotent && not (has compensator)
    then (some (needs_compensation name), tools)
    else if has (get tools name)
    then (some (tool_exists name), tools)
    else (
      none,
      put tools name (record {
        definition = with_defaults name definition;
        handler = handler;
        compensator = compensator;
      }),
    )

unfoldable pub lookup : Registry → String → Option RegisteredTool
lookup tools name = get tools (normalize_tool_name name)

unfoldable pub has_compensation : Registry → String → Bool
unfolding lookup
has_compensation tools name = elim (lookup tools name) [
  | none ↦ false
  | some tool ↦ has tool.compensator
]

abbrev pub found : String → Option RegisteredTool → Outcome Fault RegisteredTool
found name none = err (unknown_tool name)
found name (some tool) = ok tool

-- a nil authorizer allows everything
abbrev pub permission : Option Authorizer → Actor → ToolDefinition → Option Fault
permission none actor definition = none
permission (some authorizer) actor definition = authorizer actor definition

unfoldable pub prepare :
    Registry
    → Actor
    → String
    → RawMessage
    → Option Authorizer
    → Outcome Fault (RegisteredTool × Dict Json)
prepare tools actor name raw authorizer = do
  tool ← found name (lookup tools name)
  args ← validate_arguments tool.definition.parameters raw
  check (permission authorizer actor tool.definition)
  ok (tool, args)

abbrev pub invocation : Actor → String → ℕ → RegisteredTool → Dict Json → ToolInvocation
invocation actor run_id step_index tool args = record {
  run_id = run_id;
  step_index = step_index;
  tenant_id = actor.tenant_id;
  user_id = actor.user_id;
  role = actor.role;
  permissions = actor.permissions;
  tool_name = tool.definition.name;
  arguments = args;
  idempotency_key = idempotency_key run_id step_index tool.definition.name;
}

-- `ToolResult{}`
abbrev pub no_result : ToolResult
no_result = record { content = ""; payload = []; retryable = false; compensation_required = false }

-- the tool's timeout only bounds the context that the handler is given
unfoldable pub execute :
    Registry → ℕ → Actor → String → ℕ → String → RawMessage → Option Authorizer → Reply
execute tools call actor run_id step_index name raw authorizer =
    elim (prepare tools actor name raw authorizer) [
      | err e ↦ (no_result, some e)
      | ok (tool, args) ↦ tool.handler call (invocation actor run_id step_index tool args)
    ]

abbrev undo : Option Compensator → ℕ → ToolInvocation → ToolResult → Reply
undo none call i prior = (no_result, some (no_compensation i.tool_name))
undo (some compensator) call i prior = compensator call i prior

unfoldable pub compensate :
    Registry → ℕ → Actor → String → ℕ → String → RawMessage → ToolResult → Option Authorizer → Reply
compensate tools call actor run_id step_index name raw prior authorizer =
    elim (prepare tools actor name raw authorizer) [
      | err e ↦ (no_result, some e)
      | ok (tool, args) ↦
          undo tool.compensator call (invocation actor run_id step_index tool args) prior
    ]
