-- ===== src/Agent/Tools/Registration.antt =====
-- What holds of every registered tool, and when a tool's handler runs.
use ai_etl_platform.Common.{
  if◌then◌else◌, str_eq, Outcome-cases, ℕ, String, ◌≡◌, ◌⊎◌, inl, inr, Option, none, some, true,
  false, arith, get, get-put, has, eq_iff, ok, err, Dict, Option-cases,
}
use ai_etl_platform.Agent.Types.{Fault, unknown_tool, Actor, RawMessage, Json}
use ai_etl_platform.Agent.Schema.{validate_arguments}
use ai_etl_platform.Agent.Tools.Definition.{ToolDefinition}
use ai_etl_platform.Agent.Tools.{
  RegisteredTool, Registry, Handler, Compensator, Authorizer, Reply, normalize_tool_name, register,
  lookup, permission, with_defaults, prepare, execute, no_result, invocation,
}

-- A registered tool stands under its own name, and its side effects can be repeated or undone.
pub record IsSound (key : String) (tool : RegisteredTool) : Type 0 where
  pub own_name : tool.definition.name ≡ key
  pub safe :
      (tool.definition.side_effect ≡ false)
      ⊎ (tool.definition.idempotent ≡ true)
      ⊎ (has tool.compensator ≡ true)

pub record IsSoundRegistry (tools : Registry) : Type 0 where
  pub at : (key : String) (tool : RegisteredTool) → get tools key ≡ some tool → IsSound key tool

-- Registration keeps a registry in which every tool stands under its own normalised name and is
-- free of side effects, idempotent or compensated.
register-IsSoundRegistry :
    (definition : ToolDefinition) (handler : Option Handler) (compensator : Option Compensator)
    (tools : Registry)
    → IsSoundRegistry tools
    → IsSoundRegistry (register definition handler compensator tools).1
unfolding register
register-IsSoundRegistry definition none compensator tools h = record {
  at = λ key tool e. h.at key tool (ground (arith, e));
}
register-IsSoundRegistry definition (some handler) compensator tools h = record {
  at = λ key tool e.
      let name = normalize_tool_name definition.name in
      let new : RegisteredTool = record {
        definition = with_defaults name definition;
        handler = handler;
        compensator = compensator;
      } in
      ground (arith, h.at key tool, e, eq_iff name key, get-put tools name key new);
}

-- A registration that succeeds found no tool under the name. The tool is then found under every
-- spelling with the same normal form, with its handler and compensator; every other tool is found
-- as before.
lookup-register :
    (definition : ToolDefinition) (handler : Handler) (compensator : Option Compensator)
    (tools : Registry) (name : String)
    → (register definition (some handler) compensator tools).0 ≡ none
    → (lookup tools definition.name ≡ none)
      × (lookup (register definition (some handler) compensator tools).1 name ≡ (
          if str_eq (normalize_tool_name definition.name) (normalize_tool_name name)
          then some (record {
            definition = with_defaults (normalize_tool_name definition.name) definition;
            handler = handler;
            compensator = compensator;
          })
          else lookup tools name))
unfolding register lookup
lookup-register definition handler compensator tools name h =
    let key = normalize_tool_name definition.name in
    let new : RegisteredTool = record {
      definition = with_defaults key definition;
      handler = handler;
      compensator = compensator;
    } in
    (ground (arith, h), ground (arith, h, get-put tools key (normalize_tool_name name) new))

-- What a call may answer, and when: its four outcomes exclude one another.
pub data Answers (tools : Registry) (call : ℕ) (actor : Actor) (run_id : String) (step_index : ℕ)
    (name : String) (raw : RawMessage) (authorizer : Option Authorizer) : Reply → Type 0 where
  unknown :
      lookup tools name ≡ none
      → Answers tools call actor run_id step_index name raw authorizer
          (no_result, some (unknown_tool name))
  invalid :
      {tool : RegisteredTool} {e : Fault}
      → lookup tools name ≡ some tool
      → validate_arguments tool.definition.parameters raw ≡ err e
      → Answers tools call actor run_id step_index name raw authorizer (no_result, some e)
  denied :
      {tool : RegisteredTool} {args : Dict Json} {e : Fault}
      → lookup tools name ≡ some tool
      → validate_arguments tool.definition.parameters raw ≡ ok args
      → permission authorizer actor tool.definition ≡ some e
      → Answers tools call actor run_id step_index name raw authorizer (no_result, some e)
  served :
      {tool : RegisteredTool} {args : Dict Json}
      → lookup tools name ≡ some tool
      → validate_arguments tool.definition.parameters raw ≡ ok args
      → permission authorizer actor tool.definition ≡ none
      → Answers tools call actor run_id step_index name raw authorizer
          (tool.handler call (invocation actor run_id step_index tool args))

-- A call reaches the handler only past the registry, the schema and the authorizer. An unknown
-- tool, arguments that do not decode and conform, and an objection of the authorizer each give
-- that error beside an empty result, with no call of the handler; otherwise the reply is the
-- handler's, for the decoded arguments.
pub execute_guarded :
    (tools : Registry) (call : ℕ) (actor : Actor) (run_id : String) (step_index : ℕ) (name : String)
    (raw : RawMessage) (authorizer : Option Authorizer)
    → Answers tools call actor run_id step_index name raw authorizer
        (execute tools call actor run_id step_index name raw authorizer)
unfolding execute prepare
execute_guarded tools call actor run_id step_index name raw authorizer =
    elim (Option-cases (lookup tools name)) [
      | inl h ↦ rw (h, execute, prepare) (unknown h)
      | inr (tool, h) ↦ elim (Outcome-cases (validate_arguments tool.definition.parameters raw)) [
        | inl (e, v) ↦ rw (h, v, execute, prepare) (invalid h v)
        | inr (args, v) ↦ elim (Option-cases (permission authorizer actor tool.definition)) [
          | inl p ↦ rw (h, v, p, execute, prepare) (served h v p)
          | inr (e, p) ↦ rw (h, v, p, execute, prepare) (denied h v p)
        ]
      ]
    ]
