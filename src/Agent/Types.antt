-- ===== src/Agent/Types.antt =====
-- internal/agent/types.go: runs, steps and planner decisions; the error values of the package.
-- A time is a number of nanoseconds since Go's zero time, so 0 is the zero `time.Time`. Versions,
-- tokens and counts are int64 or int in the source, never negative here and unbounded.
use ai_etl_platform.Common.{ℕ, ◌+◌, String, Bool, true, false, Option, List, Dict}

pub data RunState : Type 0 where
  created running waiting_tool pending_approval completed failed cancelled : RunState

pub data StepType : Type 0 where
  tool_call final error : StepType

-- A finite float64: a sign, and `m / 2 ^ k`.
pub data Float64 : Type 0 where
  dyadic : Bool → ℕ → ℕ → Float64

-- What `json.Unmarshal` stores in an `interface{}`.
mutual
  pub data Json : Type 0 where
    null : Json
    bool : Bool → Json
    num : Float64 → Json
    str : String → Json
    arr : Items → Json
    obj : Fields → Json

  pub data Items : Type 0 where
    nil : Items
    cons : Json → Items → Items

  pub data Fields : Type 0 where
    end : Fields
    field : String → Json → Fields → Fields

-- A `json.RawMessage`, by what decoding it gives: no bytes, bytes that are no JSON, or a value.
pub data RawMessage : Type 0 where
  no_bytes : RawMessage
  malformed : RawMessage
  encoded : Json → RawMessage

-- The errors of the package. Where the source stores `err.Error()`, the model stores the error.
pub data Fault : Type 0 where
  -- a literal text, or the error of a planner or a tool
  reason : String → Fault
  -- store.go and lock.go
  run_id_required token_required : Fault
  run_exists run_not_found : String → Fault
  version_conflict stale_token : String → ℕ → ℕ → Fault
  owner_required ttl_required lease_invalid : Fault
  lock_held : String → String → Fault
  -- policy.go, schema.go and tools.go
  tenant_required user_required : Fault
  missing_permission approval_required : String → Fault
  bad_schema_root bad_argument missing_argument unknown_argument : String → Fault
  malformed_arguments arguments_not_object : Fault
  unknown_tool handler_required needs_compensation tool_exists no_compensation : String → Fault
  tool_name_required : Fault
  -- orchestrator.go
  task_required index_out_of_range : Fault
  binding_conflict wrong_tenant cancel_forbidden already_terminal not_pending : String → Fault

-- errors.As(err, &ApprovalRequiredError{})
abbrev pub is_approval_required : Fault → Bool
is_approval_required (approval_required _) = true
is_approval_required _ = false

pub record Actor : Type 0 where
  pub tenant_id : String
  pub user_id : String
  pub role : String
  pub permissions : List String
  pub approved_tools : List String

pub record ToolResult : Type 0 where
  pub content : String
  pub payload : Dict Json
  pub retryable : Bool
  pub compensation_required : Bool

pub record PlanUsage : Type 0 where
  pub prompt_tokens : ℕ
  pub completion_tokens : ℕ
  pub estimated : Bool

unfoldable pub total : PlanUsage → ℕ
total u = u.prompt_tokens + u.completion_tokens

-- `PlanUsage{}`
abbrev pub no_usage : PlanUsage
no_usage = record { prompt_tokens = 0; completion_tokens = 0; estimated = false }

-- `idempotencyKey` formats a run id, a step index and a tool name into a text: kept apart here
abbrev pub IdempotencyKey : Type 0
IdempotencyKey = String × ℕ × String

pub record Step : Type 0 where
  pub index : ℕ
  pub type : StepType
  pub state : RunState
  pub thought : String
  pub planner_usage : PlanUsage
  pub tool_name : String
  pub tool_arguments : RawMessage
  pub tool_result : Option ToolResult
  pub compensation_result : Option ToolResult
  pub observation : String
  pub idempotency_key : Option IdempotencyKey
  pub compensated : Bool
  pub started_at : ℕ
  pub completed_at : ℕ
  -- the signed `Duration` is `completed_at - started_at` wherever it is set, and is left out
  pub fault : Option Fault
  pub compensation_fault : Option Fault

pub record Run : Type 0 where
  pub id : String
  pub tenant_id : String
  pub user_id : String
  pub version : ℕ
  pub fencing_token : ℕ
  pub task : String
  pub state : RunState
  pub max_steps : ℕ
  pub max_token_budget : ℕ
  pub tokens_used : ℕ
  pub steps : List Step
  pub memory : Dict Json
  pub final : String
  pub fault : Option Fault
  pub cancelled_by : String
  pub cancel_reason : String
  pub cancelled_at : ℕ
  pub created_at : ℕ
  pub updated_at : ℕ

-- `DecisionType` is a string: any other value is `other`
pub data DecisionType : Type 0 where
  call_tool finish : DecisionType
  other : String → DecisionType

pub record PlanDecision : Type 0 where
  pub type : DecisionType
  pub thought : String
  pub tool_name : String
  pub arguments : RawMessage
  pub final : String
  pub usage : PlanUsage

abbrev pub terminal_state : RunState → Bool
terminal_state RunState.completed = true
terminal_state RunState.failed = true
terminal_state RunState.cancelled = true
terminal_state _ = false
