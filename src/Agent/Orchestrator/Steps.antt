-- ===== src/Agent/Orchestrator/Steps.antt =====
-- internal/agent/orchestrator.go: the helpers that only compute a run, and compensation.
use ai_etl_platform.Common.{
  ℕ, zero, suc, ◌+◌, String, Option, none, some, List, [], ◌∷◌, ◌++◌, Bool, true, false, ◌&&◌, not,
  if◌then◌else◌, length,
}
use ai_etl_platform.Agent.Types.{
  Fault, Run, Step, StepType, RunState, Actor, PlanUsage, ToolResult, no_bytes, failed,
}
use ai_etl_platform.Agent.Tools.{Reply, Registry, has_compensation, compensate, no_result}
use ai_etl_platform.Agent.World.{Env}

abbrev pub is_tool_call : StepType → Bool
is_tool_call StepType.tool_call = true
is_tool_call _ = false

abbrev pub is_created : RunState → Bool
is_created RunState.created = true
is_created _ = false

abbrev pub is_pending : RunState → Bool
is_pending RunState.pending_approval = true
is_pending _ = false

abbrev pub is_completed : RunState → Bool
is_completed RunState.completed = true
is_completed _ = false

-- `waiting_tool` or `pending_approval`
abbrev pub is_waiting : RunState → Bool
is_waiting RunState.waiting_tool = true
is_waiting RunState.pending_approval = true
is_waiting _ = false

-- the states that `activeStepIndex` looks for
abbrev pub is_active : RunState → Bool
is_active RunState.created = true
is_active RunState.running = true
is_active RunState.waiting_tool = true
is_active RunState.pending_approval = true
is_active _ = false

-- a loop from the last step down to the first that passes the test
abbrev pub last_index : (Step → Bool) → List Step → Option ℕ
last_index test [] = none
last_index test (s ∷ ss) = elim (last_index test ss) [
  | some i ↦ some (suc i)
  | none ↦ if test s then some 0 else none
]

unfoldable pub pending_approval_step_index : List Step → Option ℕ
pending_approval_step_index = last_index (λ s. is_tool_call s.type && is_pending s.state)

unfoldable pub active_step_index : List Step → Option ℕ
active_step_index = last_index (λ s. is_active s.state)

-- `run.Steps[i]`, written through
unfoldable pub update_at : ℕ → (Step → Step) → List Step → List Step
update_at i f [] = []
update_at zero f (s ∷ ss) = f s ∷ ss
update_at (suc i) f (s ∷ ss) = s ∷ update_at i f ss

-- the step at an optional index is closed with a state and an error
abbrev close_step : RunState → Fault → ℕ → Step → Step
close_step state fault now s = record s { state = state; fault = some fault; completed_at = now }

abbrev pub close_at : Option ℕ → RunState → Fault → ℕ → List Step → List Step
close_at none state fault now steps = steps
close_at (some i) state fault now steps = update_at i (close_step state fault now) steps

unfoldable pub fail_active_run : Run → ℕ → Fault → Run
fail_active_run run now fault = record run {
  steps = close_at (active_step_index run.steps) failed fault now run.steps;
  state = failed;
  fault = some fault;
  updated_at = now;
}

abbrev pub new_step : ℕ → StepType → RunState → PlanUsage → ℕ → Step
new_step index type state usage now = record {
  index = index;
  type = type;
  state = state;
  thought = "";
  planner_usage = usage;
  tool_name = "";
  tool_arguments = no_bytes;
  tool_result = none;
  compensation_result = none;
  observation = "";
  idempotency_key = none;
  compensated = false;
  started_at = now;
  completed_at = 0;
  fault = none;
  compensation_fault = none;
}

-- the run that `failRunWithUsage` has before compensation
unfoldable pub failed_with_usage : Run → Fault → PlanUsage → ℕ → Run
failed_with_usage run fault usage now = record run {
  steps =
      run.steps
      ++ record (new_step (length run.steps + 1) StepType.error failed usage now) {
        fault = some fault;
        completed_at = now;
      }
        ∷ [];
  state = failed;
  fault = some fault;
  updated_at = now;
}

abbrev pub or_empty : Option ToolResult → ToolResult
or_empty none = no_result
or_empty (some r) = r

abbrev pub compensated_by : Reply → Step → Step
compensated_by (result, some e) s = record s { compensation_fault = some e }
compensated_by (result, none) s = record s { compensation_result = some result; compensated = true }

-- a completed tool call that can be undone and has not been
abbrev pub can_compensate : Registry → Step → Bool
can_compensate tools s =
    is_tool_call s.type
    && is_completed s.state
    && not s.compensated
    && has_compensation tools s.tool_name

-- `compensateCompletedSideEffects` from the last step to the first; no authorizer is asked
unfoldable pub compensate_steps : Env → Actor → String → List Step → ℕ → List Step × ℕ
compensate_steps env actor run_id [] n = ([], n)
compensate_steps env actor run_id (s ∷ ss) n =
    let (ss', n') = compensate_steps env actor run_id ss n in
    if can_compensate env.tools s
    then (
      compensated_by
            (compensate env.tools n' actor run_id s.index s.tool_name s.tool_arguments
              (or_empty s.tool_result) none)
            s
          ∷ ss',
      suc n',
    )
    else (s ∷ ss', n')
