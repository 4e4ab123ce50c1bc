-- ===== src/Agent/Orchestrator/Tool.antt =====
-- internal/agent/orchestrator.go: the parts of `ExecuteNext` that run under a lease.
use ai_etl_platform.Common.{
  Option, ℕ, ◌+◌, ◌-◌, str_eq, none, some, [], ◌∷◌, ◌++◌, Bool, ◌||◌, not, if◌then◌else◌, length,
  get_elem?, is_nil,
}
use ai_etl_platform.Agent.Types.{
  Fault, Run, Step, StepType, Actor, PlanDecision, PlanUsage, ToolResult, waiting_tool, running,
  pending_approval, completed, failed, is_approval_required, reason, index_out_of_range, no_usage,
}
use ai_etl_platform.Agent.Lock.{LockLease}
use ai_etl_platform.Agent.Tools.{Reply, execute, compensate, normalize_tool_name, idempotency_key}
use ai_etl_platform.Agent.World.{Env, Exec, pure, fail, call, calls_of, ◌>>=◌, save}
use ai_etl_platform.Agent.Orchestrator.Steps.{
  is_tool_call, update_at, failed_with_usage, new_step, compensated_by, compensate_steps,
}

-- the run after `compensateCompletedSideEffects`
unfoldable pub compensate_run : Env → Actor → Run → Exec Run
compensate_run env actor run = calls_of λ n.
    let (steps, n') = compensate_steps env actor run.id run.steps n in
    (record run { steps = steps }, n')

-- `Actor{TenantID: run.TenantID, UserID: run.UserID}`
abbrev pub owner_of : Run → Actor
owner_of run = record {
  tenant_id = run.tenant_id;
  user_id = run.user_id;
  role = "";
  permissions = [];
  approved_tools = [];
}

-- every way to fail a run ends so
unfoldable pub compensate_and_save : Env → Actor → Run → LockLease → Exec Run
compensate_and_save env actor run lease = do run' ← compensate_run env actor run; save run' lease

unfoldable pub fail_run_with_usage : Env → Run → LockLease → Fault → PlanUsage → Exec Run
fail_run_with_usage env run lease fault usage = do
  now ← call env.now
  compensate_and_save env (owner_of run) (failed_with_usage run fault usage now) lease

unfoldable pub fail_run : Env → Run → LockLease → Fault → Exec Run
fail_run env run lease fault = fail_run_with_usage env run lease fault no_usage

-- the step of a tool that wants approval
abbrev pub await_step : Fault → ℕ → Step → Step
await_step fault now s = record s {
  state = pending_approval;
  fault = some fault;
  completed_at = now;
}

abbrev carries_result : ToolResult → Bool
carries_result r = not (str_eq r.content "") || not (is_nil r.payload) || r.compensation_required

-- the step of a tool that failed
abbrev pub failed_step : ToolResult → Fault → ℕ → Step → Step
failed_step result fault now s = record s {
  type = StepType.error;
  state = failed;
  fault = some fault;
  tool_result = if carries_result result then some result else s.tool_result;
  completed_at = now;
}

abbrev pub done_step : ToolResult → ℕ → Step → Step
done_step result now s = record s {
  tool_result = some result;
  observation = result.content;
  state = completed;
  completed_at = now;
}

-- a failed call whose result asks for it is compensated first, with the authorizer asked
unfoldable pub undo_failed : Env → Actor → Run → Step → ToolResult → Exec Step
undo_failed env actor run s result =
    if result.compensation_required
    then call (λ n.
      compensated_by
        (compensate env.tools n actor run.id s.index s.tool_name s.tool_arguments result
          (some env.authorizer))
        s)
    else pure s

unfoldable pub tool_failed :
    Env → Actor → Run → LockLease → ℕ → Step → ToolResult → Fault → ℕ → Exec Run
tool_failed env actor run lease pos s result fault now = do
  s' ← undo_failed env actor run s result
  let steps = update_at pos (λ _. failed_step result fault now s') run.steps
  compensate_and_save env actor
      (record run { steps = steps; state = failed; fault = some fault; updated_at = now }) lease

unfoldable pub tool_replied : Env → Actor → Run → LockLease → ℕ → Step → Reply → ℕ → Exec Run
tool_replied env actor run lease pos s (result, none) now =
    save
      (record run {
        steps = update_at pos (done_step result now) run.steps;
        state = running;
        updated_at = now;
      })
      lease
tool_replied env actor run lease pos s (result, some fault) now =
    if is_approval_required fault
    then save
        (record run {
          steps = update_at pos (await_step fault now) run.steps;
          state = pending_approval;
          fault = none;
          updated_at = now;
        })
        lease
    else tool_failed env actor run lease pos s result fault now

unfoldable pub execute_step : Env → Actor → Run → LockLease → ℕ → Step → Exec Run
execute_step env actor run lease pos s = do
  reply ← call λ n.
      execute env.tools n actor run.id s.index s.tool_name s.tool_arguments (some env.authorizer)
  now ← call env.now
  tool_replied env actor run lease pos s reply now

-- `executePersistedTool`; an index out of range would panic
unfoldable pub execute_persisted_tool : Env → Actor → Run → LockLease → ℕ → Exec Run
execute_persisted_tool env actor run lease pos = elim (get_elem? run.steps pos) [
  | none ↦ fail index_out_of_range
  | some s ↦ execute_step env actor run lease pos s
]

abbrev pub tool_step : Run → PlanDecision → ℕ → Step
tool_step run decision now =
    let index = length run.steps + 1 in
    record (new_step index StepType.tool_call waiting_tool decision.usage now) {
      thought = decision.thought;
      tool_name = normalize_tool_name decision.tool_name;
      tool_arguments = decision.arguments;
      idempotency_key = some (idempotency_key run.id index decision.tool_name);
    }

unfoldable pub execute_tool_decision : Env → Actor → Run → LockLease → PlanDecision → Exec Run
execute_tool_decision env actor run lease decision = do
  start ← call env.now
  run' ←
      save
        (record run {
          state = waiting_tool;
          steps = run.steps ++ tool_step run decision start ∷ [];
          updated_at = start;
        })
        lease
  execute_persisted_tool env actor run' lease (length run'.steps - 1)

abbrev pub final_step : Run → PlanDecision → ℕ → Step
final_step run decision now =
    record (new_step (length run.steps + 1) StepType.final completed decision.usage now) {
      thought = decision.thought;
      observation = decision.final;
      completed_at = now;
    }

unfoldable pub complete_run : Env → Run → LockLease → PlanDecision → Exec Run
complete_run env run lease decision = do
  now ← call env.now
  save
      (record run {
        steps = run.steps ++ final_step run decision now ∷ [];
        state = completed;
        final = decision.final;
        updated_at = now;
      })
      lease

-- the last step has a result, or its tool is called (again)
unfoldable pub recover_tool : Env → Actor → Run → LockLease → ℕ → Option ToolResult → Exec Run
recover_tool env actor run lease last (some _) = do
  now ← call env.now
  save
      (record run {
        state = running;
        steps = update_at last (λ s. record s { state = completed }) run.steps;
        updated_at = now;
      })
      lease
recover_tool env actor run lease last none = execute_persisted_tool env actor run lease last

-- the last step of a run that waits
unfoldable pub recover_step : Env → Actor → Run → LockLease → ℕ → Step → Exec Run
unfolding recover_tool
recover_step env actor run lease last s =
    if not (is_tool_call s.type)
    then fail_run env run lease (reason "waiting_tool_without_tool_call_step")
    else recover_tool env actor run lease last s.tool_result

unfoldable pub recover_waiting_tool : Env → Actor → Run → LockLease → Exec Run
recover_waiting_tool env actor run lease = elim (get_elem? run.steps (length run.steps - 1)) [
  | none ↦ fail_run env run lease (reason "waiting_tool_without_step")
  | some s ↦ recover_step env actor run lease (length run.steps - 1) s
]
