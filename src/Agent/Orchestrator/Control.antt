-- ===== src/Agent/Orchestrator/Control.antt =====
-- internal/agent/orchestrator.go: `ApplyLifecycle`, `Cancel` and `RejectApproval`.
use Prim.Native.String.{◌++◌ as append}
use ai_etl_platform.Common.{
  ℕ, String, str_eq, trim_space, is_blank, Option, none, some, ◌&&◌, not, if◌then◌else◌,
}
use ai_etl_platform.Agent.Types.{
  Fault, Run, Actor, failed, cancelled, terminal_state, reason, wrong_tenant, cancel_forbidden,
  already_terminal, not_pending,
}
use ai_etl_platform.Agent.Lock.{LockLease}
use ai_etl_platform.Agent.Policy.{has_string}
use ai_etl_platform.Agent.World.{Env, Exec, pure, call, unless, ◌>>=◌, load, with_lease}
use ai_etl_platform.Agent.Orchestrator.Steps.{
  is_pending, active_step_index, pending_approval_step_index, close_at,
}
use ai_etl_platform.Agent.Orchestrator.Tool.{compensate_and_save, owner_of, fail_run}
use ai_etl_platform.Agent.Orchestrator.Next.{foreign, expire_run_if_needed}

unfoldable pub lifecycle_loaded : Env → Actor → LockLease → Run → Exec Run
lifecycle_loaded env actor lease run = unless (foreign actor run) (
    if terminal_state run.state
    then pure run
    else do checked ← expire_run_if_needed env run lease; pure checked.0)

unfoldable pub apply_lifecycle : Env → String → Actor → Exec Run
apply_lifecycle env run_id actor =
    with_lease env run_id λ lease. do run ← load run_id; lifecycle_loaded env actor lease run

-- a fixed text, and the trimmed reason behind it if there is one
abbrev pub with_reason : String → String → Fault
with_reason message why =
    if is_blank why then reason message else reason (append message (append ": " (trim_space why)))

-- only the owner of a run, or who may approve, cancels it, and only while it is not terminal
abbrev pub cancel_refused : Actor → Run → Option Fault
cancel_refused actor run =
    if not (str_eq run.tenant_id actor.tenant_id)
    then some (wrong_tenant run.id)
    else if not (str_eq run.user_id actor.user_id)
        && not (has_string actor.permissions "agent:approve")
    then some (cancel_forbidden run.id)
    else if terminal_state run.state
    then some (already_terminal run.id)
    else none

abbrev pub cancelled_run : Actor → Run → String → ℕ → Run
cancelled_run actor run why now =
    let message = with_reason "run cancelled" why in
    record run {
      state = cancelled;
      fault = some message;
      cancelled_by = actor.user_id;
      cancel_reason = trim_space why;
      cancelled_at = now;
      updated_at = now;
      steps = close_at (active_step_index run.steps) cancelled message now run.steps;
    }

unfoldable pub cancel_loaded : Env → Actor → String → LockLease → Run → Exec Run
cancel_loaded env actor why lease run = unless (cancel_refused actor run) do
  now ← call env.now
  compensate_and_save env (owner_of run) (cancelled_run actor run why now) lease

unfoldable pub cancel : Env → String → Actor → String → Exec Run
cancel env run_id actor why =
    with_lease env run_id λ lease. do run ← load run_id; cancel_loaded env actor why lease run

abbrev pub reject_refused : Actor → Run → Option Fault
reject_refused actor run =
    if not (str_eq run.tenant_id actor.tenant_id)
    then some (wrong_tenant run.id)
    else if not (is_pending run.state)
    then some (not_pending run.id)
    else none

abbrev pub rejected_run : Run → ℕ → String → ℕ → Run
rejected_run run i why now =
    let message = with_reason "approval rejected" why in
    record run {
      steps = close_at (some i) failed message now run.steps;
      state = failed;
      fault = some message;
      updated_at = now;
    }

-- the step that waits for approval is closed
unfoldable pub reject_at : Env → String → LockLease → Run → Option ℕ → Exec Run
reject_at env why lease run none =
    fail_run env run lease (reason "pending_approval_without_tool_call_step")
reject_at env why lease run (some i) = do
  now ← call env.now
  compensate_and_save env (owner_of run) (rejected_run run i why now) lease

unfoldable pub reject_loaded : Env → Actor → String → LockLease → Run → Exec Run
unfolding reject_at
reject_loaded env actor why lease run =
    unless (reject_refused actor run)
      (reject_at env why lease run (pending_approval_step_index run.steps))

unfoldable pub reject_approval : Env → String → Actor → String → Exec Run
reject_approval env run_id actor why =
    with_lease env run_id λ lease. do run ← load run_id; reject_loaded env actor why lease run
