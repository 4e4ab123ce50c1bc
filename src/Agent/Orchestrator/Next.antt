-- ===== src/Agent/Orchestrator/Next.antt =====
-- internal/agent/orchestrator.go: `ExecuteNext` and `RunToCompletion`.
use Prim.Native.String.{◌++◌ as append}
use ai_etl_platform.Common.{
  ℕ, zero, suc, ◌+◌, ◌==◌, ltb, leb, String, str_eq, get_elem?, Outcome, ok, err, Option, none,
  some, List, Bool, true, false, ◌&&◌, ◌||◌, not, if◌then◌else◌, length,
}
use ai_etl_platform.Agent.Types.{
  Fault, Run, Step, Actor, PlanDecision, DecisionType, call_tool, finish, other, running,
  terminal_state, total, reason, wrong_tenant,
}
use ai_etl_platform.Agent.Lock.{LockLease}
use ai_etl_platform.Agent.World.{
  Env, World, Exec, pure, call, unless, ◌>>=◌, load, save, with_lease,
}
use ai_etl_platform.Agent.Orchestrator.Steps.{
  is_created, is_pending, is_waiting, pending_approval_step_index, fail_active_run,
}
use ai_etl_platform.Agent.Orchestrator.Tool.{
  compensate_and_save, owner_of, fail_run, fail_run_with_usage, execute_tool_decision, complete_run,
  recover_waiting_tool,
}

-- `run.TenantID != actor.TenantID`
abbrev pub foreign : Actor → Run → Option Fault
foreign actor run =
    if str_eq run.tenant_id actor.tenant_id then none else some (wrong_tenant run.id)

-- `timeout > 0 && !start.IsZero() && !now.Before(start.Add(timeout))`
abbrev pub timed_out : ℕ → ℕ → ℕ → Bool
timed_out timeout start now = not (timeout == 0) && not (start == 0) && leb (start + timeout) now

-- when the step that waits for approval was started; 0 where there is none
abbrev pub waiting_since : List Step → ℕ
waiting_since steps = elim (pending_approval_step_index steps) [
  | none ↦ 0
  | some i ↦ elim (get_elem? steps i) [ none ↦ 0 | some s ↦ s.started_at ]
]

unfoldable pub expiry : Env → Run → ℕ → Option Fault
expiry env run now =
    if timed_out env.run_timeout run.created_at now
    then some (reason "run_timeout_exceeded")
    else if is_pending run.state && timed_out env.approval_timeout (waiting_since run.steps) now
    then some (reason "approval_timeout_exceeded")
    else none

unfoldable pub expire_with : Env → Run → LockLease → ℕ → Option Fault → Exec (Run × Bool)
expire_with env run lease now none = pure (run, false)
expire_with env run lease now (some fault) = do
  saved ← compensate_and_save env (owner_of run) (fail_active_run run now fault) lease
  pure (saved, true)

-- `expireRunIfNeeded`: the saved run and whether it expired
unfoldable pub expire_run_if_needed : Env → Run → LockLease → Exec (Run × Bool)
expire_run_if_needed env run lease = do
  now ← call env.now
  expire_with env run lease now (expiry env run now)

unfoldable pub claim_run : Env → Run → LockLease → Exec Run
claim_run env run lease =
    if leb lease.fencing_token run.fencing_token
    then pure run
    else do now ← call env.now; save (record run { updated_at = now }) lease

-- `MaxTokenBudget > 0 && TokensUsed > MaxTokenBudget`
abbrev pub over_budget : Run → Bool
over_budget run = ltb 0 run.max_token_budget && ltb run.max_token_budget run.tokens_used

-- a decision whose tokens are already counted
unfoldable pub follow_decision :
    Env → Actor → Run → LockLease → PlanDecision → DecisionType → Exec Run
follow_decision env actor run lease decision finish = complete_run env run lease decision
follow_decision env actor run lease decision call_tool =
    execute_tool_decision env actor run lease decision
follow_decision env actor run lease decision (other type) =
    fail_run env run lease (reason (append "unsupported planner decision " type))

unfoldable pub planned : Env → Actor → Run → LockLease → PlanDecision × Option Fault → Exec Run
planned env actor run lease (decision, some e) =
    let run' : Run = record run { tokens_used = run.tokens_used + total decision.usage } in
    fail_run_with_usage env run' lease
      (if over_budget run' then reason "token_budget_exceeded" else e) decision.usage
planned env actor run lease (decision, none) =
    let run' : Run = record run { tokens_used = run.tokens_used + total decision.usage } in
    if over_budget run'
    then fail_run_with_usage env run' lease (reason "token_budget_exceeded") decision.usage
    else follow_decision env actor run' lease decision decision.type

-- a created run starts running
unfoldable pub start_running : Env → Run → LockLease → Exec Run
start_running env run lease =
    if is_created run.state
    then (do now ← call env.now; save (record run { state = running; updated_at = now }) lease)
    else pure run

unfoldable pub plan_next : Env → Actor → Run → LockLease → Exec Run
plan_next env actor run lease = do
  run' ← start_running env run lease
  answer ← call λ n. env.plan n run'
  planned env actor run' lease answer

-- a claimed run that is neither terminal nor expired
unfoldable pub advance : Env → Actor → Run → LockLease → Exec Run
advance env actor run lease =
    if is_waiting run.state
    then recover_waiting_tool env actor run lease
    else if leb run.max_steps (length run.steps)
    then fail_run env run lease (reason "max_steps_exceeded")
    else if ltb 0 run.max_token_budget && leb run.max_token_budget run.tokens_used
    then fail_run env run lease (reason "token_budget_exceeded")
    else plan_next env actor run lease

unfoldable pub after_expiry : Env → Actor → LockLease → Run × Bool → Exec Run
after_expiry env actor lease (run, true) = pure run
after_expiry env actor lease (run, false) = do
  claimed ← claim_run env run lease
  advance env actor claimed lease

unfoldable pub execute_loaded : Env → Actor → LockLease → Run → Exec Run
execute_loaded env actor lease run = unless (foreign actor run) (
    if terminal_state run.state
    then pure run
    else do checked ← expire_run_if_needed env run lease; after_expiry env actor lease checked)

unfoldable pub execute_next : Env → String → Actor → Exec Run
execute_next env run_id actor =
    with_lease env run_id λ lease. do run ← load run_id; execute_loaded env actor lease run

-- the loop's test: it ends on an error, a terminal run and a run that waits for approval
unfoldable pub settled :
    Outcome Fault Run × World
    → Option (Outcome Fault Run × World)
    → Option (Outcome Fault Run × World)
settled (err e, w) rest = some (err e, w)
settled (ok run, w) rest =
    if terminal_state run.state || is_pending run.state then some (ok run, w) else rest

-- the loop on fuel; `none` means that the fuel ran out
unfoldable pub run_to_completion :
    Env → String → Actor → ℕ → World → Option (Outcome Fault Run × World)
unfolding settled
run_to_completion env run_id actor zero w = none
run_to_completion env run_id actor (suc fuel) w =
    let out = execute_next env run_id actor w in
    let rest = run_to_completion env run_id actor fuel out.1 in settled out rest
