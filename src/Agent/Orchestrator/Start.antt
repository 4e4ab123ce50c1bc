-- ===== src/Agent/Orchestrator/Start.antt =====
-- internal/agent/orchestrator.go: `StartOrResume`.
use ai_etl_platform.Common.{
  ℕ, ◌*◌, ◌==◌, String, str_eq, trim_space, is_blank, ok, err, Option, none, some, [], false, ◌||◌,
  not, if◌then◌else◌, Dict,
}
use ai_etl_platform.Agent.Types.{
  Fault, run_id_required, Run, Actor, PlanDecision, Json, created, task_required, binding_conflict,
}
use ai_etl_platform.Agent.Store.{create_run, load_run}
use ai_etl_platform.Agent.Policy.{authorize}
use ai_etl_platform.Agent.Tools.{Registry, Authorizer}
use ai_etl_platform.Agent.Tools.Definition.{ToolDefinition}
use ai_etl_platform.Agent.World.{Env, Exec, pure, fail, call, unless, ◌>>=◌}

pub record Options : Type 0 where
  pub node_id : String
  pub max_steps : ℕ
  pub lock_ttl : ℕ
  pub run_timeout : ℕ
  pub approval_timeout : ℕ
  pub max_token_budget : ℕ
  pub authorizer : Option Authorizer

abbrev or_default : ℕ → ℕ → ℕ
or_default d n = if n == 0 then d else n

abbrev or_static : Option Authorizer → Authorizer
or_static none = authorize
or_static (some a) = a

-- `NewOrchestrator`, its four required arguments not nil; durations in nanoseconds
unfoldable pub new_orchestrator :
    (ℕ → ℕ) → (ℕ → Run → PlanDecision × Option Fault) → Registry → Options → Env
new_orchestrator now plan tools opts = record {
  now = now;
  plan = plan;
  tools = tools;
  authorizer = or_static opts.authorizer;
  node_id = if str_eq opts.node_id "" then "agent-node" else opts.node_id;
  max_steps = or_default 8 opts.max_steps;
  lock_ttl = or_default (30 * 1_000_000_000) opts.lock_ttl;
  run_timeout = or_default (30 * 60 * 1_000_000_000) opts.run_timeout;
  approval_timeout = or_default (15 * 60 * 1_000_000_000) opts.approval_timeout;
  max_token_budget = opts.max_token_budget;
}

-- `ToolDefinition{Name: "agent_run"}`
abbrev agent_run : ToolDefinition
agent_run = record {
  name = "agent_run";
  description = "";
  parameters = record { type = ""; required = []; properties = []; additional_properties = false };
  required_permissions = [];
  timeout = 0;
  idempotent = false;
  side_effect = false;
  requires_approval = false;
}

abbrev pub new_run : Env → Actor → String → String → Dict Json → ℕ → Run
new_run env actor id task memory now = record {
  id = id;
  tenant_id = actor.tenant_id;
  user_id = actor.user_id;
  version = 1;
  fencing_token = 0;
  task = task;
  state = created;
  max_steps = env.max_steps;
  max_token_budget = env.max_token_budget;
  tokens_used = 0;
  steps = [];
  memory = memory;
  final = "";
  fault = none;
  cancelled_by = "";
  cancel_reason = "";
  cancelled_at = 0;
  created_at = now;
  updated_at = now;
}

-- the run that is there, if it was started by the same actor for the same task
unfoldable pub adopt : Actor → String → String → Run → Exec Run
adopt actor id task existing =
    if not (str_eq existing.tenant_id actor.tenant_id)
      || not (str_eq existing.user_id actor.user_id)
      || not (str_eq existing.task task)
    then fail (binding_conflict id)
    else pure existing

-- `store.CreateRun`, or `store.LoadRun` where that fails; the error of the first is returned
unfoldable pub create_or_load : Actor → Run → Exec Run
create_or_load actor run w =
    let (refused, runs) = create_run run w.runs in
    elim refused [
      | none ↦ (ok run, record w { runs = runs })
      | some e ↦ elim (load_run run.id runs) [
        | err _ ↦ (err e, record w { runs = runs })
        | ok existing ↦ adopt actor run.id run.task existing (record w { runs = runs })
      ]
    ]

unfoldable pub start_or_resume : Env → Actor → String → String → Dict Json → Exec Run
start_or_resume env actor run_id task memory =
    if is_blank run_id
    then fail run_id_required
    else if is_blank task
    then fail task_required
    else unless (env.authorizer actor agent_run) do
      now ← call env.now
      create_or_load actor (new_run env actor (trim_space run_id) (trim_space task) memory now)
