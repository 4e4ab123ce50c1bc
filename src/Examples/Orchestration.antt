-- ===== src/Examples/Orchestration.antt =====
-- The orchestrator on concrete runs.
use ai_etl_platform.Common.{
  ℕ, ◌+◌, ◌≡◌, refl, Option, none, some, [], ◌∷◌, true, false, Outcome, ok, err, arith, length, get,
  put, subst, sym, eq_iff, false, is_nil, if◌then◌else◌,
}
use ai_etl_platform.Agent.Types.{
  Fault, Run, Step, RunState, completed, PlanDecision, call_tool, finish, no_bytes, no_usage,
}
use ai_etl_platform.Agent.Tools.{RegisteredTool}
use ai_etl_platform.Agent.Policy.{authorize}
use ai_etl_platform.Agent.World.{
  Env, World, load, save, with_lease, holding, ◌>>=◌, unless, call, pure,
}
use ai_etl_platform.Agent.Lock.{acquire, release}
use ai_etl_platform.Agent.Store.{load_run, save_run}
use ai_etl_platform.Agent.Types.{Step, StepType, total}
use ai_etl_platform.Agent.World.Keeps.{AllRuns, Post}
use ai_etl_platform.Agent.Orchestrator.Steps.{compensate_steps}
use ai_etl_platform.Agent.Orchestrator.Control.{cancel, reject_approval, apply_lifecycle}
use ai_etl_platform.Agent.Orchestrator.Invariant.{IsWellFormed}
use ai_etl_platform.Agent.Orchestrator.Moves.{Moves}
use ai_etl_platform.Agent.Orchestrator.Termination.{
  execute_next-IsWellFormed, execute_next-Moves, run_to_completion_terminates, IsSettled,
}
use ai_etl_platform.Agent.Orchestrator.Contract.Control.{control_keeps, Moved}
use ai_etl_platform.Agent.Orchestrator.Compensation.{compensate_steps-AllHandled, AllHandled}
use ai_etl_platform.Examples.Stores.{stored_run, one_run}
use ai_etl_platform.Examples.Tooling.{alice}
use ai_etl_platform.Agent.Orchestrator.Next.{
  execute_next, run_to_completion, execute_loaded, expire_run_if_needed, expire_with, expiry,
  after_expiry, claim_run, advance, follow_decision, plan_next, planned, start_running,
}
use ai_etl_platform.Agent.Orchestrator.Tool.{complete_run}

abbrev search_tool : RegisteredTool
search_tool = record {
  definition = record {
    name = "search";
    description = "";
    parameters = record {
      type = "object";
      required = [];
      properties = [];
      additional_properties = true;
    };
    required_permissions = "agent:run" ∷ [];
    timeout = 0;
    idempotent = true;
    side_effect = false;
    requires_approval = false;
  };
  handler = λ n i. (
    record { content = "found"; payload = []; retryable = false; compensation_required = false },
    none,
  );
  compensator = none;
}

abbrev decide : Run → PlanDecision
decide run = record {
  type = if is_nil run.steps then call_tool else finish;
  thought = "";
  tool_name = " Search ";
  arguments = no_bytes;
  final = "done";
  usage = record { prompt_tokens = 3; completion_tokens = 4; estimated = false };
}

abbrev pub env : Env
env = record {
  now = λ n. 100 + n;
  plan = λ n run. (decide run, none);
  tools = ("search", search_tool) ∷ [];
  authorizer = authorize;
  node_id = "node";
  max_steps = 8;
  lock_ttl = 50;
  run_timeout = 1000;
  approval_timeout = 500;
  max_token_budget = 100;
}

abbrev pub stored : World
stored = record { runs = one_run; locks = []; calls = 0 }

stored_run-IsWellFormed : IsWellFormed stored_run
stored_run-IsWellFormed = record {
  numbered = tt;
  bounded = omega arith;
  roomy = λ _. omega arith;
  affordable = λ _. refl;
}

pub one_run-IsWellFormed : AllRuns IsWellFormed one_run
unfolding get
one_run-IsWellFormed id run e =
    let same : run ≡ stored_run = ground (arith, e) in
    (ground (arith, e, eq_iff "r1" id), subst IsWellFormed (sym same) stored_run-IsWellFormed)

abbrev summary : Option (Outcome Fault Run × World) → Option (RunState × ℕ × ℕ)
summary none = none
summary (some (err e, w)) = none
summary (some (ok run, w)) = some (run.state, length run.steps, run.tokens_used)

-- a planner that answers at once
abbrev finishing : Env
finishing = record env {
  plan = λ n run. (
    record {
      type = finish;
      thought = "";
      tool_name = "";
      arguments = no_bytes;
      final = "done";
      usage = record { prompt_tokens = 3; completion_tokens = 4; estimated = false };
    },
    none,
  );
}

execute_next-IsWellFormed_example : AllRuns IsWellFormed (execute_next env "r1" alice stored).1.runs
execute_next-IsWellFormed_example =
    execute_next-IsWellFormed env "r1" alice stored one_run-IsWellFormed

run_to_completion_terminates_example :
    (out : Outcome Fault Run × World) × (run_to_completion env "r1" alice 10 stored ≡ some out)
    × IsSettled out.0
unfolding get
run_to_completion_terminates_example =
    run_to_completion_terminates env "r1" alice 10 stored stored_run one_run-IsWellFormed refl
      (omega arith)

control_keeps_example :
    Post IsWellFormed (Moved one_run "r1") (cancel env "r1" alice "enough" stored)
    × Post IsWellFormed (Moved one_run "r1") (reject_approval env "r1" alice "enough" stored)
    × Post IsWellFormed (Moved one_run "r1") (apply_lifecycle env "r1" alice stored)
control_keeps_example = control_keeps env "r1" alice "enough" stored one_run-IsWellFormed

-- the step of a tool that was called and can be undone
abbrev done_step : Step
done_step = record {
  index = 1;
  type = StepType.tool_call;
  state = completed;
  thought = "";
  planner_usage = no_usage;
  tool_name = "search";
  tool_arguments = no_bytes;
  tool_result = none;
  compensation_result = none;
  observation = "";
  idempotency_key = none;
  compensated = false;
  started_at = 100;
  completed_at = 101;
  fault = none;
  compensation_fault = none;
}

abbrev undoing : Env
undoing = record env {
  tools =
      (
        "search",
        record search_tool {
          compensator = some (λ n i result. (
            record {
              content = "undone";
              payload = [];
              retryable = false;
              compensation_required = false;
            },
            none,
          ));
        },
      )
      ∷ [];
}

compensate_steps_example :
    AllHandled undoing.tools alice "r1" 0
      (done_step ∷ [])
      (compensate_steps undoing alice "r1" (done_step ∷ []) 0).0
      (compensate_steps undoing alice "r1" (done_step ∷ []) 0).1
compensate_steps_example = compensate_steps-AllHandled undoing alice "r1" (done_step ∷ []) 0

abbrev answer_step : Step
answer_step = record done_step {
  type = StepType.final;
  planner_usage = record { prompt_tokens = 3; completion_tokens = 4; estimated = false };
  tool_name = "";
  observation = "done";
  started_at = 103;
  completed_at = 103;
}

abbrev pub finished_run : Run
finished_run = record stored_run {
  version = 4;
  state = completed;
  tokens_used = 17;
  steps = answer_step ∷ [];
  final = "done";
  updated_at = 103;
}

finishes : (execute_next finishing "r1" alice stored).0 ≡ ok finished_run
unfolding execute_next with_lease acquire get ◌>>=◌ load load_run execute_loaded unless
    expire_run_if_needed call expire_with expiry pure after_expiry claim_run advance release
    follow_decision plan_next planned complete_run total put save save_run holding start_running
finishes = refl

execute_next-Moves_example :
    (run : Run) × (get one_run "r1" ≡ some run)
    × (finished_run.id ≡ "r1")
    × (get (execute_next finishing "r1" alice stored).1.runs "r1" ≡ some finished_run)
    × Moves run finished_run
execute_next-Moves_example =
    execute_next-Moves finishing "r1" alice stored {r = finished_run} one_run-IsWellFormed finishes
