-- ===== src/Agent/Orchestrator/Moves.antt =====
-- The diagram of a run's states, and what a call may change of a run.
use ai_etl_platform.Common.{
  ℕ, ◌+◌, ◌-◌, ◌*◌, ◌≤◌, ◌<◌, ◌≡◌, ◌⊎◌, refl, ◌∙◌, true, false, arith, length, if◌then◌else◌, List,
  Option, String,
}
use ai_etl_platform.Agent.Types.{
  Run, Step, Fault, RunState, created, running, waiting_tool, pending_approval, completed, failed,
  cancelled, terminal_state,
}
use ai_etl_platform.Agent.Orchestrator.Steps.{is_pending, is_waiting}

infix 40 ◌⟶◌ ◌⟶*◌
pub data ◌⟶◌ : RunState → RunState → Type 0 where
  start : created ⟶ running
  call_tool : running ⟶ waiting_tool
  ask : waiting_tool ⟶ pending_approval
  return : waiting_tool ⟶ running
  resume : pending_approval ⟶ running
  finish : running ⟶ completed
  fail : {s : RunState} → terminal_state s ≡ false → s ⟶ failed
  cancel : {s : RunState} → terminal_state s ≡ false → s ⟶ cancelled

pub data ◌⟶*◌ : RunState → RunState → Type 0 where
  here : {s : RunState} → s ⟶* s
  after : {s t u : RunState} → s ⟶ t → t ⟶* u → s ⟶* u

pub ⟶*-trans : {s t u : RunState} → s ⟶* t → t ⟶* u → s ⟶* u
⟶*-trans here q = q
⟶*-trans (after e p) q = after e (⟶*-trans p q)

-- What no call changes of a run, how its state may move, and that steps are only added.
pub record Moves (run r : Run) : Type 0 where
  pub id : r.id ≡ run.id
  pub tenant_id : r.tenant_id ≡ run.tenant_id
  pub user_id : r.user_id ≡ run.user_id
  pub task : r.task ≡ run.task
  pub max_steps : r.max_steps ≡ run.max_steps
  pub max_token_budget : r.max_token_budget ≡ run.max_token_budget
  pub created_at : r.created_at ≡ run.created_at
  pub state : run.state ⟶* r.state
  pub steps : length run.steps ≤ length r.steps
  pub tokens : run.tokens_used ≤ r.tokens_used

pub Moves-refl : (run : Run) → Moves run run
Moves-refl run = record {
  id = refl;
  tenant_id = refl;
  user_id = refl;
  task = refl;
  max_steps = refl;
  max_token_budget = refl;
  created_at = refl;
  state = here;
  steps = omega arith;
  tokens = omega arith;
}

pub Moves-trans : {a b c : Run} → Moves a b → Moves b c → Moves a c
Moves-trans p q = record {
  id = q.id ∙ p.id;
  tenant_id = q.tenant_id ∙ p.tenant_id;
  user_id = q.user_id ∙ p.user_id;
  task = q.task ∙ p.task;
  max_steps = q.max_steps ∙ p.max_steps;
  max_token_budget = q.max_token_budget ∙ p.max_token_budget;
  created_at = q.created_at ∙ p.created_at;
  state = ⟶*-trans p.state q.state;
  steps = omega arith;
  tokens = omega arith;
}

-- the calls that a live run can still take: two for each step that there is room for
abbrev pub measure : Run → ℕ
measure run = 2 * (run.max_steps - length run.steps) + (if is_waiting run.state then 1 else 0)

-- after a call the run is terminal, waits for approval, or is nearer to its end
abbrev pub Progress : Run → Run → Type 0
Progress run r =
    (terminal_state r.state ≡ true) ⊎ (is_pending r.state ≡ true) ⊎ (measure r < measure run)

-- a change of the fields that a call may set
pub Moves-change :
    (run r : Run) (state : RunState) (steps : List Step) (fault : Option Fault) (final : String)
    (now : ℕ)
    → Moves run r
    → r.state ⟶* state
    → length r.steps ≤ length steps
    → Moves run
        (record r { state = state; steps = steps; fault = fault; final = final; updated_at = now })
Moves-change run r state steps fault final now h path longer = record {
  id = h.id;
  tenant_id = h.tenant_id;
  user_id = h.user_id;
  task = h.task;
  max_steps = h.max_steps;
  max_token_budget = h.max_token_budget;
  created_at = h.created_at;
  state = ⟶*-trans h.state path;
  steps = omega (arith, h.steps);
  tokens = h.tokens;
}
