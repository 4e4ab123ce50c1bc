-- ===== src/Agent/Orchestrator/Contract.antt =====
-- What every call under a lease gives: the returned run is the stored one, it has only moved along
-- the diagram, and all stored runs stay well formed.
pub mod Tools
pub mod Decisions
pub mod Next
pub mod Calls
pub mod Control
pub mod Start
use ai_etl_platform.Common.{
  ℕ, suc, ◌+◌, ◌-◌, ◌*◌, ◌≤◌, ◌<◌, ◌≡◌, ◌⊎◌, inl, inr, refl, sym, subst, Option, some, List, [],
  ◌∷◌, ◌++◌, Bool, true, false, arith, length, length-append, get, if◌then◌else◌, Outcome,
}
use ai_etl_platform.Agent.Types.{
  Fault, Run, Step, StepType, Actor, PlanUsage, RunState, failed, no_usage, terminal_state, total,
}
use ai_etl_platform.Agent.Lock.{LockLease}
use ai_etl_platform.Agent.Store.{Runs}
use ai_etl_platform.Agent.World.{Env, World, call, calls_of, save, ◌>>=◌}
use ai_etl_platform.Agent.World.Keeps.{
  AllRuns, IsSaved, Post, Post-bind, Post-call, Post-weaken, Post-save,
}
use ai_etl_platform.Agent.Orchestrator.Steps.{compensate_steps, failed_with_usage}
use ai_etl_platform.Agent.Orchestrator.Tool.{
  compensate_run, compensate_and_save, owner_of, fail_run_with_usage, fail_run,
}
use ai_etl_platform.Agent.Orchestrator.Invariant.{
  IsWellFormed, Numbered, Numbered-append, length-compensate_steps, Numbered-compensate_steps,
}
use ai_etl_platform.Agent.Orchestrator.Moves.{
  Moves, Moves-trans, Progress, measure, fail, here, after, ⟶*-trans,
}

abbrev pub Done : Run → Run → Runs → Type 0
Done run r runs = (get runs r.id ≡ some r) × Moves run r × Progress run r

abbrev pub Keeps : (Run → Runs → Type 0) → Outcome Fault Run × World → Type 0
Keeps = Post IsWellFormed

pub IsWellFormed-saved :
    (run : Run) (v t : ℕ)
    → IsWellFormed run
    → IsWellFormed (record run { version = v; fencing_token = t })
IsWellFormed-saved run v t h = record {
  numbered = h.numbered;
  bounded = h.bounded;
  roomy = h.roomy;
  affordable = h.affordable;
}

Moves-saved :
    (run r : Run) (v t : ℕ) → Moves run r → Moves run (record r { version = v; fencing_token = t })
Moves-saved run r v t h = record {
  id = h.id;
  tenant_id = h.tenant_id;
  user_id = h.user_id;
  task = h.task;
  max_steps = h.max_steps;
  max_token_budget = h.max_token_budget;
  created_at = h.created_at;
  state = h.state;
  steps = h.steps;
  tokens = h.tokens;
}

failed-IsWellFormed :
    (r : Run) (fault : Fault) (usage : PlanUsage) (now : ℕ)
    → Numbered 1 r.steps
    → length r.steps ≤ r.max_steps
    → IsWellFormed (failed_with_usage r fault usage now)
unfolding failed_with_usage
failed-IsWellFormed r fault usage now numbered room = record {
  numbered = Numbered-append 1 r.steps _ numbered (omega arith);
  bounded = omega (arith, length-append r.steps (_ ∷ []));
  roomy = λ live. absurd (cc live);
  affordable = λ live. absurd (cc live);
}

module _ (run : Run) (lease : LockLease) where
  pub save-Done :
      (r : Run) (w : World)
      → AllRuns IsWellFormed w.runs
      → IsWellFormed r
      → Moves run r
      → Progress run r
      → Keeps (Done run) (save r lease w)
  save-Done r w all wf moves progress =
      Post-weaken IsWellFormed (λ saved runs. (get runs saved.id ≡ some saved) × IsSaved r saved)
        (Done run) (save r lease w)
        (λ saved runs (stored, same). (
          stored,
          subst (Moves run) (sym same) (Moves-saved run r saved.version saved.fencing_token moves),
          subst (Progress run) (sym same) progress,
        ))
        (Post-save IsWellFormed IsWellFormed-saved r lease w all wf)

  module _ (env : Env) (actor : Actor) where
    -- compensation changes neither the number of steps nor their indexes
    pub compensate_and_save-Done :
        (r : Run) (w : World)
        → AllRuns IsWellFormed w.runs
        → IsWellFormed r
        → Moves run r
        → terminal_state r.state ≡ true
        → Keeps (Done run) (compensate_and_save env actor r lease w)
    unfolding compensate_and_save compensate_run calls_of ◌>>=◌
    compensate_and_save-Done r w all wf moves over =
        let (steps, n) = compensate_steps env actor r.id r.steps w.calls in
        let same = length-compensate_steps env actor r.id r.steps w.calls in
        let r' : Run = record r { steps = steps } in
        save-Done r' (record w { calls = n }) all
          (record {
            numbered = Numbered-compensate_steps env actor r.id 1 r.steps w.calls wf.numbered;
            bounded = omega (arith, same, wf.bounded);
            roomy = λ live. absurd (ground (arith, live, over));
            affordable = λ live. absurd (ground (arith, live, over));
          })
          (record {
            id = moves.id;
            tenant_id = moves.tenant_id;
            user_id = moves.user_id;
            task = moves.task;
            max_steps = moves.max_steps;
            max_token_budget = moves.max_token_budget;
            created_at = moves.created_at;
            state = moves.state;
            steps = omega (arith, same, moves.steps);
            tokens = moves.tokens;
          })
          (inl over)

  failed-Moves :
      (r : Run) (fault : Fault) (usage : PlanUsage) (now : ℕ)
      → Moves run r
      → terminal_state r.state ≡ false
      → Moves run (failed_with_usage r fault usage now)
  unfolding failed_with_usage
  failed-Moves r fault usage now moves live = record {
    id = moves.id;
    tenant_id = moves.tenant_id;
    user_id = moves.user_id;
    task = moves.task;
    max_steps = moves.max_steps;
    max_token_budget = moves.max_token_budget;
    created_at = moves.created_at;
    state = ⟶*-trans moves.state (after (fail live) here);
    steps = omega (arith, length-append r.steps (_ ∷ []), moves.steps);
    tokens = moves.tokens;
  }

  module _ (env : Env) where
    -- a live run within its limit on steps fails with one more step, whatever it has spent
    pub fail_run_with_usage-Done :
        (r : Run) (fault : Fault) (usage : PlanUsage) (w : World)
        → AllRuns IsWellFormed w.runs
        → Numbered 1 r.steps
        → length r.steps ≤ r.max_steps
        → Moves run r
        → terminal_state r.state ≡ false
        → Keeps (Done run) (fail_run_with_usage env r lease fault usage w)
    unfolding fail_run_with_usage
    fail_run_with_usage-Done r fault usage w all numbered room moves live =
        Post-call IsWellFormed env.now
          (λ now. compensate_and_save env (owner_of r) (failed_with_usage r fault usage now) lease)
          w (Done run)
          (λ n w' e.
            compensate_and_save-Done env (owner_of r) (failed_with_usage r fault usage (env.now n))
              w' (subst (AllRuns IsWellFormed) (sym e) all)
              (failed-IsWellFormed r fault usage (env.now n) numbered room)
              (failed-Moves r fault usage (env.now n) moves live)
              (unfold failed_with_usage in refl))

    pub fail_run-Done :
        (r : Run) (fault : Fault) (w : World)
        → AllRuns IsWellFormed w.runs
        → IsWellFormed r
        → Moves run r
        → terminal_state r.state ≡ false
        → Keeps (Done run) (fail_run env r lease fault w)
    unfolding fail_run
    fail_run-Done r fault w all wf moves live =
        fail_run_with_usage-Done r fault no_usage w all wf.numbered (wf.roomy live) moves live
