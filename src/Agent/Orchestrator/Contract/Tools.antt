-- ===== src/Agent/Orchestrator/Contract/Tools.antt =====
-- The contract of the calls that run a tool or finish a run.
use ai_etl_platform.Common.{
  ℕ, ◌≤◌, ◌≡◌, ◌∙◌, inl, inr, refl, sym, subst, Option, none, some, true, false, arith, get_elem?,
  Option-cases,
}
use ai_etl_platform.Agent.Types.{
  Fault, Run, Step, Actor, ToolResult, RunState, running, waiting_tool, pending_approval, failed,
  terminal_state, is_approval_required,
}
use ai_etl_platform.Agent.Lock.{LockLease}
use ai_etl_platform.Agent.Tools.{Reply, compensate}
use ai_etl_platform.Agent.World.{Env, World, call, pure, save, fail}
use ai_etl_platform.Agent.World.Keeps.{AllRuns, Post, Post-bind, Post-call, Post-if}
use ai_etl_platform.Agent.Orchestrator.Steps.{is_waiting, update_at}
use ai_etl_platform.Agent.Orchestrator.Tool.{
  compensate_and_save, await_step, failed_step, done_step, undo_failed, tool_failed, tool_replied,
  execute_step, execute_persisted_tool,
}
use ai_etl_platform.Agent.Orchestrator.Invariant.{
  IsWellFormed, IsWellFormed-change, Numbered-update_at, length-update_at, index-compensated_by,
}
use ai_etl_platform.Agent.Orchestrator.Moves.{
  Moves, Moves-change, measure, ◌⟶*◌, return, ask, resume, fail as fail_edge, here, after,
}
use ai_etl_platform.Agent.Orchestrator.Contract.{Done, Keeps, save-Done, compensate_and_save-Done}

waiting-running : (s : RunState) → is_waiting s ≡ true → s ⟶* running
waiting-running waiting_tool h = after return here
waiting-running pending_approval h = after resume here
waiting-running _ h = absurd (cc h)

waiting-pending : (s : RunState) → is_waiting s ≡ true → s ⟶* pending_approval
waiting-pending waiting_tool h = after ask here
waiting-pending pending_approval h = here
waiting-pending _ h = absurd (cc h)

pub waiting_live : (s : RunState) → is_waiting s ≡ true → terminal_state s ≡ false
waiting_live s h = ground (arith, h)

-- `r` is the run in hand, `run` the one that the call began with
module _ (run : Run) (lease : LockLease) (env : Env) (actor : Actor) where
  -- a step of a waiting run is rewritten and the run goes on, waits for approval or fails
  module _ (r : Run) (pos : ℕ) (f : Step → Step) (now : ℕ) (w : World)
      (all : AllRuns IsWellFormed w.runs) (wf : IsWellFormed r) (moves : Moves run r)
      (waits : is_waiting r.state ≡ true)
      (same : (s : Step) → get_elem? r.steps pos ≡ some s → (f s).index ≡ s.index) where
    rewritten_IsWellFormed :
        (state : RunState) (fault : Option Fault)
        → IsWellFormed (record r {
          steps = update_at pos f r.steps;
          state = state;
          fault = fault;
          updated_at = now;
        })
    rewritten_IsWellFormed state fault =
        let live = waiting_live r.state waits in
        let len = length-update_at pos f r.steps in
        let room = wf.roomy live in
        IsWellFormed-change r state (update_at pos f r.steps) fault r.final now wf live
          (Numbered-update_at 1 pos f r.steps same wf.numbered) (omega (arith, len, room))
          (λ _. omega (arith, len, room))

    rewritten_Moves :
        (state : RunState) (fault : Option Fault)
        → r.state ⟶* state
        → Moves run (record r {
          steps = update_at pos f r.steps;
          state = state;
          fault = fault;
          updated_at = now;
        })
    rewritten_Moves state fault path =
        Moves-change run r state (update_at pos f r.steps) fault r.final now moves path
          (omega (arith, length-update_at pos f r.steps))

    pub resumed-Done :
        measure r ≤ measure run
        → Keeps (Done run) (
            save
              (record r { steps = update_at pos f r.steps; state = running; updated_at = now })
              lease
              w)
    resumed-Done near =
        save-Done run lease
          (record r { steps = update_at pos f r.steps; state = running; updated_at = now }) w all
          (rewritten_IsWellFormed running r.fault)
          (rewritten_Moves running r.fault (waiting-running r.state waits))
          (inr (inr (ground (arith, near, waits, length-update_at pos f r.steps))))

    awaiting-Done : Keeps (Done run) (
        save
          (record r {
            steps = update_at pos f r.steps;
            state = pending_approval;
            fault = none;
            updated_at = now;
          })
          lease
          w)
    awaiting-Done =
        save-Done run lease
          (record r {
            steps = update_at pos f r.steps;
            state = pending_approval;
            fault = none;
            updated_at = now;
          })
          w all (rewritten_IsWellFormed pending_approval none)
          (rewritten_Moves pending_approval none (waiting-pending r.state waits)) (inr (inl refl))

    failed-Done :
        (fault : Fault)
        → Keeps (Done run) (
            compensate_and_save env actor
              (record r {
                steps = update_at pos f r.steps;
                state = failed;
                fault = some fault;
                updated_at = now;
              })
              lease
              w)
    failed-Done fault =
        compensate_and_save-Done run lease env actor
          (record r {
            steps = update_at pos f r.steps;
            state = failed;
            fault = some fault;
            updated_at = now;
          })
          w all (rewritten_IsWellFormed failed (some fault))
          (rewritten_Moves failed (some fault)
            (after (fail_edge (waiting_live r.state waits)) here))
          refl

  undo_failed_done :
      (r : Run) (s : Step) (result : ToolResult) (w : World)
      → AllRuns IsWellFormed w.runs
      → Post IsWellFormed
          (λ (s' : Step) runs. s'.index ≡ s.index)
          (undo_failed env actor r s result w)
  unfolding undo_failed call pure
  undo_failed_done r s result w all =
      Post-if IsWellFormed (λ (s' : Step) runs. s'.index ≡ s.index) result.compensation_required _ _
        w
        (λ e. (
          all,
          index-compensated_by
              (compensate env.tools w.calls actor r.id s.index s.tool_name s.tool_arguments result
                (some env.authorizer))
              s,
        ))
        (λ e. (all, refl))

  module _ (r : Run) (pos : ℕ) (s : Step) (at : get_elem? r.steps pos ≡ some s)
      (wf : IsWellFormed r) (moves : Moves run r) (waits : is_waiting r.state ≡ true)
      (near : measure r ≤ measure run) where
    tool_failed-Done :
        (result : ToolResult) (fault : Fault) (now : ℕ) (w : World)
        → AllRuns IsWellFormed w.runs
        → Keeps (Done run) (tool_failed env actor r lease pos s result fault now w)
    unfolding tool_failed
    tool_failed-Done result fault now w all =
        Post-bind IsWellFormed (undo_failed env actor r s result) _ w
          (λ (s' : Step) runs. s'.index ≡ s.index) (Done run) (undo_failed_done r s result w all)
          (λ s' w' all' e.
            failed-Done r pos (λ _. failed_step result fault now s') now w' all' wf moves waits
              (λ x p. ground (arith, at, p, e)) fault)

    tool_replied-Done :
        (reply : Reply) (now : ℕ) (w : World)
        → AllRuns IsWellFormed w.runs
        → Keeps (Done run) (tool_replied env actor r lease pos s reply now w)
    unfolding tool_replied
    tool_replied-Done (result, none) now w all =
        resumed-Done r pos (done_step result now) now w all wf moves waits (λ x p. refl) near
    tool_replied-Done (result, some fault) now w all =
        Post-if IsWellFormed (Done run) (is_approval_required fault) _ _ w
          (λ e. awaiting-Done r pos (await_step fault now) now w all wf moves waits (λ x p. refl))
          (λ e. tool_failed-Done result fault now w all)

    execute_step-Done :
        (w : World)
        → AllRuns IsWellFormed w.runs
        → Keeps (Done run) (execute_step env actor r lease pos s w)
    unfolding execute_step
    execute_step-Done w all = Post-call IsWellFormed _ _ w (Done run) λ n w' e.
        Post-call IsWellFormed env.now _ w' (Done run) λ m w'' e'.
          tool_replied-Done _ (env.now m) w'' (subst (AllRuns IsWellFormed) (sym (e' ∙ e)) all)

  -- the step that is executed exists, so the index is in range
  pub execute_persisted_tool-Done :
      (r : Run) (pos : ℕ) (w : World)
      → AllRuns IsWellFormed w.runs
      → IsWellFormed r
      → Moves run r
      → is_waiting r.state ≡ true
      → measure r ≤ measure run
      → Keeps (Done run) (execute_persisted_tool env actor r lease pos w)
  unfolding execute_persisted_tool fail
  execute_persisted_tool-Done r pos w all wf moves waits near =
      elim (Option-cases (get_elem? r.steps pos)) [
        | inl e ↦ rw (e, execute_persisted_tool) all
        | inr (s, e) ↦
            rw (e, execute_persisted_tool) (execute_step-Done r pos s e wf moves waits near w all)
      ]
