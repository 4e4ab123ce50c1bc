-- ===== src/Agent/Orchestrator/Contract/Decisions.antt =====
-- The contract of the calls that follow a planner's decision or recover a run that waits.
use ai_etl_platform.Common.{
  String, ℕ, ◌+◌, ◌-◌, ◌*◌, ◌≤◌, ◌<◌, ◌≡◌, inl, inr, refl, sym, subst, ap, Option, none, some, [],
  ◌∷◌, ◌++◌, true, false, not, arith, length, length-append, get, get_elem?, Option-cases,
}
use ai_etl_platform.Agent.Types.{
  Run, Step, Actor, PlanDecision, ToolResult, RunState, running, waiting_tool, completed,
  terminal_state, reason,
}
use ai_etl_platform.Agent.Lock.{LockLease}
use ai_etl_platform.Agent.World.{Env, World, save}
use ai_etl_platform.Agent.World.Keeps.{AllRuns, IsSaved, Post-bind, Post-call, Post-if, Post-save}
use ai_etl_platform.Agent.Orchestrator.Steps.{is_waiting, is_tool_call}
use ai_etl_platform.Agent.Orchestrator.Tool.{
  execute_tool_decision, complete_run, recover_tool, recover_step, recover_waiting_tool, tool_step,
  final_step,
}
use ai_etl_platform.Agent.Orchestrator.Invariant.{
  IsWellFormed, IsWellFormed-change, Numbered-append,
}
use ai_etl_platform.Agent.Orchestrator.Moves.{
  Moves, Moves-change, measure, ◌⟶*◌, call_tool, finish, here, after,
}
use ai_etl_platform.Agent.Orchestrator.Contract.{
  Done, Keeps, save-Done, fail_run-Done, IsWellFormed-saved, Moves-saved,
}
use ai_etl_platform.Agent.Orchestrator.Contract.Tools.{
  waiting_live, resumed-Done, execute_persisted_tool-Done,
}

module _ (run : Run) (lease : LockLease) (env : Env) where
  -- a running run with room gets one more step
  module _ (r : Run) (s : Step) (now : ℕ) (wf : IsWellFormed r) (moves : Moves run r)
      (runs : r.state ≡ running) (next : s.index ≡ length r.steps + 1) where
    appended_Moves :
        (state : RunState) (final : String)
        → running ⟶* state
        → Moves run
            (record r { steps = r.steps ++ s ∷ []; state = state; final = final; updated_at = now })
    appended_Moves state final path =
        Moves-change run r state (r.steps ++ s ∷ []) r.fault final now moves
          (subst (λ x. x ⟶* state) (sym runs) path) (omega (arith, length-append r.steps (s ∷ [])))

    appended_IsWellFormed :
        (state : RunState) (final : String)
        → (terminal_state state ≡ false → length r.steps < r.max_steps)
        → IsWellFormed
            (record r { steps = r.steps ++ s ∷ []; state = state; final = final; updated_at = now })
    appended_IsWellFormed state final room =
        let live : terminal_state r.state ≡ false = rw runs in
        let within = wf.roomy live in
        let len = length-append r.steps (s ∷ []) in
        IsWellFormed-change r state (r.steps ++ s ∷ []) r.fault final now wf live
          (Numbered-append 1 r.steps s wf.numbered (omega arith)) (omega arith)
          (λ l. let q = room l in omega arith)

  pub complete_run-Done :
      (r : Run) (decision : PlanDecision) (w : World)
      → AllRuns IsWellFormed w.runs
      → IsWellFormed r
      → Moves run r
      → r.state ≡ running
      → Keeps (Done run) (complete_run env r lease decision w)
  unfolding complete_run
  complete_run-Done r decision w all wf moves runs =
      Post-call IsWellFormed env.now _ w (Done run) λ n w' e.
        save-Done run lease _ w' (subst (AllRuns IsWellFormed) (sym e) all)
          (appended_IsWellFormed r (final_step r decision (env.now n)) (env.now n) wf moves runs
            refl completed decision.final (λ l. absurd (cc l)))
          (appended_Moves r (final_step r decision (env.now n)) (env.now n) wf moves runs refl
            completed decision.final (after finish here))
          (inl refl)

  module _ (actor : Actor) where
    pub execute_tool_decision-Done :
        (r : Run) (decision : PlanDecision) (w : World)
        → AllRuns IsWellFormed w.runs
        → IsWellFormed r
        → Moves run r
        → r.state ≡ running
        → length r.steps < r.max_steps
        → measure r ≤ measure run
        → Keeps (Done run) (execute_tool_decision env actor r lease decision w)
    unfolding execute_tool_decision
    execute_tool_decision-Done r decision w all wf moves runs room near =
        Post-call IsWellFormed env.now _ w (Done run) λ n w' e.
          Post-bind IsWellFormed (save (waiting (env.now n)) lease) _ w'
            (λ saved stored.
              (get stored saved.id ≡ some saved) × IsSaved (waiting (env.now n)) saved)
            (Done run)
            (Post-save IsWellFormed IsWellFormed-saved (waiting (env.now n)) lease w'
              (subst (AllRuns IsWellFormed) (sym e) all) (waiting_wf (env.now n)))
            (λ saved w'' all' (stored, same).
              execute_persisted_tool-Done run lease env actor saved (length saved.steps - 1) w''
                all'
                (subst IsWellFormed (sym same)
                  (IsWellFormed-saved _ saved.version saved.fencing_token (waiting_wf (env.now n))))
                (subst (Moves run) (sym same)
                  (Moves-saved run _ saved.version saved.fencing_token (waiting_moves (env.now n))))
                (ap (λ (x : Run). is_waiting x.state) same)
                (omega (
                  arith,
                  ap measure same,
                  length-append r.steps (tool_step r decision (env.now n) ∷ []),
                  near_running,
                )))
      where
        waiting : ℕ → Run
        waiting now = record r {
          state = waiting_tool;
          steps = r.steps ++ tool_step r decision now ∷ [];
          updated_at = now;
        }

        waiting_wf : (now : ℕ) → IsWellFormed (waiting now)
        waiting_wf now =
            appended_IsWellFormed r (tool_step r decision now) now wf moves runs refl waiting_tool
              r.final (λ _. room)

        waiting_moves : (now : ℕ) → Moves run (waiting now)
        waiting_moves now =
            appended_Moves r (tool_step r decision now) now wf moves runs refl waiting_tool r.final
              (after call_tool here)

        near_running : 2 * (r.max_steps - length r.steps) ≤ measure run
        near_running = ground (arith, near)

    module _ (r : Run) (wf : IsWellFormed r) (moves : Moves run r)
        (waits : is_waiting r.state ≡ true) (near : measure r ≤ measure run) where
      recover_step-Done :
          (last : ℕ) (s : Step) (w : World)
          → AllRuns IsWellFormed w.runs
          → Keeps (Done run) (recover_step env actor r lease last s w)
      unfolding recover_step
      recover_step-Done last s w all =
          Post-if IsWellFormed (Done run) (not (is_tool_call s.type)) _ _ w
            (λ e.
              fail_run-Done run lease env r (reason "waiting_tool_without_tool_call_step") w all wf
                moves (waiting_live r.state waits))
            (λ e. finished_or_not s.tool_result)
        where
          finished_or_not :
              (o : Option ToolResult) → Keeps (Done run) (recover_tool env actor r lease last o w)
          finished_or_not (some _) = Post-call IsWellFormed env.now _ w (Done run) λ n w' e.
              resumed-Done run lease env actor r last _ (env.now n) w'
                (subst (AllRuns IsWellFormed) (sym e) all) wf moves waits (λ x p. refl) near
          finished_or_not none =
              execute_persisted_tool-Done run lease env actor r last w all wf moves waits near

      pub recover_waiting_tool-Done :
          (w : World)
          → AllRuns IsWellFormed w.runs
          → Keeps (Done run) (recover_waiting_tool env actor r lease w)
      unfolding recover_waiting_tool
      recover_waiting_tool-Done w all =
          elim (Option-cases (get_elem? r.steps (length r.steps - 1))) [
            | inl e ↦
                rw (e, recover_waiting_tool)
                  (fail_run-Done run lease env r (reason "waiting_tool_without_step") w all wf moves
                    (waiting_live r.state waits))
            | inr (s, e) ↦
                rw (e, recover_waiting_tool) (recover_step-Done (length r.steps - 1) s w all)
          ]
