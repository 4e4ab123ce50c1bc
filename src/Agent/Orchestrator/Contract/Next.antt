-- ===== src/Agent/Orchestrator/Contract/Next.antt =====
-- The contract of `ExecuteNext`.
use ai_etl_platform.Common.{
  ℕ, ◌+◌, ◌≤◌, ◌<◌, ◌≡◌, refl, sym, subst, ap, Option, none, some, true, false, ltb, leb, ◌&&◌,
  arith, length, get,
}
use ai_etl_platform.Agent.Types.{
  Fault, Run, Actor, PlanDecision, RunState, created, running, terminal_state, total, reason,
  DecisionType, other, finish, call_tool,
}
use ai_etl_platform.Agent.Lock.{LockLease}
use ai_etl_platform.Agent.Store.{Runs}
use ai_etl_platform.Agent.World.{Env, World, pure, save}
use ai_etl_platform.Agent.World.Keeps.{
  AllRuns, IsSaved, Post, Post-save, Post-bind, Post-call, Post-if, Post-weaken,
}
use ai_etl_platform.Agent.Orchestrator.Steps.{is_waiting, is_created}
use ai_etl_platform.Agent.Orchestrator.Next.{
  over_budget, follow_decision, planned, start_running, plan_next, advance,
}
use ai_etl_platform.Agent.Orchestrator.Invariant.{IsWellFormed, IsWellFormed-change}
use ai_etl_platform.Agent.Orchestrator.Moves.{
  Moves, Moves-change, measure, ◌⟶*◌, start, here, after,
}
use ai_etl_platform.Agent.Orchestrator.Contract.{
  Done, Keeps, IsWellFormed-saved, Moves-saved, fail_run-Done, fail_run_with_usage-Done,
}
use ai_etl_platform.Agent.Orchestrator.Contract.Decisions.{
  complete_run-Done, execute_tool_decision-Done, recover_waiting_tool-Done,
}

-- what is stored is what is returned, it moved from `run`, and it is not further from its end
abbrev pub Kept : Run → Run → Runs → Type 0
Kept run r stored =
    (get stored r.id ≡ some r) × IsWellFormed r × Moves run r × (measure r ≤ measure run)

module _ (run : Run) (lease : LockLease) (env : Env) (actor : Actor) where
  follow_decision-Done :
      (r : Run) (decision : PlanDecision) (type : DecisionType) (w : World)
      → AllRuns IsWellFormed w.runs
      → IsWellFormed r
      → Moves run r
      → r.state ≡ running
      → length r.steps < r.max_steps
      → measure r ≤ measure run
      → Keeps (Done run) (follow_decision env actor r lease decision type w)
  unfolding follow_decision
  follow_decision-Done r decision finish w all wf moves runs room near =
      complete_run-Done run lease env r decision w all wf moves runs
  follow_decision-Done r decision call_tool w all wf moves runs room near =
      execute_tool_decision-Done run lease env actor r decision w all wf moves runs room near
  follow_decision-Done r decision (other type) w all wf moves runs room near =
      fail_run-Done run lease env r _ w all wf moves (rw runs)

  spent_Moves :
      (r : Run) (n : ℕ) → Moves run r → Moves run (record r { tokens_used = r.tokens_used + n })
  spent_Moves r n h = record {
    id = h.id;
    tenant_id = h.tenant_id;
    user_id = h.user_id;
    task = h.task;
    max_steps = h.max_steps;
    max_token_budget = h.max_token_budget;
    created_at = h.created_at;
    state = h.state;
    steps = h.steps;
    tokens = omega (arith, h.tokens);
  }

  planned-Done :
      (r : Run) (answer : PlanDecision × Option Fault) (w : World)
      → AllRuns IsWellFormed w.runs
      → IsWellFormed r
      → Moves run r
      → r.state ≡ running
      → length r.steps < r.max_steps
      → measure r ≤ measure run
      → Keeps (Done run) (planned env actor r lease answer w)
  unfolding planned
  planned-Done r (decision, some e) w all wf moves runs room near =
      fail_run_with_usage-Done run lease env
        (record r { tokens_used = r.tokens_used + total decision.usage }) _ decision.usage w all
        wf.numbered (omega arith) (spent_Moves r (total decision.usage) moves) (rw runs)
  planned-Done r (decision, none) w all wf moves runs room near =
      let r' : Run = record r { tokens_used = r.tokens_used + total decision.usage } in
      Post-if IsWellFormed (Done run) (over_budget r') _ _ w
        (λ over.
          fail_run_with_usage-Done run lease env r' (reason "token_budget_exceeded") decision.usage
            w all wf.numbered (omega arith) (spent_Moves r (total decision.usage) moves) (rw runs))
        (λ within.
          follow_decision-Done r' decision decision.type w all
            (record {
              numbered = wf.numbered;
              bounded = wf.bounded;
              roomy = wf.roomy;
              affordable = λ _. within;
            })
            (spent_Moves r (total decision.usage) moves) runs room near)

  -- a save that finishes nothing
  pub save-Kept :
      (r : Run) (w : World)
      → AllRuns IsWellFormed w.runs
      → IsWellFormed r
      → Moves run r
      → measure r ≤ measure run
      → Post IsWellFormed
          (λ x stored.
            Kept run x stored
            × (x.state ≡ r.state)
            × (x.steps ≡ r.steps)
            × (x.max_steps ≡ r.max_steps))
          (save r lease w)
  save-Kept r w all wf moves near =
      Post-weaken IsWellFormed (λ x stored. (get stored x.id ≡ some x) × IsSaved r x) _
        (save r lease w)
        (λ x stored (there, same). (
          (
            there,
            (subst IsWellFormed (sym same) (IsWellFormed-saved r x.version x.fencing_token wf)),
            subst (Moves run) (sym same) (Moves-saved run r x.version x.fencing_token moves),
            omega (arith, ap measure same, near),
          ),
          ap (λ (y : Run). y.state) same,
          ap (λ (y : Run). y.steps) same,
          ap (λ (y : Run). y.max_steps) same,
        ))
        (Post-save IsWellFormed IsWellFormed-saved r lease w all wf)

  -- a created run has started, any other live run that does not wait runs
  start_running_done :
      (r : Run) (w : World)
      → AllRuns IsWellFormed w.runs
      → (get w.runs r.id ≡ some r)
      → IsWellFormed r
      → Moves run r
      → measure r ≤ measure run
      → terminal_state r.state ≡ false
      → is_waiting r.state ≡ false
      → Post IsWellFormed
          (λ x stored.
            Kept run x stored
            × (x.state ≡ running)
            × (x.steps ≡ r.steps)
            × (x.max_steps ≡ r.max_steps))
          (start_running env r lease w)
  unfolding start_running pure
  start_running_done r w all there wf moves near live waits =
      Post-if IsWellFormed _ (is_created r.state) _ _ w
        (λ e. Post-call IsWellFormed env.now _ w _ λ n w' p.
          save-Kept (record r { state = running; updated_at = env.now n }) w'
            (subst (AllRuns IsWellFormed) (sym p) all)
            (IsWellFormed-change r running r.steps r.fault r.final (env.now n) wf live wf.numbered
              (omega (arith, wf.bounded)) (λ _. wf.roomy live))
            (Moves-change run r running r.steps r.fault r.final (env.now n) moves
              (from_created r.state e) (omega arith))
            (ground (arith, near, waits)))
        (λ e. (all, ((there, wf, moves, near), ground (arith, live, waits, e), refl, refl)))
    where
      from_created : (s : RunState) → is_created s ≡ true → s ⟶* running
      from_created created h = after start here
      from_created _ h = absurd (cc h)

  plan_next-Done :
      (r : Run) (w : World)
      → AllRuns IsWellFormed w.runs
      → (get w.runs r.id ≡ some r)
      → IsWellFormed r
      → Moves run r
      → measure r ≤ measure run
      → terminal_state r.state ≡ false
      → is_waiting r.state ≡ false
      → length r.steps < r.max_steps
      → Keeps (Done run) (plan_next env actor r lease w)
  unfolding plan_next
  plan_next-Done r w all there wf moves near live waits room =
      Post-bind IsWellFormed (start_running env r lease) _ w _ (Done run)
        (start_running_done r w all there wf moves near live waits)
        (λ x w' all' ((there', wf', moves', near'), runs, steps, max).
          Post-call IsWellFormed _ _ w' (Done run) λ n w'' e.
            planned-Done x _ w'' (subst (AllRuns IsWellFormed) (sym e) all') wf' moves' runs
              (omega (arith, ap length steps, max, room)) near')

  pub advance-Done :
      (r : Run) (w : World)
      → AllRuns IsWellFormed w.runs
      → Kept run r w.runs
      → terminal_state r.state ≡ false
      → Keeps (Done run) (advance env actor r lease w)
  unfolding advance
  advance-Done r w all (there, wf, moves, near) live =
      Post-if IsWellFormed (Done run) (is_waiting r.state) _ _ w
        (λ waits. recover_waiting_tool-Done run lease env actor r wf moves waits near w all)
        (λ waits.
          Post-if IsWellFormed (Done run) (leb r.max_steps (length r.steps)) _ _ w
            (λ e. fail_run-Done run lease env r _ w all wf moves live)
            (λ room.
              Post-if IsWellFormed (Done run)
                (ltb 0 r.max_token_budget && leb r.max_token_budget r.tokens_used) _ _ w
                (λ e. fail_run-Done run lease env r _ w all wf moves live)
                (λ e.
                  plan_next-Done r w all there wf moves near live waits (ground (arith, room)))))
