-- ===== src/Agent/Orchestrator/Contract/Control.antt =====
-- Cancelling a run, rejecting its approval, and applying its timeouts.
use ai_etl_platform.Common.{
  String, ℕ, ◌≡◌, ◌∙◌, refl, sym, subst, Option, none, some, Bool, true, false, arith, get, Outcome,
  ok, trim_space,
}
use ai_etl_platform.Agent.Types.{Fault, Run, Actor, RunState, failed, cancelled, terminal_state}
use ai_etl_platform.Agent.Lock.{LockLease}
use ai_etl_platform.Agent.Store.{Runs}
use ai_etl_platform.Agent.World.{Env, World, Exec, pure, load, with_lease, ◌>>=◌}
use ai_etl_platform.Agent.World.Keeps.{
  AllRuns, Post, Post-weaken, Post-bind, Post-call, Post-if, Post-unless, Post-load,
  Post-with_lease,
}
use ai_etl_platform.Agent.Orchestrator.Steps.{
  active_step_index, pending_approval_step_index, close_at,
}
use ai_etl_platform.Agent.Orchestrator.Tool.{owner_of}
use ai_etl_platform.Agent.Orchestrator.Next.{foreign, expire_run_if_needed}
use ai_etl_platform.Agent.Orchestrator.Control.{
  with_reason, cancel_refused, cancelled_run, cancel_loaded, cancel, reject_refused, rejected_run,
  reject_at, reject_loaded, reject_approval, lifecycle_loaded, apply_lifecycle,
}
use ai_etl_platform.Agent.Orchestrator.Invariant.{IsWellFormed, IsWellFormed-change}
use ai_etl_platform.Agent.Orchestrator.Moves.{
  Moves, Moves-refl, Moves-change, fail, cancel as cancel_edge, here, after, ◌⟶*◌,
}
use ai_etl_platform.Agent.Orchestrator.Contract.{
  Done, Keeps, compensate_and_save-Done, fail_run-Done,
}
use ai_etl_platform.Agent.Orchestrator.Contract.Calls.{
  Numbered-close_at, length-close_at, Checked, expire_run_if_needed-Done,
}

-- a returned run that is stored and has moved from the one that was stored before
abbrev pub Moved : Runs → String → Run → Runs → Type 0
Moved before id r stored =
    (run : Run) × (get before id ≡ some run) × (r.id ≡ id) × (get stored id ≡ some r) × Moves run r

-- the same of a call on the run that was loaded
abbrev Stands : Run → Run → Runs → Type 0
Stands run r stored = (get stored r.id ≡ some r) × Moves run r

stands :
    (run : Run) (out : Outcome Fault Run × World) → Keeps (Done run) out → Keeps (Stands run) out
stands run out = Post-weaken IsWellFormed (Done run) (Stands run) out (λ r stored d. (d.0, d.1))

-- a call that loads the run under the lease
under_lease :
    (env : Env) (id : String) (body : LockLease → Run → Exec Run) (w : World)
    → AllRuns IsWellFormed w.runs
    → ((lease : LockLease) (run : Run) (w' : World)
        → AllRuns IsWellFormed w'.runs
        → IsWellFormed run
        → get w'.runs run.id ≡ some run
        → Keeps (Stands run) (body lease run w'))
    → Post IsWellFormed (Moved w.runs id) (with_lease env id (λ lease. load id >>= body lease) w)
under_lease env id body w all k =
    Post-with_lease IsWellFormed (Moved w.runs id) env id _ w all λ lease w' e.
      Post-bind IsWellFormed (load id) _ w' _ (Moved w.runs id)
        (Post-load IsWellFormed id w' (subst (AllRuns IsWellFormed) (sym e) all))
        λ run w'' all' (wf, own, there, same).
          Post-weaken IsWellFormed (Stands run) (Moved w.runs id) _
            (λ r stored (kept, moves). (
              run,
              subst (λ (m : Runs). get m id ≡ some run) (same ∙ e) there,
              moves.id ∙ own,
              subst (λ k. get stored k ≡ some r) (moves.id ∙ own) kept,
              moves,
            ))
            (k lease run w'' all' wf (subst (λ k. get w''.runs k ≡ some run) (sym own) there))

-- who cancelled a run, why and when is no part of the contract
module _ (r : Run) (by why : String) (now : ℕ) where
  IsWellFormed-cancelled :
      IsWellFormed r
      → IsWellFormed (record r { cancelled_by = by; cancel_reason = why; cancelled_at = now })
  IsWellFormed-cancelled h = record {
    numbered = h.numbered;
    bounded = h.bounded;
    roomy = h.roomy;
    affordable = h.affordable;
  }

  Moves-cancelled :
      (run : Run)
      → Moves run r
      → Moves run (record r { cancelled_by = by; cancel_reason = why; cancelled_at = now })
  Moves-cancelled run h = record {
    id = h.id;
    tenant_id = h.tenant_id;
    user_id = h.user_id;
    task = h.task;
    max_steps = h.max_steps;
    max_token_budget = h.max_token_budget;
    created_at = h.created_at;
    state = h.state;
    steps = h.steps;
    tokens = h.tokens;
  }

module _ (run : Run) (lease : LockLease) (env : Env) (actor : Actor) (wf : IsWellFormed run) where
  -- a live run that is closed at one step and ends
  module _ (o : Option ℕ) (state : RunState) (fault : Fault) (now : ℕ)
      (live : terminal_state run.state ≡ false) (over : terminal_state state ≡ true) where
    closed_IsWellFormed : IsWellFormed (record run {
      state = state;
      steps = close_at o state fault now run.steps;
      fault = some fault;
      updated_at = now;
    })
    closed_IsWellFormed =
        let len = length-close_at o state fault now run.steps in
        let room = wf.roomy live in
        IsWellFormed-change run state (close_at o state fault now run.steps) (some fault) run.final
          now wf live (Numbered-close_at 1 o state fault now run.steps wf.numbered)
          (omega (arith, len, room)) (λ l. absurd (ground (arith, l, over)))

    closed_Moves :
        run.state ⟶* state
        → Moves run (record run {
          state = state;
          steps = close_at o state fault now run.steps;
          fault = some fault;
          updated_at = now;
        })
    closed_Moves path =
        Moves-change run run state (close_at o state fault now run.steps) (some fault) run.final now
          (Moves-refl run) path (omega (arith, length-close_at o state fault now run.steps))

  cancel_loaded-Done :
      (why : String) (w : World)
      → AllRuns IsWellFormed w.runs
      → Keeps (Done run) (cancel_loaded env actor why lease run w)
  unfolding cancel_loaded
  cancel_loaded-Done why w all =
      Post-unless IsWellFormed (Done run) (cancel_refused actor run) _ w all λ allowed.
        Post-call IsWellFormed env.now _ w (Done run) λ n w' e.
          let now = env.now n in
          let live : terminal_state run.state ≡ false = ground (arith, allowed) in
          let o = active_step_index run.steps in
          let message = with_reason "run cancelled" why in
          let closed : Run = record run {
            state = cancelled;
            steps = close_at o cancelled message now run.steps;
            fault = some message;
            updated_at = now;
          } in
          compensate_and_save-Done run lease env (owner_of run) (cancelled_run actor run why now) w'
            (subst (AllRuns IsWellFormed) (sym e) all)
            (IsWellFormed-cancelled closed actor.user_id (trim_space why) now
              (closed_IsWellFormed o cancelled message now live refl))
            (Moves-cancelled closed actor.user_id (trim_space why) now run
              (closed_Moves o cancelled message now live refl (after (cancel_edge live) here)))
            refl

  reject_loaded-Done :
      (why : String) (w : World)
      → AllRuns IsWellFormed w.runs
      → Keeps (Done run) (reject_loaded env actor why lease run w)
  unfolding reject_loaded
  reject_loaded-Done why w all =
      Post-unless IsWellFormed (Done run) (reject_refused actor run) _ w all
        λ allowed. at (pending_approval_step_index run.steps) (ground (arith, allowed))
    where
      at :
          (o : Option ℕ)
          → terminal_state run.state ≡ false
          → Keeps (Done run) (reject_at env why lease run o w)
      at none live = fail_run-Done run lease env run _ w all wf (Moves-refl run) live
      at (some i) live = Post-call IsWellFormed env.now _ w (Done run) λ n w' e.
          let now = env.now n in
          let message = with_reason "approval rejected" why in
          compensate_and_save-Done run lease env (owner_of run) (rejected_run run i why now) w'
            (subst (AllRuns IsWellFormed) (sym e) all)
            (closed_IsWellFormed (some i) failed message now live refl)
            (closed_Moves (some i) failed message now live refl (after (fail live) here)) refl

  lifecycle_loaded-Done :
      (w : World)
      → AllRuns IsWellFormed w.runs
      → get w.runs run.id ≡ some run
      → Keeps (Stands run) (lifecycle_loaded env actor lease run w)
  unfolding lifecycle_loaded pure
  lifecycle_loaded-Done w all there =
      Post-unless IsWellFormed (Stands run) (foreign actor run) _ w all λ own.
        Post-if IsWellFormed (Stands run) (terminal_state run.state) _ _ w
          (λ over. (all, (there, Moves-refl run)))
          (λ live.
            Post-bind IsWellFormed (expire_run_if_needed env run lease) _ w (Checked run)
              (Stands run) (expire_run_if_needed-Done run lease env wf live w all there)
              (λ checked w' all' c. kept checked w' all' c))
    where
      kept :
          (checked : Run × Bool) (w : World)
          → AllRuns IsWellFormed w.runs
          → Checked run checked w.runs
          → Keeps (Stands run) (ok checked.0, w)
      kept (r, true) w all (stored, moves, progress) = (all, (stored, moves))
      kept (r, false) w all (same, stored) = rw same (all, (stored, Moves-refl run))

-- `Cancel`, `RejectApproval` and `ApplyLifecycle` keep every stored run well formed, whether they
-- succeed or fail. A run that one of them returns is the stored one; its identity, task, limits
-- and time of creation are those of the run that was stored before, its state was reached along
-- the diagram of states, and its steps and tokens have not become fewer.
pub control_keeps :
    (env : Env) (id : String) (actor : Actor) (why : String) (w : World)
    → AllRuns IsWellFormed w.runs
    → Post IsWellFormed (Moved w.runs id) (cancel env id actor why w)
      × Post IsWellFormed (Moved w.runs id) (reject_approval env id actor why w)
      × Post IsWellFormed (Moved w.runs id) (apply_lifecycle env id actor w)
unfolding cancel reject_approval apply_lifecycle
control_keeps env id actor why w all = (
  under_lease env id (cancel_loaded env actor why) w all (λ lease run w' all' wf there.
      stands run _ (cancel_loaded-Done run lease env actor wf why w' all')),
  under_lease env id (reject_loaded env actor why) w all (λ lease run w' all' wf there.
      stands run _ (reject_loaded-Done run lease env actor wf why w' all')),
  under_lease env id (lifecycle_loaded env actor) w all
      (λ lease run w' all' wf there. lifecycle_loaded-Done run lease env actor wf w' all' there),
)
