-- ===== src/Agent/Orchestrator/Contract/Calls.antt =====
-- The contract of whole calls of `ExecuteNext`, for any stored run.
use ai_etl_platform.Common.{
  ℕ, ◌≡◌, inl, refl, sym, subst, Option, none, some, List, Bool, true, false, leb, arith, length,
  get,
}
use ai_etl_platform.Agent.Types.{Fault, Run, Step, Actor, RunState, failed, terminal_state}
use ai_etl_platform.Agent.Lock.{LockLease}
use ai_etl_platform.Agent.Store.{Runs}
use ai_etl_platform.Agent.World.{Env, World, pure, save}
use ai_etl_platform.Agent.World.Keeps.{
  AllRuns, Post, Post-bind, Post-call, Post-if, Post-weaken, Post-unless,
}
use ai_etl_platform.Agent.Orchestrator.Steps.{fail_active_run, active_step_index, close_at}
use ai_etl_platform.Agent.Orchestrator.Tool.{compensate_and_save, owner_of}
use ai_etl_platform.Agent.Orchestrator.Next.{
  foreign, expiry, expire_with, expire_run_if_needed, claim_run, after_expiry, execute_loaded,
}
use ai_etl_platform.Agent.Orchestrator.Invariant.{
  IsWellFormed, IsWellFormed-change, Numbered, Numbered-update_at, length-update_at,
}
use ai_etl_platform.Agent.Orchestrator.Moves.{Moves-refl, Moves-change, fail, here, after}
use ai_etl_platform.Agent.Orchestrator.Contract.{Done, Keeps, compensate_and_save-Done}
use ai_etl_platform.Agent.Orchestrator.Contract.Next.{Kept, save-Kept, advance-Done}

pub Numbered-close_at :
    (k : ℕ) (o : Option ℕ) (state : RunState) (fault : Fault) (now : ℕ) (ss : List Step)
    → Numbered k ss
    → Numbered k (close_at o state fault now ss)
Numbered-close_at k none state fault now ss h = h
Numbered-close_at k (some i) state fault now ss h = Numbered-update_at k i _ ss (λ s e. refl) h

pub length-close_at :
    (o : Option ℕ) (state : RunState) (fault : Fault) (now : ℕ) (ss : List Step)
    → length (close_at o state fault now ss) ≡ length ss
length-close_at none state fault now ss = refl
length-close_at (some i) state fault now ss = length-update_at i _ ss

-- what the check for expiry gives: an expired run was saved, any other is as it was
abbrev pub Checked : Run → Run × Bool → Runs → Type 0
Checked run (r, true) stored = Done run r stored
Checked run (r, false) stored = (r ≡ run) × (get stored run.id ≡ some run)

module _ (run : Run) (lease : LockLease) (env : Env) (wf : IsWellFormed run)
    (live : terminal_state run.state ≡ false) where
  expired-Done :
      (fault : Fault) (now : ℕ) (w : World)
      → AllRuns IsWellFormed w.runs
      → Keeps
          (Done run)
          (compensate_and_save env (owner_of run) (fail_active_run run now fault) lease w)
  unfolding fail_active_run
  expired-Done fault now w all =
      let o = active_step_index run.steps in
      let len = length-close_at o failed fault now run.steps in
      let room = wf.roomy live in
      compensate_and_save-Done run lease env (owner_of run) _ w all
        (IsWellFormed-change run failed (close_at o failed fault now run.steps) (some fault)
          run.final now wf live (Numbered-close_at 1 o failed fault now run.steps wf.numbered)
          (omega (arith, len, room)) (λ l. absurd (cc l)))
        (Moves-change run run failed (close_at o failed fault now run.steps) (some fault) run.final
          now (Moves-refl run) (after (fail live) here) (omega (arith, len)))
        refl

  pub expire_run_if_needed-Done :
      (w : World)
      → AllRuns IsWellFormed w.runs
      → get w.runs run.id ≡ some run
      → Post IsWellFormed (Checked run) (expire_run_if_needed env run lease w)
  unfolding expire_run_if_needed expire_with pure
  expire_run_if_needed-Done w all there = Post-call IsWellFormed env.now _ w (Checked run) λ n w' e.
      decided (env.now n) (expiry env run (env.now n)) w' (subst (AllRuns IsWellFormed) (sym e) all)
        (rw e there)
    where
      decided :
          (now : ℕ) (o : Option Fault) (w : World)
          → AllRuns IsWellFormed w.runs
          → get w.runs run.id ≡ some run
          → Post IsWellFormed (Checked run) (expire_with env run lease now o w)
      decided now none w all there = (all, (refl, there))
      decided now (some fault) w all there =
          Post-bind IsWellFormed _ _ w (Done run) (Checked run) (expired-Done fault now w all)
            (λ saved w' all' done. (all', done))

  module _ (actor : Actor) where
    claim_run_done :
        (w : World)
        → AllRuns IsWellFormed w.runs
        → get w.runs run.id ≡ some run
        → Post IsWellFormed
            (λ x stored. Kept run x stored × (terminal_state x.state ≡ false))
            (claim_run env run lease w)
    unfolding claim_run pure
    claim_run_done w all there =
        Post-if IsWellFormed _ (leb lease.fencing_token run.fencing_token) _ _ w
          (λ e. (all, ((there, wf, Moves-refl run, omega arith), live)))
          (λ e. Post-call IsWellFormed env.now _ w _ λ n w' p.
            Post-weaken IsWellFormed _ _ (save (record run { updated_at = env.now n }) lease w')
              (λ x stored (kept, state, steps, max). (kept, rw state live))
              (save-Kept run lease env actor (record run { updated_at = env.now n }) w'
                (subst (AllRuns IsWellFormed) (sym p) all)
                (IsWellFormed-change run run.state run.steps run.fault run.final (env.now n) wf live
                  wf.numbered wf.bounded wf.roomy)
                (Moves-change run run run.state run.steps run.fault run.final (env.now n)
                  (Moves-refl run) here (omega arith))
                (omega arith)))

    after_expiry-Done :
        (checked : Run × Bool) (w : World)
        → AllRuns IsWellFormed w.runs
        → Checked run checked w.runs
        → Keeps (Done run) (after_expiry env actor lease checked w)
    unfolding after_expiry pure
    after_expiry-Done (r, true) w all done = (all, done)
    after_expiry-Done (r, false) w all (same, there) = rw same (
        Post-bind IsWellFormed (claim_run env run lease) _ w _ (Done run)
          (claim_run_done w all there)
          (λ x w' all' (kept, alive). advance-Done run lease env actor x w' all' kept alive))

-- the call under the lease, on the run that was loaded
pub execute_loaded-Done :
    (run : Run) (lease : LockLease) (env : Env) (actor : Actor) (w : World)
    → AllRuns IsWellFormed w.runs
    → IsWellFormed run
    → get w.runs run.id ≡ some run
    → Keeps (Done run) (execute_loaded env actor lease run w)
unfolding execute_loaded pure
execute_loaded-Done run lease env actor w all wf there =
    Post-unless IsWellFormed (Done run) (foreign actor run) _ w all λ own.
      Post-if IsWellFormed (Done run) (terminal_state run.state) _ _ w
        (λ over. (all, (there, Moves-refl run, inl over)))
        (λ live.
          Post-bind IsWellFormed (expire_run_if_needed env run lease) _ w (Checked run) (Done run)
            (expire_run_if_needed-Done run lease env wf live w all there)
            (λ checked w' all' c. after_expiry-Done run lease env wf live actor checked w' all' c))
