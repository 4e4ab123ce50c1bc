-- ===== src/Agent/Orchestrator/Termination.antt =====
-- `ExecuteNext` and `RunToCompletion` as wholes.
use ai_etl_platform.Common.{
  String, ℕ, zero, suc, ◌+◌, ◌*◌, ◌≤◌, ◌<◌, ◌≡◌, ◌∙◌, inl, inr, refl, sym, subst, Option, some,
  true, ◌||◌, arith, get, Outcome, ok, err, Bool-cases,
}
use ai_etl_platform.Agent.Types.{Fault, Run, Actor, terminal_state}
use ai_etl_platform.Agent.Lock.{LockLease}
use ai_etl_platform.Agent.Store.{Runs}
use ai_etl_platform.Agent.World.{Env, World, load, ◌>>=◌}
use ai_etl_platform.Agent.World.Keeps.{
  AllRuns, Post, Post-bind, Post-load, Post-with_lease, Post-weaken,
}
use ai_etl_platform.Agent.Orchestrator.Steps.{is_pending}
use ai_etl_platform.Agent.Orchestrator.Next.{
  execute_loaded, execute_next, settled, run_to_completion,
}
use ai_etl_platform.Agent.Orchestrator.Invariant.{IsWellFormed}
use ai_etl_platform.Agent.Orchestrator.Moves.{Moves, Progress, measure}
use ai_etl_platform.Agent.Orchestrator.Contract.{Done}
use ai_etl_platform.Agent.Orchestrator.Contract.Calls.{execute_loaded-Done}

-- the stored run `before` a call and the returned run
abbrev pub Advances : Runs → String → Run → Runs → Type 0
Advances before id r stored =
    (run : Run) × (get before id ≡ some run)
    × (r.id ≡ id)
    × (get stored id ≡ some r)
    × Moves run r
    × Progress run r

execute_next-Done :
    (env : Env) (id : String) (actor : Actor) (w : World)
    → AllRuns IsWellFormed w.runs
    → Post IsWellFormed (Advances w.runs id) (execute_next env id actor w)
unfolding execute_next
execute_next-Done env id actor w all =
    Post-with_lease IsWellFormed (Advances w.runs id) env id _ w all
      λ lease w' e. let all' = subst (AllRuns IsWellFormed) (sym e) all in loaded lease w' all' e
  where
    loaded :
        (lease : LockLease) (w' : World)
        → AllRuns IsWellFormed w'.runs
        → w'.runs ≡ w.runs
        → Post IsWellFormed (Advances w.runs id) ((load id >>= execute_loaded env actor lease) w')
    loaded lease w' all e =
        Post-bind IsWellFormed (load id) _ w' _ (Advances w.runs id)
          (Post-load IsWellFormed id w' all)
          λ run w'' all' (wf, own, there, same).
            Post-weaken IsWellFormed (Done run) (Advances w.runs id) _
              (λ r stored (kept, moves, progress). (
                run,
                subst (λ (m : Runs). get m id ≡ some run) (same ∙ e) there,
                moves.id ∙ own,
                subst (λ k. get stored k ≡ some r) (moves.id ∙ own) kept,
                moves,
                progress,
              ))
              (execute_loaded-Done run lease env actor w'' all' wf
                (subst (λ k. get w''.runs k ≡ some run) (sym own) there))

Post-ok :
    (Q : Run → Runs → Type 0) (out : Outcome Fault Run × World) {r : Run}
    → Post IsWellFormed Q out
    → out.0 ≡ ok r
    → Q r out.1.runs
Post-ok Q (ok a, w) h e = subst (λ x. Q x w.runs) (ground (arith, e)) h.1
Post-ok Q (err x, w) h e = absurd (cc e)

-- An error, or a run that is terminal or waits for approval.
abbrev pub IsSettled : Outcome Fault Run → Type 0
IsSettled (ok r) = (terminal_state r.state || is_pending r.state) ≡ true
IsSettled (err e) = Unit

-- what the loop ends with
abbrev pub Ends : Option (Outcome Fault Run × World) → Type 0
Ends o = (out : Outcome Fault Run × World) × (o ≡ some out) × IsSettled out.0

-- one round, where the rounds that are left end
settled-Ends :
    (id : String) (fuel : ℕ) (run : Run)
    → measure run < suc fuel
    → (before : Runs) → get before id ≡ some run
    → (rest : World → Option (Outcome Fault Run × World))
    → ((w : World) (r : Run)
        → AllRuns IsWellFormed w.runs
        → get w.runs id ≡ some r
        → measure r < fuel
        → Ends (rest w))
    → (out : Outcome Fault Run × World) → Post IsWellFormed (Advances before id) out
    → Ends (settled out (rest out.1))
unfolding settled
settled-Ends id fuel run enough before there rest ih (err e, w) h = ((err e, w), refl, tt)
settled-Ends id fuel run enough before there rest ih (ok r, w)
      (all, (old, was, own, stored, moves, progress)) =
    elim (Bool-cases (terminal_state r.state || is_pending r.state)) [
      | inl e ↦ rw e ((ok r, w), refl, e)
      | inr e ↦ rw e (
          ih w r all stored (elim progress [
            | inl t ↦ absurd (ground (arith, e, t))
            | inr (inl t) ↦ absurd (ground (arith, e, t))
            | inr (inr less) ↦ ground (arith, less, enough, was, there)
          ]))
    ]

-- the loop ends before the measure of the stored run is used up
ends :
    (env : Env) (id : String) (actor : Actor) (fuel : ℕ) (w : World) (run : Run)
    → AllRuns IsWellFormed w.runs
    → get w.runs id ≡ some run
    → measure run < fuel
    → (out : Outcome Fault Run × World) × (run_to_completion env id actor fuel w ≡ some out)
      × IsSettled out.0
unfolding run_to_completion
ends env id actor zero w run all there enough = absurd (omega arith)
ends env id actor (suc fuel) w run all there enough =
    settled-Ends id fuel run enough w.runs there (run_to_completion env id actor fuel)
      (λ w' r all' there' less. ends env id actor fuel w' r all' there' less)
      (execute_next env id actor w) (execute_next-Done env id actor w all)

-- One call of `ExecuteNext` keeps every stored run well formed: its steps are numbered from 1, at
-- most one more than its limit, and while it is not terminal it is within its limits on steps and
-- tokens. This holds whether the call succeeds or fails, and whatever the planner, the tools and
-- the clock answer.
pub execute_next-IsWellFormed :
    (env : Env) (id : String) (actor : Actor) (w : World)
    → AllRuns IsWellFormed w.runs
    → AllRuns IsWellFormed (execute_next env id actor w).1.runs
execute_next-IsWellFormed env id actor w all =
    kept (execute_next env id actor w) (execute_next-Done env id actor w all)
  where
    kept :
        (r : Outcome Fault Run × World)
        → Post IsWellFormed (Advances w.runs id) r
        → AllRuns IsWellFormed r.1.runs
    kept (ok a, w') h = h.0
    kept (err e, w') h = h

-- A run that `ExecuteNext` returns is the one that is now stored. Its identity, task, limits and
-- time of creation are those of the run that was stored before, its state was reached along the
-- diagram of states, and its steps and tokens have not become fewer.
pub execute_next-Moves :
    (env : Env) (id : String) (actor : Actor) (w : World) {r : Run}
    → AllRuns IsWellFormed w.runs
    → (execute_next env id actor w).0 ≡ ok r
    → (run : Run) × (get w.runs id ≡ some run)
      × (r.id ≡ id)
      × (get (execute_next env id actor w).1.runs id ≡ some r)
      × Moves run r
execute_next-Moves env id actor w {r} all h =
    let done =
      Post-ok (Advances w.runs id) (execute_next env id actor w)
        (execute_next-Done env id actor w all) h in
    (done.0, done.1, done.2, done.3, done.4)

-- With fuel for two calls for each step that the run may take, and two more, `RunToCompletion`
-- ends: with an error, or with a run that is terminal or waits for approval. No assumption is made
-- of the planner, the tools, the authorizer or the clock.
pub run_to_completion_terminates :
    (env : Env) (id : String) (actor : Actor) (fuel : ℕ) (w : World) (run : Run)
    → AllRuns IsWellFormed w.runs
    → get w.runs id ≡ some run
    → 2 * run.max_steps + 2 ≤ fuel
    → (out : Outcome Fault Run × World) × (run_to_completion env id actor fuel w ≡ some out)
      × IsSettled out.0
run_to_completion_terminates env id actor fuel w run all there enough =
    ends env id actor fuel w run all there (measure_bound)
  where
    measure_bound : measure run < fuel
    measure_bound = ground arith
