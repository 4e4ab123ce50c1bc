-- ===== src/Agent/Orchestrator/Terminal.antt =====
-- A terminal run stays as it is.
use ai_etl_platform.Common.{String, ◌≡◌, refl, ap, ◌∙◌, some, true, arith, get, Outcome, ok, err}
use ai_etl_platform.Agent.Types.{Fault, Run, Actor, terminal_state}
use ai_etl_platform.Agent.Lock.{LockLease}
use ai_etl_platform.Agent.Store.{load_run}
use ai_etl_platform.Agent.World.{
  Env, World, Exec, continue, load, pure, unless, holding, with_lease, ◌>>=◌,
}
use ai_etl_platform.Agent.Orchestrator.Next.{execute_loaded, execute_next}
use ai_etl_platform.Agent.Orchestrator.Control.{
  cancel, cancel_loaded, reject_approval, reject_loaded, apply_lifecycle, lifecycle_loaded,
}

-- a body that leaves the stored runs as they are, for the one that is loaded
still :
    (id : String) (run : Run) (body : LockLease → Run → Exec Run) (g : Outcome Fault LockLease)
    (w : World)
    → get w.runs id ≡ some run
    → ((lease : LockLease) (w' : World) → (body lease run w').1.runs ≡ w'.runs)
    → (holding (λ lease. load id >>= body lease) g w).1.runs ≡ w.runs
unfolding holding load load_run ◌>>=◌
still id run body (err e) w there h = refl
still id run body (ok lease) w there h =
    let loaded : load_run id w.runs ≡ ok run = ground (arith, there) in
    ap (λ (r : Outcome Fault Run). (continue r (body lease) w).1.runs) loaded ∙ h lease w

-- Once a run is terminal, none of `ExecuteNext`, `Cancel`, `RejectApproval` and `ApplyLifecycle`
-- changes a stored run, whoever calls and whether a lease was granted or not.
pub terminal_run_stays :
    (env : Env) (id : String) (actor : Actor) (why : String) (w : World) (run : Run)
    → get w.runs id ≡ some run
    → terminal_state run.state ≡ true
    → ((execute_next env id actor w).1.runs ≡ w.runs)
      × ((cancel env id actor why w).1.runs ≡ w.runs)
      × ((reject_approval env id actor why w).1.runs ≡ w.runs)
      × ((apply_lifecycle env id actor w).1.runs ≡ w.runs)
unfolding execute_next cancel reject_approval apply_lifecycle with_lease execute_loaded
    cancel_loaded reject_loaded lifecycle_loaded unless pure
terminal_run_stays env id actor why w run there over = (
  still id run (execute_loaded env actor) _ _ there (λ lease w'. ground (arith, over)),
  still id run (cancel_loaded env actor why) _ _ there (λ lease w'. ground (arith, over)),
  still id run (reject_loaded env actor why) _ _ there (λ lease w'. ground (arith, over)),
  still id run (lifecycle_loaded env actor) _ _ there (λ lease w'. ground (arith, over)),
)
