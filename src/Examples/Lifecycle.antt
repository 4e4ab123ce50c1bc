-- ===== src/Examples/Lifecycle.antt =====
-- A run that is started, and one that has ended.
use ai_etl_platform.Examples.Locks.{held_by_a}
use ai_etl_platform.Agent.Orchestrator.Exclusion.{locked_out, locked_run_untouched}
use ai_etl_platform.Common.{arith, eq_iff, ◌≡◌, refl, [], ◌∷◌, inr, put, get, trim_space}
use ai_etl_platform.Agent.World.{World}
use ai_etl_platform.Agent.World.Keeps.{Post}
use ai_etl_platform.Agent.Orchestrator.Invariant.{IsWellFormed}
use ai_etl_platform.Agent.Orchestrator.Start.{start_or_resume}
use ai_etl_platform.Agent.Orchestrator.Next.{execute_next}
use ai_etl_platform.Agent.Orchestrator.Control.{cancel, reject_approval, apply_lifecycle}
use ai_etl_platform.Agent.Orchestrator.Contract.Start.{Bound, start_or_resume-Bound}
use ai_etl_platform.Agent.Orchestrator.Terminal.{terminal_run_stays}
use ai_etl_platform.Agent.Lock.{LockLease, acquire, extend}
use ai_etl_platform.Agent.Lock.Fencing.{extending, after_all}
use ai_etl_platform.Examples.Tooling.{alice}
use ai_etl_platform.Examples.Orchestration.{env, stored, one_run-IsWellFormed, finished_run}

-- a second run beside the first
start_or_resume_example :
    Post IsWellFormed
      (Bound alice (trim_space " r2") (trim_space "task"))
      (start_or_resume env alice " r2" "task" [] stored)
start_or_resume_example =
    start_or_resume-Bound env alice " r2" "task" [] stored one_run-IsWellFormed

abbrev ended : World
ended = record { runs = ("r1", finished_run) ∷ []; locks = []; calls = 0 }

terminal_run_stays_example :
    ((execute_next env "r1" alice ended).1.runs ≡ ended.runs)
    × ((cancel env "r1" alice "late" ended).1.runs ≡ ended.runs)
    × ((reject_approval env "r1" alice "late" ended).1.runs ≡ ended.runs)
    × ((apply_lifecycle env "r1" alice ended).1.runs ≡ ended.runs)
unfolding get
terminal_run_stays_example = terminal_run_stays env "r1" alice "late" ended finished_run refl refl

-- another node took the lock of the stored run at 40 for 80 and extended it at 60 to 150
abbrev lease_of_a : LockLease
lease_of_a = record { run_id = "r1"; owner = "a"; fencing_token = 1; expires_at = 120 }

abbrev locked : World
locked = record stored { locks = held_by_a }

locked_run_untouched_example :
    (execute_next env "r1" alice locked ≡ locked_out "r1" "a" locked)
    × (cancel env "r1" alice "stop" locked ≡ locked_out "r1" "a" locked)
    × (reject_approval env "r1" alice "stop" locked ≡ locked_out "r1" "a" locked)
    × (apply_lifecycle env "r1" alice locked ≡ locked_out "r1" "a" locked)
unfolding get put acquire extend after_all
locked_run_untouched_example =
    locked_run_untouched env alice "stop" locked 40 80 "r1" "a" [] (extending 60 lease_of_a 90 ∷ [])
      {lease = lease_of_a} refl (inr (inr (omega arith)), tt) refl (omega arith)
      (λ e. absurd (ground (arith, e, eq_iff "node" ""))) (omega arith)
