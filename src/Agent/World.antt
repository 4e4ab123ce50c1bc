-- ===== src/Agent/World.antt =====
-- What an orchestrator's calls read and change, and how its calls are put together.
pub mod Keeps
use ai_etl_platform.Common.{ℕ, suc, String, Option, none, some, Outcome, ok, err}
use ai_etl_platform.Agent.Types.{Fault, Run, PlanDecision}
use ai_etl_platform.Agent.Tools.{Registry, Authorizer}
use ai_etl_platform.Agent.Lock.{Locks, LockLease, acquire, release}
use ai_etl_platform.Agent.Store.{Runs, load_run, save_run, create_run}

-- The orchestrator's fields beside the store and the locks. The clock and the planner are code
-- that it does not know: functions of the number of the call. A budget of 0 is no budget.
pub record Env : Type 0 where
  pub now : ℕ → ℕ
  pub plan : ℕ → Run → PlanDecision × Option Fault
  pub tools : Registry
  pub authorizer : Authorizer
  pub node_id : String
  pub max_steps : ℕ
  pub lock_ttl : ℕ
  pub run_timeout : ℕ
  pub approval_timeout : ℕ
  pub max_token_budget : ℕ

-- The store, the locks, and how many calls of the clock, the planner and tools there were.
pub record World : Type 0 where
  pub runs : Runs
  pub locks : Locks
  pub calls : ℕ

abbrev pub Exec : Type 0 → Type 0
Exec A = World → Outcome Fault A × World

module _ {A : Type 0} where
  unfoldable pub pure : A → Exec A
  pure a w = (ok a, w)

  unfoldable pub fail : Fault → Exec A
  fail e w = (err e, w)

  -- a call of code outside the orchestrator
  unfoldable pub call : (ℕ → A) → Exec A
  call f w = (ok (f w.calls), record w { calls = suc w.calls })

  -- several such calls; the argument says what they answer and how many calls there are then
  unfoldable pub calls_of : (ℕ → A × ℕ) → Exec A
  calls_of f w = let (a, n) = f w.calls in (ok a, record w { calls = n })

  -- `if err := e; err != nil { return err }`
  unfoldable pub unless : Option Fault → Exec A → Exec A
  unless o m w = elim o [ some e ↦ (err e, w) | none ↦ m w ]

module _ {A B : Type 0} where
  abbrev pub continue : Outcome Fault A → (A → Exec B) → Exec B
  continue (ok a) f w = f a w
  continue (err e) f w = (err e, w)

  infixl 5 ◌>>=◌
  unfoldable pub ◌>>=◌ : Exec A → (A → Exec B) → Exec B
  ◌>>=◌ m f w = let (r, w') = m w in continue r f w'

unfoldable pub load : String → Exec Run
load id w = (load_run id w.runs, w)

-- `saveRun`
unfoldable pub save : Run → LockLease → Exec Run
save run lease w =
    let (r, runs) =
      save_run run (record { expected_version = run.version; fencing_token = lease.fencing_token })
        w.runs in
    (r, record w { runs = runs })

-- the body under a lease, and the deferred `locks.Release`, whose error is dropped
unfoldable pub holding : {A : Type 0} → (LockLease → Exec A) → Outcome Fault LockLease → Exec A
holding body (err e) w = (err e, w)
holding body (ok lease) w =
    let (r, w') = body lease w in (r, record w' { locks = (release lease w'.locks).1 })

-- `locks.Acquire` before the body
unfoldable pub with_lease : {A : Type 0} → Env → String → (LockLease → Exec A) → Exec A
unfolding holding
with_lease env run_id body w =
    let (granted, locks) = acquire (env.now w.calls) run_id env.node_id env.lock_ttl w.locks in
    holding body granted (record w { locks = locks; calls = suc w.calls })
