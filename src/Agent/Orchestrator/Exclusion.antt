-- ===== src/Agent/Orchestrator/Exclusion.antt =====
-- No operation runs while another lease does.
use ai_etl_platform.Common.{
  ℕ, ap, sym, ◌∙◌, List, All, ok, String, suc, ◌<◌, ◌≡◌, ◌≢◌, some, arith, get, eq_iff, Outcome,
  err,
}
use ai_etl_platform.Agent.Types.{Fault, Run, Actor, lock_held}
use ai_etl_platform.Agent.Lock.{LockLease, LockRecord, Locks, acquire}
use ai_etl_platform.Agent.Lock.Fencing.{LockCall, after_all, acquire_granted, granted_run}
use ai_etl_platform.Agent.Lock.Holding.{Spares, granted-IsHolding}
use ai_etl_platform.Agent.World.{Env, World, Exec, holding, with_lease}
use ai_etl_platform.Agent.Orchestrator.Next.{execute_next}
use ai_etl_platform.Agent.Orchestrator.Control.{cancel, reject_approval, apply_lifecycle}

-- the answer to a call that gets no lease
abbrev pub locked_out : String → String → World → Outcome Fault Run × World
locked_out id owner w = (err (lock_held id owner), record w { calls = suc w.calls })

with_lease_refused :
    (env : Env) (id : String) (body : LockLease → Exec Run) (w : World) (r : LockRecord)
    → get w.locks id ≡ some r
    → env.now w.calls < r.expires_at
    → id ≢ ""
    → env.node_id ≢ ""
    → 0 < env.lock_ttl
    → with_lease env id body w ≡ locked_out id r.owner w
unfolding with_lease holding
with_lease_refused env id body w r there early named node pos =
    let refused : acquire (env.now w.calls) id env.node_id env.lock_ttl w.locks
        ≡ (err (lock_held id r.owner), w.locks) =
      unfold acquire in ground (arith, there, early, eq_iff id "", eq_iff env.node_id "") in
    ground (arith, refused)

-- Once a lease on a run was granted and as long as it lasts, whatever calls of the lock manager
-- that do not end it came since, the four operations that take the run's lock, `ExecuteNext`,
-- `Cancel`, `RejectApproval` and `ApplyLifecycle`, fail with the holder's name and change neither
-- runs nor locks: only the clock was asked. The node and the time to live are not empty.
-- (`StartOrResume` takes no lock.)
pub locked_run_untouched :
    (env : Env) (actor : Actor) (why : String) (w : World) (now ttl : ℕ) (id owner : String)
    (locks : Locks) (cs : List LockCall) {lease : LockLease}
    → (acquire now id owner ttl locks).0 ≡ ok lease
    → All (Spares lease) cs
    → w.locks ≡ after_all cs (acquire now id owner ttl locks).1
    → env.now w.calls < lease.expires_at
    → env.node_id ≢ ""
    → 0 < env.lock_ttl
    → (execute_next env id actor w ≡ locked_out id owner w)
      × (cancel env id actor why w ≡ locked_out id owner w)
      × (reject_approval env id actor why w ≡ locked_out id owner w)
      × (apply_lifecycle env id actor w ≡ locked_out id owner w)
unfolding execute_next cancel reject_approval apply_lifecycle
locked_run_untouched env actor why w now ttl id owner locks cs {lease} h spared reached early node
      pos =
    let g = acquire_granted now ttl id owner locks h in
    let (r, there, owned, t, u) = granted-IsHolding now ttl id owner locks cs h spared in
    let found : get w.locks id ≡ some r =
      ap (λ l. get l id) reached
      ∙ ap (get (after_all cs (acquire now id owner ttl locks).1))
          (sym (granted_run now ttl id owner locks h))
      ∙ there in
    let held_by : locked_out id r.owner w ≡ locked_out id owner w =
      ap (λ o. locked_out id o w) (owned ∙ g.2) in
    let refused : (body : LockLease → Exec Run) → with_lease env id body w ≡ locked_out id owner w =
      λ body.
        with_lease_refused env id body w r found (omega (arith, early, u)) g.4 node pos ∙ held_by in
    (refused _, refused _, refused _, refused _)
