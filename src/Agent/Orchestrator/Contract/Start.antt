-- ===== src/Agent/Orchestrator/Contract/Start.antt =====
-- What starting or resuming a run keeps and returns.
use ai_etl_platform.Common.{
  String, ℕ, ◌≡◌, refl, sym, subst, inl, inr, some, false, not, ◌||◌, arith, get, put, get-put,
  eq_iff, str_eq, ok, Option-cases, Bool-cases, is_blank, trim_space, Dict,
}
use ai_etl_platform.Agent.Types.{binding_conflict, task_required, run_id_required, Run, Actor, Json}
use ai_etl_platform.Agent.Store.{Runs, create_run, load_run}
use ai_etl_platform.Agent.World.{Env, World, fail, pure}
use ai_etl_platform.Agent.World.Keeps.{AllRuns, Post, Post-call, Post-if, Post-unless}
use ai_etl_platform.Agent.Orchestrator.Start.{new_run, adopt, create_or_load, start_or_resume}
use ai_etl_platform.Agent.Orchestrator.Invariant.{IsWellFormed}

-- a returned run that is stored under the id, and was started by the actor for the task
abbrev pub Bound : Actor → String → String → Run → Runs → Type 0
Bound actor id task r stored =
    (get stored id ≡ some r)
    × (r.id ≡ id)
    × (r.tenant_id ≡ actor.tenant_id)
    × (r.user_id ≡ actor.user_id)
    × (r.task ≡ task)

new_run-IsWellFormed :
    (env : Env) (actor : Actor) (id task : String) (memory : Dict Json) (now : ℕ)
    → IsWellFormed (new_run env actor id task memory now)
new_run-IsWellFormed env actor id task memory now = record {
  numbered = tt;
  bounded = omega arith;
  roomy = λ _. omega arith;
  affordable = λ _. ground arith;
}

adopt-Bound :
    (actor : Actor) (id task : String) (run : Run) (w : World)
    → AllRuns IsWellFormed w.runs
    → get w.runs id ≡ some run
    → Post IsWellFormed (Bound actor id task) (adopt actor id task run w)
unfolding adopt fail pure
adopt-Bound actor id task run w all there =
    Post-if IsWellFormed (Bound actor id task)
      (not (str_eq run.tenant_id actor.tenant_id)
        || not (str_eq run.user_id actor.user_id)
        || not (str_eq run.task task))
      (fail (binding_conflict id)) (pure run) w (λ differs. all)
      (λ same. (
        all,
        (
          there,
          (all id run there).0,
          ground (arith, same, eq_iff run.tenant_id actor.tenant_id),
          ground (arith, same, eq_iff run.user_id actor.user_id),
          ground (arith, same, eq_iff run.task task),
        ),
      ))

-- a store with one more run
AllRuns-put :
    (runs : Runs) (run : Run)
    → AllRuns IsWellFormed runs
    → IsWellFormed run
    → AllRuns IsWellFormed (put runs run.id run)
AllRuns-put runs run all wf j r h = elim (Bool-cases (str_eq run.id j)) [
  | inl e ↦
      let same : r ≡ run = ground (arith, h, e, get-put runs run.id j run) in
      (ground (arith, same, (eq_iff run.id j).0 e), subst IsWellFormed (sym same) wf)
  | inr e ↦ all j r (ground (arith, h, e, get-put runs run.id j run))
]

create_or_load-Bound :
    (env : Env) (actor : Actor) (id task : String) (memory : Dict Json) (now : ℕ) (w : World)
    → AllRuns IsWellFormed w.runs
    → str_eq id "" ≡ false
    → Post IsWellFormed
        (Bound actor id task)
        (create_or_load actor (new_run env actor id task memory now) w)
unfolding create_or_load create_run load_run
create_or_load-Bound env actor id task memory now w all named =
    let run = new_run env actor id task memory now in
    elim (Option-cases (get w.runs id)) [
      | inl e ↦
          let fresh : create_or_load actor run w ≡ (ok run, record w { runs = put w.runs id run }) =
            ground (arith, named, e) in
          rw fresh (
            AllRuns-put w.runs run all (new_run-IsWellFormed env actor id task memory now),
            (ground (arith, eq_iff id id, get-put w.runs id id run), refl, refl, refl, refl),
          )
      | inr (existing, e) ↦
          let there : create_or_load actor run w ≡ adopt actor id task existing w =
            ground (arith, named, e) in
          rw there (adopt-Bound actor id task existing w all e)
    ]

-- `StartOrResume` keeps every stored run well formed, whether it succeeds or fails. A run that it
-- returns is the one stored under the trimmed id, is new or was there before, and belongs to the
-- actor and to the trimmed task.
pub start_or_resume-Bound :
    (env : Env) (actor : Actor) (id task : String) (memory : Dict Json) (w : World)
    → AllRuns IsWellFormed w.runs
    → Post IsWellFormed
        (Bound actor (trim_space id) (trim_space task))
        (start_or_resume env actor id task memory w)
unfolding start_or_resume is_blank fail
start_or_resume-Bound env actor id task memory w all =
    let Q = Bound actor (trim_space id) (trim_space task) in
    Post-if IsWellFormed Q (is_blank id) (fail run_id_required) _ w (λ blank. all)
      λ named.
        Post-if IsWellFormed Q (is_blank task) (fail task_required) _ w (λ blank. all)
          λ given. Post-unless IsWellFormed Q _ _ w all λ allowed.
            Post-call IsWellFormed env.now _ w Q λ n w' e.
              create_or_load-Bound env actor (trim_space id) (trim_space task) memory (env.now n) w'
                (subst (AllRuns IsWellFormed) (sym e) all) named
