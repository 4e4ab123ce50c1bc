-- ===== src/Agent/Store/Versions.antt =====
-- Saves are optimistic and fenced: versions and tokens of a stored run only grow.
use ai_etl_platform.Common.{
  if◌then◌else◌, str_eq, ◌+◌, ◌≤◌, ◌<◌, ◌≡◌, String, eq_iff, some, arith, get, put, get-put, ok,
  err, inl, inr, Option-cases, ◌⊎◌,
}
use ai_etl_platform.Agent.Types.{Fault, Run, version_conflict}
use ai_etl_platform.Agent.Store.{Runs, SaveOptions, load_run, save_run}

-- What a successful save says of the run before, and leaves behind.
pub save_run_lem :
    (run : Run) (opts : SaveOptions) (runs : Runs) {saved : Run}
    → (save_run run opts runs).0 ≡ ok saved
    → (current : Run) × (get runs run.id ≡ some current)
      × (saved ≡ record run { version = current.version + 1; fencing_token = opts.fencing_token })
      × (current.fencing_token ≤ opts.fencing_token)
      × (0 < opts.fencing_token)
      × ((opts.expected_version ≡ 0) ⊎ (opts.expected_version ≡ current.version))
      × ((save_run run opts runs).1 ≡ put runs run.id saved)
unfolding save_run
save_run_lem run opts runs {saved} h = elim (Option-cases (get runs run.id)) [
  | inl e ↦ absurd (ground (arith, e))
  | inr (c, e) ↦ (
    c,
    e,
    ground (arith, e),
    ground (arith, e),
    ground (arith, e),
    ground (arith, e),
    ground (arith, e),
  )
]

-- Of two saves made from the same version of a run, the second is refused as a version conflict
-- and changes nothing, whatever either of them writes.
pub lost_update_refused :
    (first second : Run) (opts opts' : SaveOptions) (runs : Runs) {saved : Run}
    → (save_run first opts runs).0 ≡ ok saved
    → second.id ≡ first.id
    → 0 < opts.expected_version
    → opts'.expected_version ≡ opts.expected_version
    → 0 < opts'.fencing_token
    → let runs' = (save_run first opts runs).1 in
      save_run second opts' runs'
      ≡ (err (version_conflict second.id opts.expected_version saved.version), runs')
unfolding save_run
lost_update_refused first second opts opts' runs {saved} h same v w t =
    let s = save_run_lem first opts runs h in
    ground
      (arith, s, eq_iff first.id "", eq_iff first.id first.id, get-put runs first.id first.id saved)

-- A read after a successful save gives what the save returned for that run, and what it gave
-- before for any other.
load_run-save_run :
    (run : Run) (opts : SaveOptions) (runs : Runs) {saved : Run} (id : String)
    → (save_run run opts runs).0 ≡ ok saved
    → load_run id (save_run run opts runs).1
      ≡ (if str_eq run.id id then ok saved else load_run id runs)
unfolding load_run
load_run-save_run run opts runs {saved} id h =
    let s = save_run_lem run opts runs h in ground (arith, s, get-put runs run.id id saved)

-- A refused save changes nothing.
pub save_run_refused :
    (run : Run) (opts : SaveOptions) (runs : Runs) {e : Fault}
    → (save_run run opts runs).0 ≡ err e
    → (save_run run opts runs).1 ≡ runs
unfolding save_run
save_run_refused run opts runs h = ground arith
