-- ===== src/Agent/Store.antt =====
-- internal/agent/store.go: `MemoryStore`. Values are not shared in the model, so `cloneRun` is the
-- identity.
pub mod Versions
use ai_etl_platform.Common.{
  ℕ, ◌+◌, ◌==◌, ltb, ◌&&◌, not, if◌then◌else◌, String, str_eq, Option, none, some, Dict, get, put,
  Outcome, ok, err,
}
use ai_etl_platform.Agent.Types.{
  Fault, Run, run_id_required, token_required, run_exists, run_not_found, version_conflict,
  stale_token,
}

abbrev pub Runs : Type 0
Runs = Dict Run

pub record SaveOptions : Type 0 where
  pub expected_version : ℕ
  pub fencing_token : ℕ

unfoldable pub create_run : Run → Runs → Option Fault × Runs
create_run run runs =
    if str_eq run.id "" then (some run_id_required, runs) else elim (get runs run.id) [
      | some _ ↦ (some (run_exists run.id), runs)
      | none ↦
          let version = if run.version == 0 then 1 else run.version in
          (none, put runs run.id (record run { version = version }))
    ]

unfoldable pub load_run : String → Runs → Outcome Fault Run
load_run id runs = elim (get runs id) [ none ↦ err (run_not_found id) | some run ↦ ok run ]

abbrev replace : Run → SaveOptions → Run → Runs → Outcome Fault Run × Runs
replace run opts current runs =
    if ltb 0 opts.expected_version && not (current.version == opts.expected_version)
    then (err (version_conflict run.id opts.expected_version current.version), runs)
    else if ltb opts.fencing_token current.fencing_token
    then (err (stale_token run.id current.fencing_token opts.fencing_token), runs)
    else let saved : Run = record run {
      version = current.version + 1;
      fencing_token = opts.fencing_token;
    } in
      (ok saved, put runs run.id saved)

unfoldable pub save_run : Run → SaveOptions → Runs → Outcome Fault Run × Runs
save_run run opts runs =
    if str_eq run.id ""
    then (err run_id_required, runs)
    else if opts.fencing_token == 0
    then (err token_required, runs)
    else elim (get runs run.id) [
      | none ↦ (err (run_not_found run.id), runs)
      | some current ↦ replace run opts current runs
    ]
