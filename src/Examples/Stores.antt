-- ===== src/Examples/Stores.antt =====
-- Two writers of one stored run.
use ai_etl_platform.Common.{ℕ, ◌≡◌, refl, [], ◌∷◌, none, err, arith, get}
use ai_etl_platform.Agent.Types.{Run, running, version_conflict}
use ai_etl_platform.Agent.Store.{Runs, SaveOptions, save_run}
use ai_etl_platform.Agent.Store.Versions.{lost_update_refused}

abbrev pub stored_run : Run
stored_run = record {
  id = "r1";
  tenant_id = "t";
  user_id = "alice";
  version = 3;
  fencing_token = 1;
  task = "task";
  state = running;
  max_steps = 4;
  max_token_budget = 100;
  tokens_used = 10;
  steps = [];
  memory = [];
  final = "";
  fault = none;
  cancelled_by = "";
  cancel_reason = "";
  cancelled_at = 0;
  created_at = 90;
  updated_at = 90;
}

abbrev pub one_run : Runs
one_run = ("r1", stored_run) ∷ []

-- what node a and node b make of it
abbrev by_a : Run
by_a = record stored_run { tokens_used = 20 }

abbrev by_b : Run
by_b = record stored_run { tokens_used = 30 }

abbrev under : ℕ → SaveOptions
under token = record { expected_version = 3; fencing_token = token }

abbrev saved_by_a : Run
saved_by_a = record by_a { version = 4; fencing_token = 2 }

lost_update_refused_example :
    save_run by_b (under 3) (save_run by_a (under 2) one_run).1
    ≡ (err (version_conflict "r1" 3 4), (save_run by_a (under 2) one_run).1)
unfolding save_run get
lost_update_refused_example =
    lost_update_refused by_a by_b (under 2) (under 3) one_run {saved = saved_by_a} refl refl
      (omega arith) refl (omega arith)
