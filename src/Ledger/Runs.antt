-- ===== src/Ledger/Runs.antt =====
-- The `runs` table of src/qas/db.py.
pub mod Laws
use qwen_autonomous_supervis.Prelude.{
  ℕ, String, str_eq, Bool, true, false, Option, none, some, List, [], ◌∷◌, ◌&&◌, if◌then◌else◌,
  exists, update, find, latest, select, or_else,
}
use qwen_autonomous_supervis.Prelude.Int.{ℤ, negsuc}
use qwen_autonomous_supervis.Errors.{Result, ok, err, sqlite_error}

-- The statuses that the program writes.
pub data RunStatus : Type 0 where
  starting running succeeded failed abandoned : RunStatus

pub record Run : Type 0 where
  pub run_id : String
  pub tick_id : String
  pub kind : String
  pub status : RunStatus
  pub pid : Option ℕ
  pub session_id : Option String
  pub started_at : ℕ
  pub heartbeat_at : ℕ
  pub finished_at : Option ℕ
  pub exit_code : Option ℤ
  pub reason : Option String
  pub output_path : String

abbrev pub is_run : String → Run → Bool
is_run id r = str_eq r.run_id id

abbrev active_status : RunStatus → Bool
active_status starting = true
active_status running = true
active_status succeeded = false
active_status failed = false
active_status abandoned = false

-- `status IN ('starting','running')`
abbrev pub is_active : Run → Bool
is_active r = active_status r.status

abbrev starting_status : RunStatus → Bool
starting_status starting = true
starting_status running = false
starting_status succeeded = false
starting_status failed = false
starting_status abandoned = false

-- A second row for the run breaks the primary key.
unfoldable pub start_run : ℕ → String → String → String → String → List Run → Result (List Run)
start_run at run_id tick_id kind output_path runs =
    if exists (is_run run_id) runs
    then err (sqlite_error "UNIQUE constraint failed: runs.run_id")
    else ok (
        (record {
          run_id = run_id;
          tick_id = tick_id;
          kind = kind;
          status = starting;
          pid = none;
          session_id = none;
          started_at = at;
          heartbeat_at = at;
          finished_at = none;
          exit_code = none;
          reason = none;
          output_path = output_path;
        })
        ∷ runs)

unfoldable pub set_run_running : ℕ → String → ℕ → List Run → List Run
set_run_running at run_id pid runs =
    update (λ (r : Run). is_run run_id r && starting_status r.status)
      (λ r. record r { status = running; pid = some pid; heartbeat_at = at }) runs

unfoldable pub heartbeat_run : ℕ → String → Option String → List Run → List Run
heartbeat_run at run_id session runs =
    update (λ (r : Run). is_run run_id r && is_active r)
      (λ r. record r { heartbeat_at = at; session_id = or_else session r.session_id }) runs

abbrev pub finish : ℕ → RunStatus → ℤ → String → Run → Run
finish at status exit_code reason r = record r {
  status = status;
  exit_code = some exit_code;
  reason = some reason;
  finished_at = some at;
  heartbeat_at = at;
}

unfoldable pub finish_run : ℕ → String → RunStatus → ℤ → String → List Run → List Run
finish_run at run_id status exit_code reason runs =
    update (is_run run_id) (finish at status exit_code reason) runs

unfoldable pub fail_active_run : ℕ → String → String → List Run → List Run
fail_active_run at run_id reason runs =
    update (λ (r : Run). is_run run_id r && is_active r) (finish at failed (negsuc 0) reason) runs

-- `active_run` of `Ledger.status`.
unfoldable pub active_run : List Run → Option Run
active_run runs = latest (λ (r : Run). r.started_at) (select is_active runs)
