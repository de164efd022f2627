-- ===== src/Ledger/Jobs.antt =====
-- The `jobs` table of src/qas/db.py.
pub mod Laws
use qwen_autonomous_supervis.Prelude.{
  ℕ, ◌≤◌, String, str_eq, Bool, true, false, Option, none, some, List, [], ◌∷◌, ◌&&◌, ◌≡◌, leb, min,
  max, if◌then◌else◌, exists, update, select, count, latest, descending, take, or_else,
}
use qwen_autonomous_supervis.Prelude.Int.{ℤ}
use qwen_autonomous_supervis.Json.{Json}
use qwen_autonomous_supervis.Errors.{Result, ok, err, sqlite_error, value_error}

pub data JobStatus : Type 0 where
  running succeeded failed expired : JobStatus

pub record Job : Type 0 where
  pub job_id : String
  pub name : String
  pub command : Json
  pub cwd : String
  pub status : JobStatus
  pub pid : ℕ
  pub started_at : ℕ
  pub started_epoch : ℕ
  pub finished_at : Option ℕ
  pub exit_code : Option ℤ
  pub max_duration_seconds : ℕ
  pub log_path : String
  pub exit_code_path : String
  pub results_path : Option String

abbrev pub is_job : String → Job → Bool
is_job id j = str_eq j.job_id id

abbrev pub is_named : String → Job → Bool
is_named name j = str_eq j.name name

abbrev running_status : JobStatus → Bool
running_status running = true
running_status succeeded = false
running_status failed = false
running_status expired = false

abbrev pub is_running : Job → Bool
is_running j = running_status j.status

-- A second row for the id breaks the primary key. The new row is `running`, whatever the argument's
-- status and end.
unfoldable pub start_job : Job → List Job → Result (List Job)
start_job j jobs =
    if exists (is_job j.job_id) jobs
    then err (sqlite_error "UNIQUE constraint failed: jobs.job_id")
    else ok (record j { status = running; finished_at = none; exit_code = none } ∷ jobs)

-- By id, and by name if no job has the id: the one that was started last.
unfoldable pub get_job : String → List Job → Option Job
get_job key jobs =
    or_else (latest (λ (j : Job). j.started_at) (select (is_job key) jobs))
      (latest (λ (j : Job). j.started_at) (select (is_named key) jobs))

unfoldable pub get_running_job_by_name : String → List Job → Option Job
get_running_job_by_name name jobs =
    latest (λ (j : Job). j.started_at) (select (λ (j : Job). is_named name j && is_running j) jobs)

unfoldable pub count_running_jobs : List Job → ℕ
count_running_jobs jobs = count is_running jobs

-- `job_id=? AND status='running'`
abbrev pub is_running_job : String → Job → Bool
is_running_job id j = is_job id j && is_running j

abbrev pub end_job : ℕ → JobStatus → Option ℤ → Job → Job
end_job at status exit_code j = record j {
  status = status;
  exit_code = exit_code;
  finished_at = some at;
}

-- `running` is no terminal status.
unfoldable pub finish_job : ℕ → String → JobStatus → Option ℤ → List Job → Result (List Job)
finish_job at job_id status exit_code jobs =
    if running_status status
    then err (value_error "invalid terminal job status: running")
    else ok (update (is_running_job job_id) (end_job at status exit_code) jobs)

unfoldable pub list_jobs : ℕ → List Job → List Job
list_jobs limit jobs = take (max 1 (min limit 1000)) (descending (λ (j : Job). j.started_at) jobs)

unfoldable pub running_jobs : List Job → List Job
running_jobs jobs = descending (λ (j : Job). j.started_at) (select is_running jobs)
