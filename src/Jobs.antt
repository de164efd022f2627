-- ===== src/Jobs.antt =====
-- src/qas/jobs.py: durable long-running jobs. What the host answers (the clock, the new process's
-- id, the exit-code file, whether a process is alive) is an argument.
pub mod Lifecycle
pub mod Permanence
use qwen_autonomous_supervis.Prelude.{
  ℕ, zero, suc, ◌+◌, ◌-◌, ◌*◌, ◌/◌, String, str_eq, Bool, true, false, Option, none, some, List, [],
  ◌∷◌, ltb, leb, if◌then◌else◌, is_some, or_else,
}
use qwen_autonomous_supervis.Prelude.Int.{ℤ, pos, negsuc, pos_part, leb_ℤ}
use qwen_autonomous_supervis.Prelude.Text.{◌+s◌, is_blank, decimal, parse_int}
use qwen_autonomous_supervis.Errors.{Result, ok, err, job_error, ◌>>=◌}
use qwen_autonomous_supervis.Json.{str}
use qwen_autonomous_supervis.Ledger.Leases.{seconds}
use qwen_autonomous_supervis.Ledger.Jobs.{
  Job, JobStatus, running, succeeded, failed, expired, is_running, get_job, get_running_job_by_name,
  count_running_jobs, finish_job,
}
use qwen_autonomous_supervis.Ledger.Jobs as Table

-- The arguments of `start_job` but for the ledger.
pub record JobRequest : Type 0 where
  pub jobs_dir : String
  pub name : String
  pub command : String
  pub cwd : String
  pub max_duration_seconds : ℤ
  pub max_concurrent : ℕ
  pub results_path : Option String

-- What the host answers to a start: the clock for the id (microseconds), the process's id or the
-- exception of the directory, the log file or the process, and the clock for the record.
pub record Launch : Type 0 where
  pub id_epoch : ℕ
  pub pid : Result ℕ
  pub started_at : ℕ
  pub started_epoch : ℕ

-- f"{name}-{int(time.time() * 1000)}"
unfoldable pub job_id_of : JobRequest → Launch → String
job_id_of r l = r.name +s "-" +s decimal (l.id_epoch / 1000)

unfoldable pub new_job : JobRequest → Launch → ℕ → Job
new_job r l pid =
    let dir = r.jobs_dir +s "/" +s job_id_of r l in
    record {
      job_id = job_id_of r l;
      name = r.name;
      command = str r.command;
      cwd = r.cwd;
      status = running;
      pid = pid;
      started_at = l.started_at;
      started_epoch = l.started_epoch;
      finished_at = none;
      exit_code = none;
      max_duration_seconds = pos_part r.max_duration_seconds;
      log_path = dir +s "/output.log";
      exit_code_path = dir +s "/exit_code";
      results_path = r.results_path;
    }

-- The tests before anything is started. The message of a name that is taken leaves out the name and the
-- id of its job.
unfoldable pub refusal : JobRequest → List Job → Option String
refusal r jobs =
    if is_blank r.command
    then some "job command must not be empty"
    else if leb_ℤ r.max_duration_seconds (pos 0)
    then some "max_duration_seconds must be positive"
    else if is_some (get_running_job_by_name r.name jobs)
    then some "a job of this name is already running"
    else if leb r.max_concurrent (count_running_jobs jobs)
    then some (
        "max concurrent jobs reached ("
        +s decimal (count_running_jobs jobs)
        +s "/"
        +s decimal r.max_concurrent
        +s ")")
    else none

unfoldable pub launch : JobRequest → Launch → List Job → Result (String × List Job)
launch r l jobs = do
  pid ← l.pid
  jobs' ← Table.start_job (new_job r l pid) jobs
  ok (job_id_of r l, jobs')

-- The new job's id, and the table with it.
unfoldable pub start_job : JobRequest → Launch → List Job → Result (String × List Job)
unfolding launch
start_job r l jobs = elim (refusal r jobs) [ none ↦ launch r l jobs | some m ↦ err (job_error m) ]

-- What the host answers to a poll: the exit-code file without the space round its text, None if it
-- is not there; the clock; whether the process is alive; the clock for the record.
pub record Look : Type 0 where
  pub exit_file : Option String
  pub now_epoch : ℕ
  pub alive : Bool
  pub finished_at : ℕ

-- What a poll finds of a running job.
pub data Verdict : Type 0 where
  exited : Option ℤ → Verdict
  overdue : Verdict
  gone : Verdict
  still_running : Verdict

-- `elapsed > max_duration_seconds`
abbrev pub is_overdue : Job → Look → Bool
is_overdue j look = ltb (seconds j.max_duration_seconds + j.started_epoch) look.now_epoch

abbrev pub judge : Job → Look → Verdict
judge j look = elim look.exit_file [
  | some raw ↦ exited (parse_int raw)
  | none ↦ if is_overdue j look then overdue else if look.alive then still_running else gone
]

abbrev is_zero : Option ℤ → Bool
is_zero none = false
is_zero (some (negsuc n)) = false
is_zero (some (pos zero)) = true
is_zero (some (pos (suc n))) = false

-- The job as it is reported, the process whose tree is terminated, and the table.
abbrev pub Polled : Type 0
Polled = Job × Option ℕ × List Job

-- `finish_job`, and then `get_job(job_id) or record`.
pub settle : Job → Look → JobStatus → Option ℤ → Option ℕ → List Job → Result Polled
settle j look status exit_code killed jobs = do
  jobs' ← finish_job look.finished_at j.job_id status exit_code jobs
  ok (elim (get_job j.job_id jobs') [ none ↦ j | some j' ↦ j' ], killed, jobs')

pub act : Job → Look → Verdict → List Job → Result Polled
unfolding settle
act j look (exited code) jobs =
    settle j look (if is_zero code then succeeded else failed) code none jobs
act j look overdue jobs = settle j look expired none (if look.alive then some j.pid else none) jobs
act j look gone jobs = settle j look failed none none jobs
act j look still_running jobs = ok (j, none, jobs)

unfoldable pub poll_job : String → Look → List Job → Result Polled
unfolding act
poll_job key look jobs = elim (get_job key jobs) [
  | none ↦ err (job_error ("no such job: " +s key))
  | some j ↦ if is_running j then act j look (judge j look) jobs else ok (j, none, jobs)
]
