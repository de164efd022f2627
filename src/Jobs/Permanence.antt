-- ===== src/Jobs/Permanence.antt =====
-- A job that has ended, and what a poll decides of one that runs.
use mathlib.Core.Path.{subst}
use qwen_autonomous_supervis.Prelude.{
  ℕ, zero, suc, String, ◌≡◌, ◌≢◌, refl, Bool, true, false, Option, none, some, List, arith, ◌&&◌,
  leb, not, if◌then◌else◌, find, is_some,
}
use qwen_autonomous_supervis.Prelude.Int.{ℤ, pos, negsuc}
use qwen_autonomous_supervis.Prelude.Text.{parse_int}
use qwen_autonomous_supervis.Errors.{ok}
use qwen_autonomous_supervis.Ledger.Jobs.{
  Job, JobStatus, running, succeeded, failed, expired, is_job, is_running, end_job,
}
use qwen_autonomous_supervis.Ledger.Jobs.Laws.{
  IsKeyed, find-finish_job, find-start_job, finish_job_lem, get_job-find,
}
use qwen_autonomous_supervis.Jobs.{
  JobRequest, Launch, Look, Verdict, Polled, start_job, poll_job, judge, is_overdue,
}
use qwen_autonomous_supervis.Jobs.Lifecycle.{
  Effect, unchanged, finished, poll_job-Effect, Step, start, poll, Steps, here, next,
  start_job-passed, launch-passed,
}
use qwen_autonomous_supervis.Jobs as Commands

Effect-find :
    {jobs jobs' : List Job} (k : String) (j : Job)
    → Effect jobs jobs'
    → find (is_job k) jobs ≡ some j
    → is_running j ≡ false
    → find (is_job k) jobs' ≡ some j
Effect-find k j (unchanged e) f n = rw e f
Effect-find {jobs} {jobs'} k j (finished at id s code e) f n =
    find-finish_job at id k s code j jobs jobs' e f n

Step-find :
    {jobs jobs' : List Job} (quota : ℕ) (k : String) (j : Job)
    → Step quota jobs jobs'
    → find (is_job k) jobs ≡ some j
    → is_running j ≡ false
    → find (is_job k) jobs' ≡ some j
Step-find {jobs} {jobs'} quota k j (start r l id q e) f n =
    let (passed, launched) = start_job-passed r l jobs id jobs' e in
    let (pid, o, added, named) = launch-passed r l jobs id jobs' launched in
    find-start_job k (Commands.new_job r l pid) j jobs jobs' added f
Step-find {jobs} {jobs'} quota k j (poll key look p e q) f n =
    subst (λ js. find (is_job k) js ≡ some j) q
      (Effect-find k j (poll_job-Effect key look jobs p e) f n)

-- Once a job has ended, its row keeps its status, its exit code and all else, whatever starts and polls
-- follow, also under its own id or name.
pub Steps-find :
    (quota : ℕ) (k : String) (j : Job) {jobs jobs' : List Job}
    → find (is_job k) jobs ≡ some j
    → is_running j ≡ false
    → Steps quota jobs jobs'
    → find (is_job k) jobs' ≡ some j
Steps-find quota k j f n here = f
Steps-find quota k j f n (next ss s) = Step-find quota k j s (Steps-find quota k j f n ss) n

settle_lem :
    (look : Look) (s : JobStatus) (code : Option ℤ) (killed : Option ℕ) (j : Job) (jobs : List Job)
    → IsKeyed jobs
    → s ≢ running
    → is_running j ≡ true
    → find (is_job j.job_id) jobs ≡ some j
    → (p : Polled) × (Commands.settle j look s code killed jobs ≡ ok p)
      × (p.0 ≡ end_job look.finished_at s code j)
      × (p.1 ≡ killed)
      × (find (is_job j.job_id) p.2 ≡ some p.0)
unfolding Commands.settle
settle_lem look s code killed j jobs key t run h =
    let (jobs', e, found, got) =
      finish_job_lem j.job_id look.finished_at s code j jobs key t run h in
    ((end_job look.finished_at s code j, killed, jobs'), rw (e, got) refl, refl, refl, found)

-- Whether the exit-code file says 0.
abbrev reports_success : Option String → Bool
reports_success none = false
reports_success (some raw) = elim (parse_int raw) [
  | none ↦ false
  | some (pos n) ↦ leb n 0
  | some (negsuc n) ↦ false
]

abbrev is_success : JobStatus → Bool
is_success succeeded = true
is_success running = false
is_success failed = false
is_success expired = false

-- What the polled row must show of a job `j`, by what the host answered.
pub record IsJudged (j : Job) (look : Look) (p : Polled) : Type 0 where
  pub runs :
      is_running p.0 ≡ (not (is_some look.exit_file) && not (is_overdue j look) && look.alive)
  pub success : is_success p.0.status ≡ reports_success look.exit_file
  pub kill : p.1 ≡ (
      if not (is_some look.exit_file) && is_overdue j look && look.alive then some j.pid else none)
  pub row : find (is_job j.job_id) p.2 ≡ some p.0

act_lem :
    (j : Job) (look : Look) (v : Verdict) (jobs : List Job)
    → IsKeyed jobs
    → is_running j ≡ true
    → find (is_job j.job_id) jobs ≡ some j
    → judge j look ≡ v
    → (p : Polled) × (Commands.act j look v jobs ≡ ok p) × IsJudged j look p
unfolding Commands.act
act_lem j look (Verdict.exited none) jobs key run found e =
    let (p, done, p0, p1, row) = settle_lem look failed none none j jobs key (λ x. cc) run found in
    (
      p,
      done,
      record { runs = ground arith; success = ground arith; kill = ground arith; row = row },
    )
act_lem j look (Verdict.exited (some (pos zero))) jobs key run found e =
    let (p, done, p0, p1, row) =
      settle_lem look succeeded (some (pos zero)) none j jobs key (λ x. cc) run found in
    (
      p,
      done,
      record { runs = ground arith; success = ground arith; kill = ground arith; row = row },
    )
act_lem j look (Verdict.exited (some (pos (suc n)))) jobs key run found e =
    let (p, done, p0, p1, row) =
      settle_lem look failed (some (pos (suc n))) none j jobs key (λ x. cc) run found in
    (
      p,
      done,
      record { runs = ground arith; success = ground arith; kill = ground arith; row = row },
    )
act_lem j look (Verdict.exited (some (negsuc n))) jobs key run found e =
    let (p, done, p0, p1, row) =
      settle_lem look failed (some (negsuc n)) none j jobs key (λ x. cc) run found in
    (
      p,
      done,
      record { runs = ground arith; success = ground arith; kill = ground arith; row = row },
    )
act_lem j look Verdict.overdue jobs key run found e =
    let (p, done, p0, p1, row) = settle_lem look expired none _ j jobs key (λ x. cc) run found in
    (
      p,
      done,
      record { runs = ground arith; success = ground arith; kill = ground arith; row = row },
    )
act_lem j look Verdict.gone jobs key run found e =
    let (p, done, p0, p1, row) = settle_lem look failed none none j jobs key (λ x. cc) run found in
    (
      p,
      done,
      record { runs = ground arith; success = ground arith; kill = ground arith; row = row },
    )
act_lem j look Verdict.still_running jobs key run found e = (
  (j, none, jobs),
  refl,
  record { runs = ground arith; success = ground arith; kill = ground arith; row = found },
)

-- In a table with one row for each id, a poll of a running job by its id returns. Afterwards the job
-- runs exactly if it has written no exit code, is not past its deadline and its process is alive; it
-- has succeeded exactly if it wrote the exit code 0; its process is terminated exactly if it is alive
-- past the deadline without an exit code; and the row that is returned is the one in the table.
pub poll_job_lem :
    (j : Job) (look : Look) (jobs : List Job)
    → IsKeyed jobs
    → is_running j ≡ true
    → find (is_job j.job_id) jobs ≡ some j
    → (p : Polled) × (poll_job j.job_id look jobs ≡ ok p) × IsJudged j look p
unfolding poll_job
poll_job_lem j look jobs key run found =
    let (p, done, fine) = act_lem j look (judge j look) jobs key run found refl in
    (p, rw (get_job-find j.job_id j jobs key found, run, poll_job) done, fine)
