-- ===== src/Jobs/Lifecycle.antt =====
-- What the commands `qas job start` and `qas job status` do to the jobs, one after the other.
use qwen_autonomous_supervis.Prelude.{
  ℕ, ◌≤◌, ◌<◌, String, eq_iff, ◌≡◌, refl, false, Option, none, List, arith, count, Bool-cases,
  Option-cases, inl, inr, sym,
}
use mathlib.Core.Path.{subst}
use qwen_autonomous_supervis.Prelude.Int.{ℤ, pos, leb_ℤ}
use qwen_autonomous_supervis.Prelude.Text.{is_blank}
use qwen_autonomous_supervis.Errors.{returned_of_bind, ok}
use qwen_autonomous_supervis.Ledger.Jobs.{
  Job, JobStatus, running, is_job, is_running, get_job, get_running_job_by_name, count_running_jobs,
  finish_job,
}
use qwen_autonomous_supervis.Ledger.Jobs.Laws.{
  is_running_named, count-get_running_job_by_name, count-finish_job, start_job_lem,
}
use qwen_autonomous_supervis.Jobs.{
  JobRequest, Launch, Look, Verdict, Polled, job_id_of, new_job, refusal, start_job, poll_job,
  is_overdue, judge,
}
use qwen_autonomous_supervis.Jobs as Commands
use qwen_autonomous_supervis.Ledger.Jobs as Table

pub launch-passed :
    (r : JobRequest) (l : Launch) (jobs : List Job) (id : String) (jobs' : List Job)
    → Commands.launch r l jobs ≡ ok (id, jobs')
    → (pid : ℕ) × (l.pid ≡ ok pid)
      × (Table.start_job (new_job r l pid) jobs ≡ ok jobs')
      × (id ≡ job_id_of r l)
unfolding Commands.launch
launch-passed r l jobs id jobs' h =
    let (pid, e, rest) = returned_of_bind l.pid _ h in
    let (js, e', last) = returned_of_bind (Table.start_job (new_job r l pid) jobs) _ rest in
    (pid, e, cc, cc)

-- A start that succeeds passed every test, and launched the process.
pub start_job-passed :
    (r : JobRequest) (l : Launch) (jobs : List Job) (id : String) (jobs' : List Job)
    → start_job r l jobs ≡ ok (id, jobs')
    → (refusal r jobs ≡ none) × (Commands.launch r l jobs ≡ ok (id, jobs'))
unfolding start_job
start_job-passed r l jobs id jobs' h = ground arith

refusal-passed :
    (r : JobRequest) (jobs : List Job)
    → refusal r jobs ≡ none
    → (is_blank r.command ≡ false)
      × (leb_ℤ r.max_duration_seconds (pos 0) ≡ false)
      × (get_running_job_by_name r.name jobs ≡ none)
      × (count_running_jobs jobs < r.max_concurrent)
unfolding refusal
refusal-passed r jobs h = (ground arith, ground arith, ground arith, ground arith)

name-new_job : (r : JobRequest) (l : Launch) (pid : ℕ) → (new_job r l pid).name ≡ r.name
unfolding new_job
name-new_job r l pid = refl

id-new_job : (r : JobRequest) (l : Launch) (pid : ℕ) → (new_job r l pid).job_id ≡ job_id_of r l
unfolding new_job
id-new_job r l pid = refl

-- At most `quota` jobs run, and at most one of each name.
pub record IsWithin (quota : ℕ) (jobs : List Job) : Type 0 where
  pub total : count_running_jobs jobs ≤ quota
  pub each : (name : String) → count (is_running_named name) jobs ≤ 1

start_job-IsWithin :
    (r : JobRequest) (l : Launch) (jobs : List Job) (id : String) (jobs' : List Job)
    → IsWithin r.max_concurrent jobs
    → start_job r l jobs ≡ ok (id, jobs')
    → IsWithin r.max_concurrent jobs'
start_job-IsWithin r l jobs id jobs' w h =
    let (passed, started) = start_job-passed r l jobs id jobs' h in
    let (pid, e, added, named) = launch-passed r l jobs id jobs' started in
    let (filled, long, free, room) = refusal-passed r jobs passed in
    let (more, names) = start_job_lem (new_job r l pid) jobs jobs' added in
    record {
      total = omega (arith, more, room);
      each = λ name. ground (
        arith,
        names name,
        w.each name,
        name-new_job r l pid,
        eq_iff r.name name,
        count-get_running_job_by_name r.name jobs,
      );
    }

-- What a poll does when its job has ended.
pub settle-passed :
    (j : Job) (look : Look) (s : JobStatus) (code : Option ℤ) (killed : Option ℕ) (jobs : List Job)
    (p : Polled)
    → Commands.settle j look s code killed jobs ≡ ok p
    → (finish_job look.finished_at j.job_id s code jobs ≡ ok p.2) × (p.1 ≡ killed)
unfolding Commands.settle
settle-passed j look s code killed jobs p h =
    let (js, e, last) = returned_of_bind (finish_job look.finished_at j.job_id s code jobs) _ h in
    (cc, cc)

-- Either a poll leaves the table alone, or it finishes one job.
pub data Effect (jobs jobs' : List Job) : Type 0 where
  unchanged : jobs' ≡ jobs → Effect jobs jobs'
  finished :
      (at : ℕ) (id : String) (s : JobStatus) (code : Option ℤ)
      → finish_job at id s code jobs ≡ ok jobs'
      → Effect jobs jobs'

act-Effect :
    (j : Job) (look : Look) (v : Verdict) (jobs : List Job) (p : Polled)
    → Commands.act j look v jobs ≡ ok p
    → Effect jobs p.2
unfolding Commands.act
act-Effect j look (Verdict.exited code) jobs p h =
    finished look.finished_at j.job_id _ code (settle-passed j look _ code none jobs p h).0
act-Effect j look Verdict.overdue jobs p h =
    finished look.finished_at j.job_id _ none (settle-passed j look _ none _ jobs p h).0
act-Effect j look Verdict.gone jobs p h =
    finished look.finished_at j.job_id _ none (settle-passed j look _ none none jobs p h).0
act-Effect j look Verdict.still_running jobs p h = unchanged cc

pub poll_job-Effect :
    (key : String) (look : Look) (jobs : List Job) (p : Polled)
    → poll_job key look jobs ≡ ok p
    → Effect jobs p.2
unfolding poll_job
poll_job-Effect key look jobs p h = elim (Option-cases (get_job key jobs)) [
  | inl e ↦ absurd (ground arith)
  | inr (j, e) ↦ elim (Bool-cases (is_running j)) [
    | inl run ↦ act-Effect j look (judge j look) jobs p (ground arith)
    | inr over ↦ unchanged (ground arith)
  ]
]

-- A command that changes the jobs: a start or a poll that raises nothing.
pub data Step (quota : ℕ) (jobs jobs' : List Job) : Type 0 where
  start :
      (r : JobRequest) (l : Launch) (id : String)
      → r.max_concurrent ≡ quota
      → start_job r l jobs ≡ ok (id, jobs')
      → Step quota jobs jobs'
  poll :
      (key : String) (look : Look) (p : Polled)
      → poll_job key look jobs ≡ ok p
      → p.2 ≡ jobs'
      → Step quota jobs jobs'

-- Commands one after the other.
pub data Steps (quota : ℕ) (jobs : List Job) : List Job → Type 0 where
  here : Steps quota jobs jobs
  next : {js js' : List Job} → Steps quota jobs js → Step quota js js' → Steps quota jobs js'

Effect-IsWithin :
    {jobs jobs' : List Job} (quota : ℕ)
    → Effect jobs jobs'
    → IsWithin quota jobs
    → IsWithin quota jobs'
Effect-IsWithin quota (unchanged e) w = rw e w
Effect-IsWithin {jobs} {jobs'} quota (finished at id s code e) w = record {
  total = omega (arith, w.total, (count-finish_job at id "" s code jobs jobs' e).1);
  each = λ name. omega (arith, w.each name, (count-finish_job at id name s code jobs jobs' e).0);
}

Step-IsWithin :
    {jobs jobs' : List Job} (quota : ℕ)
    → Step quota jobs jobs'
    → IsWithin quota jobs
    → IsWithin quota jobs'
Step-IsWithin {jobs} {jobs'} quota (start r l id q e) w =
    subst (λ n. IsWithin n jobs') q
      (start_job-IsWithin r l jobs id jobs' (subst (λ n. IsWithin n jobs) (sym q) w) e)
Step-IsWithin {jobs} {jobs'} quota (poll key look p e q) w =
    subst (IsWithin quota) q (Effect-IsWithin quota (poll_job-Effect key look jobs p e) w)

-- Let at most `quota` jobs run, and at most one of each name. However starts with that
-- `max_concurrent` and polls then follow one another, each finished before the next begins, this stays
-- so.
pub Steps-IsWithin :
    (quota : ℕ) {jobs jobs' : List Job}
    → IsWithin quota jobs
    → Steps quota jobs jobs'
    → IsWithin quota jobs'
Steps-IsWithin quota w here = w
Steps-IsWithin quota w (next ss s) = Step-IsWithin quota s (Steps-IsWithin quota w ss)
