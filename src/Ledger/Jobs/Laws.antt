-- ===== src/Ledger/Jobs/Laws.antt =====
-- What the statements over the `jobs` table keep and count.
use qwen_autonomous_supervis.Prelude.{
  ℕ, ◌+◌, ◌≤◌, String, str_eq, eq_iff, str_eq_refl, ◌≡◌, ◌≢◌, refl, Bool, true, false, Option, none,
  some, List, [], ◌∷◌, arith, ◌&&◌, if◌then◌else◌, exists, update, select, count, find, latest,
}
use qwen_autonomous_supervis.Prelude.Int.{ℤ}
use qwen_autonomous_supervis.Errors.{ok}
use qwen_autonomous_supervis.Ledger.Jobs.{
  Job, JobStatus, running, is_job, is_named, is_running, is_running_job, end_job, start_job,
  get_job, get_running_job_by_name, count_running_jobs, finish_job,
}

-- `name=? AND status='running'`
abbrev pub is_running_named : String → Job → Bool
is_running_named name j = is_named name j && is_running j

count-eq-zero_of_latest :
    (p : Job → Bool) (jobs : List Job)
    → latest (λ (j : Job). j.started_at) (select p jobs) ≡ none
    → count p jobs ≡ 0
count-eq-zero_of_latest p [] h = refl
count-eq-zero_of_latest p (j ∷ js) h = ground (arith, count-eq-zero_of_latest p js)

-- No running job of a name is found only if there is none.
pub count-get_running_job_by_name :
    (name : String) (jobs : List Job)
    → get_running_job_by_name name jobs ≡ none
    → count (is_running_named name) jobs ≡ 0
unfolding get_running_job_by_name
count-get_running_job_by_name name jobs h = count-eq-zero_of_latest (is_running_named name) jobs h

-- A finish takes running jobs away and adds none.
pub count-finish_job :
    (at : ℕ) (id name : String) (s : JobStatus) (code : Option ℤ) (jobs jobs' : List Job)
    → finish_job at id s code jobs ≡ ok jobs'
    → (count (is_running_named name) jobs' ≤ count (is_running_named name) jobs)
      × (count_running_jobs jobs' ≤ count_running_jobs jobs)
unfolding finish_job count_running_jobs
count-finish_job at id name s code [] jobs' h = ground arith
count-finish_job at id name running code (j ∷ js) jobs' h = cc
count-finish_job at id name s code (j ∷ js) jobs' h =
    let rest = count-finish_job at id name s code js _ refl in ground (arith, rest.0, rest.1, ended)
  where
    ended : update (is_running_job id) (end_job at s code) (j ∷ js) ≡ jobs'
    ended = ground arith

-- A job that is not running stays as it is through a finish.
pub find-finish_job :
    (at : ℕ) (id k : String) (s : JobStatus) (code : Option ℤ) (j : Job) (jobs jobs' : List Job)
    → finish_job at id s code jobs ≡ ok jobs'
    → find (is_job k) jobs ≡ some j
    → is_running j ≡ false
    → find (is_job k) jobs' ≡ some j
unfolding finish_job
find-finish_job at id k s code j [] jobs' h f n = cc
find-finish_job at id k running code j (x ∷ xs) jobs' h f n = cc
find-finish_job at id k s code j (x ∷ xs) jobs' h f n =
    ground (arith, find-finish_job at id k s code j xs _ refl, ended)
  where
    ended : update (is_running_job id) (end_job at s code) (x ∷ xs) ≡ jobs'
    ended = ground arith

exists_of_find :
    (k : String) (j : Job) (jobs : List Job)
    → find (is_job k) jobs ≡ some j
    → exists (is_job k) jobs ≡ true
exists_of_find k j [] h = cc
exists_of_find k j (x ∷ xs) h = ground (arith, exists_of_find k j xs)

-- A start changes no job that is there.
pub find-start_job :
    (k : String) (new j : Job) (jobs jobs' : List Job)
    → start_job new jobs ≡ ok jobs'
    → find (is_job k) jobs ≡ some j
    → find (is_job k) jobs' ≡ some j
unfolding start_job
find-start_job k new j jobs jobs' h f =
    ground (arith, exists_of_find k j jobs f, eq_iff new.job_id k)

-- The job that a start adds is running, and is found by its id.
pub start_job_lem :
    (new : Job) (jobs jobs' : List Job)
    → start_job new jobs ≡ ok jobs'
    → (count_running_jobs jobs' ≡ count_running_jobs jobs + 1)
      × ((name : String)
          → count (is_running_named name) jobs'
            ≡ (if str_eq new.name name then 1 else 0) + count (is_running_named name) jobs)
unfolding start_job count_running_jobs
start_job_lem new jobs jobs' h = (ground arith, λ name. ground arith)

latest-keyed :
    (k : String) (jobs : List Job)
    → exists (is_job k) jobs ≡ false
    → latest (λ (j : Job). j.started_at) (select (is_job k) jobs) ≡ none
latest-keyed k [] h = refl
latest-keyed k (j ∷ js) h = ground (arith, latest-keyed k js)

pub get_job-start_job :
    (new : Job) (jobs jobs' : List Job)
    → start_job new jobs ≡ ok jobs'
    → get_job new.job_id jobs'
      ≡ some (record new { status = running; finished_at = none; exit_code = none })
unfolding start_job get_job
get_job-start_job new jobs jobs' h =
    ground (arith, latest-keyed new.job_id jobs, str_eq_refl new.job_id)

-- No two jobs have one id.
abbrev pub IsKeyed : List Job → Type 0
IsKeyed [] = Unit
IsKeyed (j ∷ js) = (exists (is_job j.job_id) js ≡ false) × IsKeyed js

latest-find :
    (k : String) (j : Job) (jobs : List Job)
    → IsKeyed jobs
    → find (is_job k) jobs ≡ some j
    → latest (λ (x : Job). x.started_at) (select (is_job k) jobs) ≡ some j
latest-find k j [] key h = cc
latest-find k j (x ∷ xs) key h =
    ground (arith, latest-find k j xs key.1, latest-keyed k xs, eq_iff x.job_id k)

-- In a keyed table an id names its row.
pub get_job-find :
    (k : String) (j : Job) (jobs : List Job)
    → IsKeyed jobs
    → find (is_job k) jobs ≡ some j
    → get_job k jobs ≡ some j
unfolding get_job
get_job-find k j jobs key h = rw (latest-find k j jobs key h) refl

exists-update :
    (k id : String) (at : ℕ) (s : JobStatus) (code : Option ℤ) (jobs : List Job)
    → exists (is_job k) (update (is_running_job id) (end_job at s code) jobs)
      ≡ exists (is_job k) jobs
exists-update k id at s code [] = refl
exists-update k id at s code (x ∷ xs) = ground (arith, exists-update k id at s code xs)

update-IsKeyed :
    (id : String) (at : ℕ) (s : JobStatus) (code : Option ℤ) (jobs : List Job)
    → IsKeyed jobs
    → IsKeyed (update (is_running_job id) (end_job at s code) jobs)
update-IsKeyed id at s code [] h = tt
update-IsKeyed id at s code (x ∷ xs) h =
    ground (arith, update-IsKeyed id at s code xs h.1, exists-update x.job_id id at s code xs)

find-update :
    (id : String) (at : ℕ) (s : JobStatus) (code : Option ℤ) (j : Job) (jobs : List Job)
    → is_running j ≡ true
    → find (is_job id) jobs ≡ some j
    → find (is_job id) (update (is_running_job id) (end_job at s code) jobs)
      ≡ some (end_job at s code j)
find-update id at s code j [] run h = cc
find-update id at s code j (x ∷ xs) run h = ground (arith, find-update id at s code j xs run)

-- A finish of a running job by a terminal status succeeds, and the job's row then shows it.
pub finish_job_lem :
    (id : String) (at : ℕ) (s : JobStatus) (code : Option ℤ) (j : Job) (jobs : List Job)
    → IsKeyed jobs
    → s ≢ running
    → is_running j ≡ true
    → find (is_job id) jobs ≡ some j
    → (jobs' : List Job) × (finish_job at id s code jobs ≡ ok jobs')
      × (find (is_job id) jobs' ≡ some (end_job at s code j))
      × (get_job id jobs' ≡ some (end_job at s code j))
unfolding finish_job
finish_job_lem id at running code j jobs key t run h = absurd (t refl)
finish_job_lem id at s code j jobs key t run h =
    let found = find-update id at s code j jobs run h in
    (
      update (is_running_job id) (end_job at s code) jobs,
      refl,
      found,
      get_job-find id _ _ (update-IsKeyed id at s code jobs key) found,
    )
