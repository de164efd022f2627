-- ===== src/Examples/Commands.antt =====
-- Jobs (src/qas/jobs.py), external operations (src/qas/operations.py), budgets (src/qas/runtime.py) and
-- the model's output (src/qas/qwen.py) on concrete inputs.
use qwen_autonomous_supervis.Prelude.{
  ℕ, ◌+◌, String, ◌≡◌, ◌↔◌, refl, Bool, true, false, Option, none, some, List, [], ◌∷◌, ◌++◌, arith,
  find, ltb, str_eq, exists,
}
use qwen_autonomous_supervis.Prelude.Int.{pos}
use qwen_autonomous_supervis.Prelude.Text.{is_blank, decimal}
use qwen_autonomous_supervis.Json.{Json, null, str, arr, obj, end, field, nil, Fields, has_keys}
use qwen_autonomous_supervis.Errors.{ok, err, type_error, runtime_error}
use qwen_autonomous_supervis.Effects.Rules.{Triple}
use qwen_autonomous_supervis.Ledger.{empty}
use qwen_autonomous_supervis.Ledger.Jobs.{
  Job, running, succeeded, is_job, is_running, count_running_jobs, get_job, get_running_job_by_name,
}
use qwen_autonomous_supervis.Ledger.Jobs as Table
use qwen_autonomous_supervis.Jobs.{
  JobRequest, Launch, Look, Polled, start_job, poll_job, new_job, refusal, job_id_of,
}
use qwen_autonomous_supervis.Jobs as Commands
use qwen_autonomous_supervis.Jobs.Lifecycle.{
  IsWithin, Steps, here, next, start, poll, Steps-IsWithin,
}
use qwen_autonomous_supervis.Jobs.Permanence.{Steps-find, poll_job_lem, IsJudged}
use qwen_autonomous_supervis.Operations.{Callbacks, ensure}
use qwen_autonomous_supervis.Operations.Idempotence.{
  IsFaithful, IsSafe, Try, retries, retries-IsSafe, ensure-Triple, IsComplete, Raised,
}
use qwen_autonomous_supervis.Policy.{assert_governance}
use qwen_autonomous_supervis.Policy.Governance.{assert_governance_iff}
use qwen_autonomous_supervis.Qwen.Output.{
  validated_output, has_keys-validated_output, validated_output-raises,
}

abbrev request : JobRequest
request = record {
  jobs_dir = "jobs";
  name = "train";
  command = "make";
  cwd = "/";
  max_duration_seconds = pos 60;
  max_concurrent = 2;
  results_path = none;
}

abbrev launched : Launch
launched = record { id_epoch = 5000000; pid = ok 77; started_at = 5; started_epoch = 5000000 }

-- The job that the request starts.
abbrev job : Job
job = record {
  job_id = "train-5000";
  name = "train";
  command = str "make";
  cwd = "/";
  status = running;
  pid = 77;
  started_at = 5;
  started_epoch = 5000000;
  finished_at = none;
  exit_code = none;
  max_duration_seconds = 60;
  log_path = "jobs/train-5000/output.log";
  exit_code_path = "jobs/train-5000/exit_code";
  results_path = none;
}

starts : start_job request launched [] ≡ ok ("train-5000", job ∷ [])
unfolding start_job refusal Commands.launch Table.start_job new_job job_id_of count_running_jobs
    get_running_job_by_name is_blank decimal
starts = refl

begins : Steps 2 [] (job ∷ [])
begins = next here (start request launched "train-5000" refl starts)

none_run : IsWithin 2 []
unfolding count_running_jobs
none_run = record { total = omega arith; each = λ name. omega arith }

Steps-IsWithin_example : IsWithin 2 (job ∷ [])
Steps-IsWithin_example = Steps-IsWithin 2 {jobs = []} {jobs' = job ∷ []} none_run begins

-- The same job after its process wrote the exit code 0.
abbrev done : Job
done = record job { status = succeeded; exit_code = some (pos 0); finished_at = some 9 }

abbrev look : Look
look = record { exit_file = some "0"; now_epoch = 6000000; alive = false; finished_at = 9 }

polls : poll_job "train-5000" look (done ∷ []) ≡ ok (done, none, done ∷ [])
unfolding poll_job get_job
polls = refl

Steps-find_example : find (is_job "train-5000") (done ∷ []) ≡ some done
Steps-find_example =
    Steps-find 2 "train-5000" done {jobs = done ∷ []} {jobs' = done ∷ []} refl refl
      (next here (poll "train-5000" look (done, none, done ∷ []) polls refl))

poll_job_lem_example :
    (p : Polled) × (poll_job "train-5000" look (job ∷ []) ≡ ok p) × IsJudged job look p
poll_job_lem_example = poll_job_lem job look (job ∷ []) (refl, tt) refl refl

-- A remote side that counts the effects, and a wait after each effect that always fails.
abbrev effects : ℕ → ℕ
effects n = n

abbrev callbacks : Callbacks ℕ
callbacks = record {
  reconcile = λ n. (ok (record { exists = ltb 0 n; external_id = none; evidence = none }), n);
  mutate = λ _ n. (ok (some "id"), n + 1);
  after_remote_effect = λ n. (err (runtime_error "connection lost"), n);
}

faithful : IsFaithful effects "k" callbacks
faithful = record {
  sees = λ n e h. cc h;
  looks = λ n. refl;
  grows = λ n. omega arith;
  once = λ n. omega arith;
  waits = λ n. refl;
}

fresh : IsSafe effects "k" (empty, 0)
fresh = record { at_most_once = omega arith; recorded = λ h. cc }

abbrev tries : List Try
tries =
    record { at = 1; kind = "issue"; request = null }
    ∷ record { at = 2; kind = "issue"; request = null }
    ∷ []

retries-IsSafe_example :
    IsSafe effects "k" (retries effects callbacks "k" faithful tries (empty, 0))
retries-IsSafe_example = retries-IsSafe effects callbacks "k" faithful tries (empty, 0) fresh

ensure-Triple_example :
    Triple
      (IsSafe effects "k")
      (ensure callbacks 1 "k" "issue" null)
      (IsComplete effects callbacks 1 "k" "issue" null faithful)
      (Raised effects callbacks 1 "k" "issue" null faithful)
ensure-Triple_example = ensure-Triple effects callbacks 1 "k" "issue" null faithful

abbrev verdict : Fields
verdict = field "verdict" (str "pass") end

abbrev no_json : String → Option Json
no_json s = none

has_keys-validated_output_example : has_keys ("verdict" ∷ []) verdict ≡ true
unfolding validated_output
has_keys-validated_output_example =
    has_keys-validated_output no_json ("verdict" ∷ []) (obj verdict) [] verdict refl

-- Every line reads as a mapping whose `type` is a list.
abbrev typed : Fields
typed = field "type" (arr nil) end

abbrev a_list_type : String → Option Json
a_list_type s = some (obj typed)

validated_output-raises_example :
    validated_output a_list_type ("verdict" ∷ []) null ([] ++ "line" ∷ [])
    ≡ err (type_error "unhashable type: 'list'")
validated_output-raises_example =
    validated_output-raises a_list_type ("verdict" ∷ []) null "line" [] typed nil refl refl refl

-- A matcher that knows one path.
abbrev same : String → String → Bool
same path pattern = str_eq path pattern

assert_governance_iff_example :
    (assert_governance same ("AGENTS.md" ∷ []) ("a" ∷ "AGENTS.md" ∷ []) ≡ ok tt) ↔ (
      exists (λ path. exists (λ p. same path p) ("AGENTS.md" ∷ [])) ("a" ∷ "AGENTS.md" ∷ [])
      ≡ false)
assert_governance_iff_example =
    assert_governance_iff same ("AGENTS.md" ∷ []) ("a" ∷ "AGENTS.md" ∷ [])
