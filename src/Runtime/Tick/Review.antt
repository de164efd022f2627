-- ===== src/Runtime/Tick/Review.antt =====
-- `_review` of src/qas/runtime.py: a fresh session that judges the tick's diff.
use qwen_autonomous_supervis.Prelude.{
  ℕ, ◌+◌, String, str_eq, Bool, true, false, Option, none, some, List, [], ◌∷◌, ◌&&◌, ◌||◌, not,
  leb, if◌then◌else◌,
}
use qwen_autonomous_supervis.Prelude.Text.{◌+s◌, last_chars}
use qwen_autonomous_supervis.Json.{
  Json, null, bool, int, real, str, arr, obj, Items, nil, cons, end, field, get, opt_str,
}
use qwen_autonomous_supervis.Errors.{
  Exception, Result, ok, err, policy_violation, runtime_error, type_error, safety_pause,
  budget_exceeded, qwen_unavailable, operation_not_confirmed, job_error, value_error, config_error,
  os_error, subprocess_error, key_error, attribute_error, sqlite_error, text,
}
use qwen_autonomous_supervis.Effects.{give, throw, answer, read, throw_if, catch, ◌>>=◌, ◌>>◌}
use qwen_autonomous_supervis.Config.{SupervisorConfig}
use qwen_autonomous_supervis.Ledger.Runs.{fail_active_run}
use qwen_autonomous_supervis.Ledger.Usage.Collect.{is_spelled}
use qwen_autonomous_supervis.Qwen.{ProcessResult, run_session}
use qwen_autonomous_supervis.Qwen.Output.{validated_output}
use qwen_autonomous_supervis.Runtime.Answers.{Answers, Tools}
use qwen_autonomous_supervis.Runtime.Tick.Steps.{
  Tick, TickState, text_of, or_text, on_ledger, log, charge_model, open_run, close_run,
}
use qwen_autonomous_supervis.Runtime.Tick.Phases.{has_failed, output_path}

-- `RuntimeError` and its subclasses.
abbrev pub is_runtime_error : Exception → Bool
is_runtime_error (safety_pause m) = true
is_runtime_error (budget_exceeded m) = true
is_runtime_error (policy_violation m) = true
is_runtime_error (qwen_unavailable m) = true
is_runtime_error (operation_not_confirmed m) = true
is_runtime_error (job_error m) = true
is_runtime_error (runtime_error m) = true
is_runtime_error (value_error m) = false
is_runtime_error (config_error m) = false
is_runtime_error (type_error m) = false
is_runtime_error (os_error m) = false
is_runtime_error (subprocess_error m) = false
is_runtime_error (key_error m) = false
is_runtime_error (attribute_error m) = false
is_runtime_error (sqlite_error m) = false

abbrev pub is_os_error : Exception → Bool
is_os_error (os_error m) = true
is_os_error (safety_pause m) = false
is_os_error (budget_exceeded m) = false
is_os_error (policy_violation m) = false
is_os_error (qwen_unavailable m) = false
is_os_error (operation_not_confirmed m) = false
is_os_error (job_error m) = false
is_os_error (runtime_error m) = false
is_os_error (value_error m) = false
is_os_error (config_error m) = false
is_os_error (type_error m) = false
is_os_error (subprocess_error m) = false
is_os_error (key_error m) = false
is_os_error (attribute_error m) = false
is_os_error (sqlite_error m) = false

-- `SafetyPause` and its subclass.
abbrev pub is_safety_pause : Exception → Bool
is_safety_pause (safety_pause m) = true
is_safety_pause (budget_exceeded m) = true
is_safety_pause (policy_violation m) = false
is_safety_pause (qwen_unavailable m) = false
is_safety_pause (operation_not_confirmed m) = false
is_safety_pause (job_error m) = false
is_safety_pause (runtime_error m) = false
is_safety_pause (value_error m) = false
is_safety_pause (config_error m) = false
is_safety_pause (type_error m) = false
is_safety_pause (os_error m) = false
is_safety_pause (subprocess_error m) = false
is_safety_pause (key_error m) = false
is_safety_pause (attribute_error m) = false
is_safety_pause (sqlite_error m) = false

-- Whether a finding is a mapping of severity "critical".
abbrev is_critical : Json → Bool
is_critical (obj fs) = is_spelled "critical" (text_of (get "severity" fs))
is_critical null = false
is_critical (bool b) = false
is_critical (int n) = false
is_critical (real n) = false
is_critical (str s) = false
is_critical (arr xs) = false

abbrev count_critical : Items → ℕ
count_critical nil = 0
count_critical (cons v vs) = (if is_critical v then 1 else 0) + count_critical vs

-- The loop over `findings`: a text and a mapping hold no mapping to count, and what cannot be iterated
-- raises.
abbrev pub critical_findings : Json → Result ℕ
critical_findings (arr vs) = ok (count_critical vs)
critical_findings (str s) = ok 0
critical_findings (obj fs) = ok 0
critical_findings null = err (type_error "'NoneType' object is not iterable")
critical_findings (bool b) = err (type_error "'bool' object is not iterable")
critical_findings (int n) = err (type_error "'int' object is not iterable")
critical_findings (real n) = err (type_error "'float' object is not iterable")

abbrev pub text_is : Json → String → Bool
text_is v k = str_eq (text_of v) k

-- `not session_id`
abbrev pub is_missing : Option String → Bool
is_missing none = true
is_missing (some s) = str_eq s ""

-- `implementation_session_id and session_id == implementation_session_id`
abbrev pub is_reused : Option String → Option String → Bool
is_reused none session = false
is_reused (some i) none = false
is_reused (some i) (some s) = not (str_eq i "") && str_eq s i

module _ (c : SupervisorConfig) (t : Tools) (a : Answers) where
  -- `ledger.fail_active_run` of the review's run, and the exception again.
  unfoldable pub fail_review : {A : Type 0} → (Exception → Bool) → ℕ → Exception → Tick A
  fail_review caught at e =
      if caught e
      then (on_ledger (λ l. record l {
        runs = fail_active_run at a.review_run_id (last_chars 4000 (text e)) l.runs;
      })
          >> throw e)
      else throw e

  unfoldable pub launch_reviewer : Tick ProcessResult
  launch_reviewer = do
    session ← answer a.reviewer
    on_ledger (run_session c.scheduler.lease_seconds a.review_run_id a.tick_id session)
    answer session.result

  -- `except (QwenUnavailable, RuntimeError, OSError)`
  abbrev pub is_launch_error : Exception → Bool
  is_launch_error e = is_runtime_error e || is_os_error e

  abbrev pub review_keys : List String
  review_keys = "verdict" ∷ "summary" ∷ "findings" ∷ []

  -- The tests of the reviewer's process before its verdict is read.
  unfoldable pub accept_reviewer : Option String → ProcessResult → Tick (Unit {0})
  accept_reviewer implementation result = do
    throw_if (has_failed result) (
        runtime_error
          (or_text result.stderr_tail (or_text result.stdout_tail "reviewer process failed")))
    throw_if result.has_api_error (runtime_error (last_chars 4000 result.stdout_tail))
    throw_if (is_missing result.session_id)
        (policy_violation "Independent reviewer did not report a session ID")
    throw_if (is_reused implementation result.session_id)
        (policy_violation "Reviewer reused the implementation session")

  unfoldable pub judge : Option String → ProcessResult → Tick Bool
  judge implementation result = do
    review ←
        answer (validated_output t.loads review_keys result.structured_output result.stdout_lines)
    critical ← answer (critical_findings (get "findings" review))
    log a.reviewed_at "independent_review" (record {
      run_id = some a.review_run_id;
      tick_id = some a.tick_id;
      state = some "verifying";
      operation_key = some ("review:" +s a.tick_id);
      payload = obj (
          field "passed"
            (bool (
              text_is (get "verdict" review) "pass"
              && leb critical c.review.maximum_critical_findings))
            (field "review" (obj review) (
              field "usage" result.usage (
                field "implementation_session_id" (opt_str implementation)
                  (field "reviewer_session_id" (opt_str result.session_id) end)))));
    })
    give (text_is (get "verdict" review) "pass" && leb critical c.review.maximum_critical_findings)

  -- Whether the review passes. `issue` is the issue number of the summary.
  unfoldable pub review : Option String → Tick Bool
  review implementation = do
    open_run a.used_at a.review_run_id a.tick_id "reviewer" (output_path c t a a.review_run_id)
    result ← catch launch_reviewer (fail_review is_launch_error a.reviewed_at)
    issue ← read (λ (s : TickState). s.issue_number)
    catch (charge_model c a.reviewed_at "reviewer" a.review_run_id a.tick_id issue result.usage)
        (fail_review is_safety_pause a.reviewed_at)
    close_run a.reviewed_at a.review_run_id result
    accept_reviewer implementation result
    judge implementation result
