-- ===== src/Runtime/Tick/Phases.antt =====
-- The `try` block of `tick` in src/qas/runtime.py, phase by phase.
use qwen_autonomous_supervis.Prelude.{
  ℕ, String, str_eq, Bool, true, false, Option, none, some, List, [], ◌∷◌, ◌&&◌, ◌||◌, not, ltb,
  if◌then◌else◌,
}
use qwen_autonomous_supervis.Prelude.Int.{pos, eq_ℤ}
use qwen_autonomous_supervis.Prelude.Text.{◌+s◌, last_chars, decimal}
use qwen_autonomous_supervis.Json.{
  Json, null, bool, int, real, str, arr, obj, Items, nil, cons, Fields, end, field, get, get_in,
  truthy, opt_str,
}
use qwen_autonomous_supervis.Errors.{Exception, ok, safety_pause, policy_violation, runtime_error}
use qwen_autonomous_supervis.Effects.{give, answer, read, throw_if, ◌>>=◌, ◌>>◌}
use qwen_autonomous_supervis.Config.{SupervisorConfig, GateConfig}
use qwen_autonomous_supervis.Policy.{assert_governance, GateResult, run_gate}
use qwen_autonomous_supervis.Ledger.Events.{no_details}
use qwen_autonomous_supervis.Ledger.Checkpoints.{get_checkpoint}
use qwen_autonomous_supervis.Qwen.{ProcessResult, run_session}
use qwen_autonomous_supervis.Qwen.Output.{validated_output}
use qwen_autonomous_supervis.Runtime.Answers.{Answers, Tools}
use qwen_autonomous_supervis.Runtime.Tick.Steps.{
  Tick, TickState, issue_of_branch, as_int, or_old, str_of, or_text, on_ledger, log, save,
  set_issue, check_budgets, charge_model, open_run, close_run, tick_event,
}

-- An exit code other than 0.
abbrev pub has_failed : ProcessResult → Bool
has_failed p = not (eq_ℤ p.exit_code (pos 0))

abbrev is_short : Option ℕ → ℕ → Bool
is_short none minimum = false
is_short (some free) minimum = ltb free minimum

abbrev or_zero : Option ℕ → ℕ
or_zero none = 0
or_zero (some free) = free

-- The pause of a volume that has too little free.
abbrev low_disk : String → ℕ → ℕ → Exception
low_disk label free minimum = safety_pause (
    label
    +s " disk free threshold reached: "
    +s decimal free
    +s " < "
    +s decimal minimum
    +s " bytes")

-- A value that is the text.
abbrev str_is : Json → String → Bool
str_is (str s) k = str_eq s k
str_is null k = false
str_is (bool b) k = false
str_is (int n) k = false
str_is (real n) k = false
str_is (arr xs) k = false
str_is (obj fs) k = false

-- `recovery` is the checkpoint of this very worktree.
abbrev pub is_recovery : Json → String → String → String → Bool
is_recovery recovery head status digest =
    str_is (get_in "head" recovery) head
    && str_is (get_in "status" recovery) status
    && str_is (get_in "digest" recovery) digest

module _ (c : SupervisorConfig) (t : Tools) (a : Answers) where
  -- The event of `_retain_artifacts`, which removed some files.
  unfoldable pub note_removed : ℕ → Tick (Unit {0})
  note_removed removed =
      if ltb 0 removed
      then log a.started_at "artifacts_retained"
          (record no_details { payload = obj (field "removed" (int (pos removed)) end) })
      else give tt

  -- `_maintenance`
  unfoldable pub maintenance : Tick (Unit {0})
  maintenance = do
    removed ← answer a.removed
    note_removed removed
    answer a.integrity
    free ← answer a.runtime_free
    throw_if (ltb free c.storage.minimum_free_bytes)
        (low_disk "runtime" free c.storage.minimum_free_bytes)
    project ← answer a.project_free
    throw_if (is_short project c.storage.minimum_free_bytes)
        (low_disk "project" (or_zero project) c.storage.minimum_free_bytes)

  -- Up to the first snapshot: the head that the tick begins at, and the snapshot.
  unfoldable pub prepare : Tick (String × Json)
  prepare = do
    maintenance
    throw_if (not a.root_is_dir)
        (policy_violation ("Project root does not exist: " +s c.project_root))
    baseline ← answer a.baseline
    branch ← answer a.branch
    set_issue (λ _. issue_of_branch branch)
    check_budgets c a.checked_at a.tick_id
    seen ← answer a.worktree
    recovery ← read (λ s. get_checkpoint "recovery_worktree" s.ledger.checkpoints)
    throw_if (not (str_eq seen.0 "") && not (is_recovery recovery baseline seen.0 seen.1)) (
        policy_violation
          "Target worktree is dirty and does not match an interrupted-run checkpoint")
    paths ← answer a.changed_before
    answer (assert_governance t.fnmatch c.governance.protected_paths paths)
    snapshot ← answer a.snapshot
    save a.checked_at "last_reconciliation" snapshot
    give (baseline, snapshot)

  abbrev pub output_path : String → String
  output_path run_id = c.runtime_dir +s "/runs/" +s run_id +s ".jsonl"

  -- `run_started = True`
  unfoldable pub mark_started : Tick (Unit {0})
  mark_started s = (ok tt, record s { run_started = true })

  -- The coordinator's run, from its start to its end in the ledger.
  unfoldable pub coordinate : Tick ProcessResult
  coordinate = do
    open_run a.checked_at a.run_id a.tick_id "coordinator" (output_path a.run_id)
    mark_started
    session ← answer a.coordinator
    on_ledger (run_session c.scheduler.lease_seconds a.run_id a.tick_id session)
    result ← answer session.result
    set_issue (or_old (as_int (get_in "issue_number" result.structured_output)))
    issue ← read (λ (s : TickState). s.issue_number)
    charge_model c a.used_at "coordinator" a.run_id a.tick_id issue result.usage
    close_run a.used_at a.run_id result
    throw_if (has_failed result)
        (runtime_error (or_text result.stderr_tail (or_text result.stdout_tail result.reason)))
    throw_if result.has_api_error (runtime_error (last_chars 4000 result.stdout_tail))
    give result

  abbrev pub coordinator_keys : List String
  coordinator_keys = "state" ∷ "action" ∷ "summary" ∷ "mutation" ∷ "requires_review" ∷ []

  -- Whether the repository or GitHub is not as it was.
  abbrev pub is_changed : String → Json → String → Json → Bool
  is_changed baseline snapshot head after =
      not (str_eq head baseline)
      || not (
          str_eq (t.canonical_json (get_in "github" snapshot))
            (t.canonical_json (get_in "github" after)))

  -- The coordinator's output, held against what can be observed.
  unfoldable pub inspect : String × Json → ProcessResult → Tick Fields
  inspect begun result = do
    output ←
        answer
          (validated_output t.loads coordinator_keys result.structured_output result.stdout_lines)
    set_issue (or_old (as_int (get "issue_number" output)))
    status ← answer a.final_status
    throw_if (not (str_eq status ""))
        (policy_violation "Coordinator tick ended with a dirty worktree")
    paths ← answer a.changed_after
    answer (assert_governance t.fnmatch c.governance.protected_paths paths)
    after ← answer a.after_snapshot
    save a.used_at "last_reconciliation" after
    head ← answer a.head_after
    throw_if (is_changed begun.0 begun.1 head after && not (truthy (get "mutation" output)))
        (policy_violation "Coordinator reported no mutation but durable state changed")
    log a.used_at "coordinator_completed" (
        tick_event a (some (str_of t.spelled (get "state" output))) "tick:coordinator" a.tick_id (
          obj (
            field "result" (obj output)
              (field "session_id" (opt_str result.session_id) (field "usage" result.usage end)))))
    give output

  abbrev pub gate_evidence : GateResult → Json
  gate_evidence g = obj (
      field "name" (str g.name) (
        field "passed" (bool g.passed) (
          field "exit_code" (int g.exit_code)
            (field "duration_seconds" (real (pos g.duration)) end))))

  abbrev gate_payload : GateResult → Json
  gate_payload g = obj (
      field "name" (str g.name) (
        field "passed" (bool g.passed) (
          field "exit_code" (int g.exit_code) (
            field "duration_seconds" (real (pos g.duration))
              (field "output_tail" (str g.output_tail) end)))))

  -- The quality gates in their order, up to the first that fails.
  unfoldable pub run_gates : List GateConfig → Tick Items
  run_gates [] = give nil
  run_gates (g ∷ gs) = do
    run ← answer (a.gate_runs g)
    log a.used_at "quality_gate" (
        tick_event a (some "verifying") "gate" (a.tick_id +s ":" +s g.name)
          (gate_payload (run_gate g run.0 run.1)))
    throw_if (not (run_gate g run.0 run.1).passed) (
        runtime_error
          ("quality gate failed: " +s g.name +s "\n" +s (run_gate g run.0 run.1).output_tail))
    rest ← run_gates gs
    give (cons (gate_evidence (run_gate g run.0 run.1)) rest)

  abbrev pub is_empty : List Json → Bool
  is_empty [] = true
  is_empty (v ∷ vs) = false

  abbrev items_from : List Json → Items
  items_from [] = nil
  items_from (v ∷ vs) = cons v (items_from vs)

  -- What a mutation must pass before review: the diff, and the evidence of the gates.
  unfoldable pub verify : Tick (String × Items)
  verify = do
    diff ← answer a.diff
    log a.used_at "secret_scan" (
        tick_event a (some "verifying") "secret-scan" a.tick_id (
          obj (
            field "passed" (bool (is_empty (t.scan_added_secrets diff)))
              (field "findings" (arr (items_from (t.scan_added_secrets diff))) end))))
    throw_if (not (is_empty (t.scan_added_secrets diff)))
        (policy_violation "Secret scan blocked added credential-shaped content")
    evidence ← run_gates c.quality_gates
    give (diff, evidence)
