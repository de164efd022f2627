-- ===== src/Runtime/Tick/Handler.antt =====
-- The `except` clauses of `tick` in src/qas/runtime.py.
use qwen_autonomous_supervis.Prelude.{
  ℕ, ◌+◌, ◌-◌, ◌*◌, ◌/◌, ◌^◌, String, Bool, true, false, none, some, List, ◌&&◌, min, max,
  if◌then◌else◌,
}
use qwen_autonomous_supervis.Prelude.Int.{pos}
use qwen_autonomous_supervis.Prelude.Text.{last_chars}
use qwen_autonomous_supervis.Json.{Json, bool, int, real, str, obj, end, field}
use qwen_autonomous_supervis.Errors.{
  Exception, Result, ok, err, policy_violation, runtime_error, type_error, safety_pause,
  budget_exceeded, qwen_unavailable, operation_not_confirmed, job_error, value_error, config_error,
  os_error, subprocess_error, key_error, attribute_error, sqlite_error, text,
}
use qwen_autonomous_supervis.Effects.{give, throw, read, ◌>>=◌, ◌>>◌}
use qwen_autonomous_supervis.Config.{SupervisorConfig}
use qwen_autonomous_supervis.Ledger.{Ledger}
use qwen_autonomous_supervis.Ledger.Leases.{seconds}
use qwen_autonomous_supervis.Ledger.Runs.{fail_active_run}
use qwen_autonomous_supervis.Ledger.Failures.{Failure, record_failure}
use qwen_autonomous_supervis.Runtime.Answers.{Answers, Tools, TickOutcome}
use qwen_autonomous_supervis.Runtime.Budgets.{opt_int}
use qwen_autonomous_supervis.Runtime.Evidence.{
  Reaction, pauses, blocks, violates, breaks, fails, escapes, reaction,
  checkpoint_recovery_worktree,
}
use qwen_autonomous_supervis.Runtime.Tick.Steps.{
  within, Tick, TickState, on_ledger, log, save, tick_event,
}

-- `not isinstance(exc, QwenUnavailable)`
abbrev pub may_be_transient : Reaction → Bool
may_be_transient blocks = false
may_be_transient violates = true
may_be_transient breaks = true
may_be_transient fails = true
may_be_transient pauses = true
may_be_transient escapes = true

abbrev pub failure_scope : Reaction → String
failure_scope blocks = "host"
failure_scope breaks = "host"
failure_scope violates = "work"
failure_scope fails = "work"
failure_scope pauses = "work"
failure_scope escapes = "work"

-- The event of a pause.
abbrev pub pause_kind : Exception → String
pause_kind (budget_exceeded m) = "budget_exhausted"
pause_kind (safety_pause m) = "safety_pause"
pause_kind (qwen_unavailable m) = "safety_pause"
pause_kind (policy_violation m) = "safety_pause"
pause_kind (os_error m) = "safety_pause"
pause_kind (subprocess_error m) = "safety_pause"
pause_kind (operation_not_confirmed m) = "safety_pause"
pause_kind (job_error m) = "safety_pause"
pause_kind (runtime_error m) = "safety_pause"
pause_kind (value_error m) = "safety_pause"
pause_kind (config_error m) = "safety_pause"
pause_kind (type_error m) = "safety_pause"
pause_kind (key_error m) = "safety_pause"
pause_kind (attribute_error m) = "safety_pause"
pause_kind (sqlite_error m) = "safety_pause"

-- The delay after a pause: the loop's minutes, but not less than the retry's base.
unfoldable pub pause_delay : SupervisorConfig → ℕ
pause_delay c = max c.recovery.retry_base_seconds (c.scheduler.loop_minutes * 60 / 1000000)

-- The delay after the `count`-th identical failure.
unfoldable pub retry_delay : SupervisorConfig → ℕ → ℕ
retry_delay c count =
    min c.recovery.retry_maximum_seconds (c.recovery.retry_base_seconds * 2 ^ (count - 1))

abbrev pub with_failures : Ledger → Result ((ℕ × Bool) × List Failure) → Result (ℕ × Bool) × Ledger
with_failures l (ok r) = (ok r.0, record l { failures = r.1 })
with_failures l (err e) = (err e, l)

module _ (c : SupervisorConfig) (t : Tools) (a : Answers) where
  -- `_checkpoint_recovery_worktree`, if the coordinator's run was started.
  unfoldable pub checkpoint_if_started : Tick (Unit {0})
  checkpoint_if_started = do
    started ← read (λ (s : TickState). s.run_started)
    if started
        then within
            (checkpoint_recovery_worktree a.ended_at a.interrupted_head a.interrupted_worktree)
        else give tt

  -- `ledger.fail_active_run(run_id, evidence[-4000:])`
  unfoldable pub fail_run : Exception → Tick (Unit {0})
  fail_run e = on_ledger (λ l. record l {
    runs = fail_active_run a.ended_at a.run_id (last_chars 4000 (text e)) l.runs;
  })

  -- `next_allowed_epoch`, a number of seconds from now
  unfoldable pub wait : ℕ → Tick (Unit {0})
  wait delay = save a.ended_at "next_allowed_epoch" (real (pos (a.ended_at + seconds delay)))

  abbrev pub unsuccessful : String → Exception → TickOutcome
  unsuccessful state e = record {
    tick_id = a.tick_id;
    run_id = a.run_id;
    state = state;
    success = false;
    reason = text e;
    review_passed = none;
  }

  abbrev pub retry_payload : Exception → ℕ → Json
  retry_payload e delay = obj (
      field "reason" (str (last_chars 4000 (text e)))
        (field "retry_after_seconds" (int (pos delay)) end))

  -- `except SafetyPause`
  unfoldable pub pause : Exception → Tick TickOutcome
  pause e = do
    fail_run e
    checkpoint_if_started
    wait (pause_delay c)
    log a.ended_at (pause_kind e)
        (tick_event a (some "waiting") (pause_kind e) a.tick_id (retry_payload e (pause_delay c)))
    give (unsuccessful "waiting" e)

  -- A failure of a dependency that will pass.
  unfoldable pub await_dependency : Exception → Tick TickOutcome
  await_dependency e = do
    checkpoint_if_started
    wait c.recovery.retry_base_seconds
    log a.ended_at "dependency_wait" (
        tick_event a (some "waiting") "dependency-wait" a.tick_id
          (retry_payload e c.recovery.retry_base_seconds))
    give (unsuccessful "waiting" e)

  unfoldable pub note_violation : Exception → Reaction → Tick (Unit {0})
  note_violation e violates = log a.ended_at "policy_violation" (
      tick_event a none "policy-violation" a.tick_id
        (obj (field "error" (str (last_chars 4000 (text e))) end)))
  note_violation e pauses = give tt
  note_violation e blocks = give tt
  note_violation e breaks = give tt
  note_violation e fails = give tt
  note_violation e escapes = give tt

  -- `ledger.record_failure` of the tick: the new count and whether it is quarantined.
  unfoldable pub count_failure : Exception → Tick (ℕ × Bool)
  count_failure e s =
      let (r, l) = with_failures s.ledger (
        record_failure a.ended_at (t.fingerprint "coordinator_tick" (text e)) "coordinator_tick"
          (text e) c.recovery.maximum_identical_failures (failure_scope (reaction e)) s.issue_number
          s.ledger.failures) in
      (r, record s { ledger = l })

  abbrev pub state_after : Bool → String
  state_after quarantined = if quarantined then "failed" else "waiting"

  -- A failure that counts.
  unfoldable pub count_and_wait : Exception → Tick TickOutcome
  count_and_wait e = do
    note_violation e (reaction e)
    checkpoint_if_started
    counted ← count_failure e
    issue ← read (λ (s : TickState). s.issue_number)
    log a.ended_at "tick_failed" (
        tick_event a (some (state_after counted.1)) "tick:failed" a.tick_id (
          obj (
            field "error" (str (last_chars 4000 (text e))) (
              field "fingerprint" (str (t.fingerprint "coordinator_tick" (text e))) (
                field "attempt" (int (pos counted.0)) (
                  field "quarantined" (bool counted.1) (
                    field "scope" (str (failure_scope (reaction e)))
                      (field "issue_number" (opt_int issue) end))))))))
    wait (retry_delay c counted.0)
    give (unsuccessful (state_after counted.1) e)

  -- The second `except` clause.
  unfoldable pub fail_tick : Exception → Tick TickOutcome
  fail_tick e =
      fail_run e
      >> (if may_be_transient (reaction e) && t.is_transient (text e)
          then await_dependency e
          else count_and_wait e)

  unfoldable pub recover_from : Exception → Reaction → Tick TickOutcome
  recover_from e pauses = pause e
  recover_from e escapes = throw e
  recover_from e blocks = fail_tick e
  recover_from e violates = fail_tick e
  recover_from e breaks = fail_tick e
  recover_from e fails = fail_tick e
