-- ===== src/Runtime/Tick/Run.antt =====
-- `tick` of src/qas/runtime.py: the lease, the `try` block, its `except` clauses and its `finally`.
use qwen_autonomous_supervis.Prelude.{Bool, true, false, Option, none, some, not, if◌then◌else◌}
use qwen_autonomous_supervis.Prelude.Int.{pos}
use qwen_autonomous_supervis.Json.{
  Json, null, bool, real, str, obj, Fields, end, field, get, truthy,
}
use qwen_autonomous_supervis.Errors.{Result, ok, err, policy_violation}
use qwen_autonomous_supervis.Effects.{give, throw_if, catch, finally, ◌>>=◌, ◌>>◌}
use qwen_autonomous_supervis.Config.{SupervisorConfig}
use qwen_autonomous_supervis.Ledger.{Ledger}
use qwen_autonomous_supervis.Ledger.Leases.{acquire_lease, release_lease}
use qwen_autonomous_supervis.Ledger.Events.{append_event}
use qwen_autonomous_supervis.Qwen.{ProcessResult}
use qwen_autonomous_supervis.Runtime.Answers.{Answers, Tools, TickOutcome}
use qwen_autonomous_supervis.Runtime.Tick.Steps.{Tick, TickState, str_of, log, save, tick_event}
use qwen_autonomous_supervis.Runtime.Tick.Phases.{prepare, coordinate, inspect, verify}
use qwen_autonomous_supervis.Runtime.Tick.Review.{review}
use qwen_autonomous_supervis.Runtime.Evidence.{reaction}
use qwen_autonomous_supervis.Runtime.Tick.Handler.{recover_from}

abbrev pub opt_bool : Option Bool → Json
opt_bool none = null
opt_bool (some b) = bool b

module _ (c : SupervisorConfig) (t : Tools) (a : Answers) where
  -- The independent review of a mutation, which must not opt out of it.
  unfoldable pub demand_review : Fields → ProcessResult → Tick (Option Bool)
  demand_review output result = do
    throw_if (not (truthy (get "requires_review" output)))
        (policy_violation "A product mutation cannot opt out of independent review")
    passed ← review c t a result.session_id
    throw_if (not passed) (policy_violation "Independent review failed")
    give (some passed)

  -- What a mutation must pass: the secret scan and the gates, and the review if it is enabled.
  unfoldable pub qualify : Fields → ProcessResult → Bool → Tick (Option Bool)
  qualify output result true =
      verify c t a >>= λ _. if c.review.enabled then demand_review output result else give none
  qualify output result false = give none

  unfoldable pub finish_tick : Fields → Option Bool → Tick TickOutcome
  finish_tick output passed = do
    log a.ended_at "tick_finished" (
        tick_event a (some (str_of t.spelled (get "state" output))) "tick:finish" a.tick_id
          (obj (field "success" (bool true) (field "review_passed" (opt_bool passed) end))))
    save a.ended_at "last_success_epoch" (real (pos a.ended_at))
    save a.ended_at "recovery_worktree" null
    give (record {
      tick_id = a.tick_id;
      run_id = a.run_id;
      state = str_of t.spelled (get "state" output);
      success = true;
      reason = "success";
      review_passed = passed;
    })

  -- The `try` block.
  unfoldable pub work : Tick TickOutcome
  work = do
    begun ← prepare c t a
    result ← coordinate c t a
    output ← inspect c t a begun result
    passed ← qualify output result (truthy (get "mutation" output))
    finish_tick output passed

  -- The `finally` clause.
  unfoldable pub release : TickState → TickState
  release s =
      let (released, kept) = release_lease "coordinator" a.tick_id s.ledger.leases in
      record s {
        ledger = record s.ledger {
          leases = kept;
          events =
              (append_event a.ended_at "lease_released"
                (tick_event a none "lease:release:coordinator" a.tick_id (
                  obj (
                    field "resource" (str "coordinator")
                      (field "owner" (str a.tick_id) (field "released" (bool released) end)))))
                s.ledger.events).1;
        };
      }

  -- The tick once it holds the lease, with its first event written.
  unfoldable pub supervise : Tick TickOutcome
  supervise =
      log a.started_at "tick_started"
        (tick_event a (some "researching") "tick:start" a.tick_id (obj end))
      >> finally (catch (work) (λ e. recover_from c t a e (reaction e))) release

  abbrev pub busy : TickOutcome
  busy = record {
    tick_id = a.tick_id;
    run_id = a.run_id;
    state = "waiting";
    success = false;
    reason = "coordinator_lease_busy";
    review_passed = none;
  }

  abbrev pub begin : Ledger → TickState
  begin l = record { ledger = l; run_started = false; issue_number = none }

  -- `append_event("tick_started", …)` stands after `acquire_lease` and before the `try` block: an exception of
  -- it ends the tick at once. The statements of the ledger from there on are taken to succeed, those of the
  -- `finally` clause too.
  abbrev pub note_start : Result (Unit {0}) → Ledger → Result TickOutcome × Ledger
  note_start (ok u) l = let (r, s) = supervise (begin l) in (r, s.ledger)
  note_start (err e) l = (err e, l)

  unfoldable pub tick : Ledger → Result TickOutcome × Ledger
  tick l =
      let (held, leases) =
        acquire_lease "coordinator" a.tick_id a.started_at a.started_at c.scheduler.lease_seconds
          none l.leases in
      if held then note_start a.start_noted (record l { leases = leases }) else (ok busy, l)
