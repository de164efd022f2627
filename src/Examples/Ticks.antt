-- ===== src/Examples/Ticks.antt =====
-- Ticks (src/qas/runtime.py) and their budgets on concrete answers.
use qwen_autonomous_supervis.Prelude.{
  ◌≤◌, String, ◌≡◌, ◌↔◌, refl, false, none, some, [], not, ◌&&◌, min, arith, exists,
}
use qwen_autonomous_supervis.Prelude.Int.{pos}
use qwen_autonomous_supervis.Json.{null}
use qwen_autonomous_supervis.Errors.{Exception, ok, err, budget_exceeded}
use qwen_autonomous_supervis.Ledger.{empty}
use qwen_autonomous_supervis.Ledger.Leases.{is_held_by}
use qwen_autonomous_supervis.Ledger.Leases.Exclusion.{is_busy}
use qwen_autonomous_supervis.Effects.{◌>>=◌, catch, finally}
use qwen_autonomous_supervis.Runtime.Tick.Steps.{
  within, issue_of_branch, on_ledger, log, save, set_issue, check_budgets, charge_model, open_run,
  close_run,
}
use qwen_autonomous_supervis.Runtime.Tick.Phases.{
  note_removed, maintenance, prepare, mark_started, coordinate, inspect, run_gates, verify,
}
use qwen_autonomous_supervis.Runtime.Tick.Review.{
  fail_review, launch_reviewer, accept_reviewer, judge, review,
}
use qwen_autonomous_supervis.Runtime.Tick.Run.{
  demand_review, qualify, finish_tick, work, release, supervise, tick,
}
use qwen_autonomous_supervis.Runtime.Budgets.{
  cost, scopes_of, check_scope, check_scopes, assert_budgets, record_model_usage,
}
use qwen_autonomous_supervis.Ledger.Leases.{
  acquire_lease, renew_lease, release_lease, reap_expired_leases,
}
use qwen_autonomous_supervis.Ledger.Events.{
  append_event, recent_events, event_count, latest_of_kind,
}
use qwen_autonomous_supervis.Ledger.Runs.{
  start_run, set_run_running, heartbeat_run, finish_run, fail_active_run, active_run,
}
use qwen_autonomous_supervis.Ledger.Checkpoints.{set_checkpoint, get_checkpoint}
use qwen_autonomous_supervis.Ledger.Usage.{
  is_row, has_model_role, has_issue_tick, is_charged, charge, charge_rows, usage_totals,
}
use qwen_autonomous_supervis.Ledger.Usage.Collect.{
  collect, is_spelled, is_input, is_output, is_total, add_number,
}
use qwen_autonomous_supervis.Qwen.{heartbeat, heartbeats, run_session}
use qwen_autonomous_supervis.Qwen.Output.{
  unwrap, accept, first_accepted, scan_lines, validated_output,
}
use qwen_autonomous_supervis.Policy.{protected_changes, assert_governance, run_gate}
use qwen_autonomous_supervis.Prelude.Text.{last_chars, is_blank, decimal, parse_int}
use qwen_autonomous_supervis.Prelude.Int.{◌+ℤ◌, scale}
use qwen_autonomous_supervis.Runtime.Tick.Run.{begin}
use qwen_autonomous_supervis.Ledger.Failures.{record_failure}
use qwen_autonomous_supervis.Runtime.Answers.{TickOutcome}
use qwen_autonomous_supervis.Runtime.Budgets.Laws.{
  HasBudget, with_charge, assert_budgets_iff, record_model_usage_lem,
}
use qwen_autonomous_supervis.Runtime.Evidence.{checkpoint_recovery_worktree, take_evidence, forgive}
use qwen_autonomous_supervis.Runtime.Tick.Handler.{
  retry_delay, fail_run, wait, pause_delay, fail_tick, count_and_wait, count_failure,
  checkpoint_if_started, note_violation, recover_from,
}
use qwen_autonomous_supervis.Runtime.Tick.Delays.{retry_delay_lem}
use qwen_autonomous_supervis.Runtime.Tick.Released.{is_error, tick-releases}
use qwen_autonomous_supervis.Runtime.Tick.Settled.{IsSettled, supervise-IsSettled}
use qwen_autonomous_supervis.Runtime.Tick.Success.{IsVerified}
use qwen_autonomous_supervis.Runtime.Tick.Verified.{success-IsVerified}
use qwen_autonomous_supervis.Examples.Settings.{config, tools, answers, broken, outcome}

assert_budgets_iff_example :
    (assert_budgets config 5 "t" (some (pos 4)) [] ≡ ok tt)
    ↔ HasBudget config 5 "t" (some (pos 4)) []
assert_budgets_iff_example = assert_budgets_iff config 5 "t" (some (pos 4)) []

record_model_usage_lem_example :
    let (r, events') = record_model_usage config 5 "coordinator" "r" "t" none null [] in
    (events' ≡ with_charge 5 "coordinator" "r" "t" none null [])
    × ((r ≡ ok tt) ↔ HasBudget config 5 "t" none events')
    × ((e : Exception) → r ≡ err e → (m : String) × (e ≡ budget_exceeded m))
record_model_usage_lem_example = record_model_usage_lem config 5 "coordinator" "r" "t" none null []

retry_delay_lem_example :
    (min 60 3600 ≤ retry_delay config 2)
    × ((retry_delay config 2 ≤ 3600)
        × ((retry_delay config 1 ≡ min 3600 60) × (retry_delay config 2 ≤ retry_delay config 5)))
retry_delay_lem_example = retry_delay_lem config 2 5 (omega arith)

tick-releases_example :
    exists (is_held_by "coordinator" "t") (tick config tools broken empty).1.leases
    ≡ (not (exists (is_busy "coordinator" 1) []) && is_error {A = Unit {0}} (ok tt))
tick-releases_example = tick-releases config tools broken empty refl

succeeds : (tick config tools answers empty).0 ≡ ok outcome
unfolding ◌>>=◌ catch finally issue_of_branch on_ledger log save set_issue check_budgets
    charge_model open_run close_run note_removed maintenance prepare mark_started coordinate inspect
    run_gates verify fail_review launch_reviewer accept_reviewer judge review demand_review qualify
    finish_tick work release supervise tick cost scopes_of check_scope check_scopes assert_budgets
    record_model_usage acquire_lease renew_lease release_lease reap_expired_leases append_event
    recent_events event_count latest_of_kind start_run set_run_running heartbeat_run finish_run
    fail_active_run active_run set_checkpoint get_checkpoint is_row has_model_role has_issue_tick
    is_charged charge charge_rows usage_totals is_spelled is_input is_output is_total add_number
    heartbeat heartbeats run_session unwrap accept first_accepted scan_lines validated_output
    protected_changes assert_governance run_gate last_chars is_blank decimal parse_int ◌+ℤ◌ scale
    collect
succeeds = refl

success-IsVerified_example : IsVerified config tools answers outcome
success-IsVerified_example = success-IsVerified config tools answers empty outcome succeeds refl

-- The coordinator's program is missing: a failure of the host, the first of its kind.
abbrev pub missing : TickOutcome
missing = record {
  tick_id = "t";
  run_id = "r";
  state = "waiting";
  success = false;
  reason = "no such file";
  review_passed = none;
}

pub fails : (supervise config tools broken (begin config tools broken empty)).0 ≡ ok missing
unfolding ◌>>=◌ catch finally issue_of_branch on_ledger log save set_issue check_budgets
    charge_model open_run close_run note_removed maintenance prepare mark_started coordinate inspect
    run_gates verify fail_review launch_reviewer accept_reviewer judge review demand_review qualify
    finish_tick work release supervise tick cost scopes_of check_scope check_scopes assert_budgets
    record_model_usage acquire_lease renew_lease release_lease reap_expired_leases append_event
    recent_events event_count latest_of_kind start_run set_run_running heartbeat_run finish_run
    fail_active_run active_run set_checkpoint get_checkpoint is_row has_model_role has_issue_tick
    is_charged charge charge_rows usage_totals is_spelled is_input is_output is_total add_number
    heartbeat heartbeats run_session unwrap accept first_accepted scan_lines validated_output
    protected_changes assert_governance run_gate last_chars is_blank decimal parse_int ◌+ℤ◌ scale
    collect fail_run wait pause_delay retry_delay fail_tick count_and_wait count_failure within
    checkpoint_if_started checkpoint_recovery_worktree take_evidence forgive note_violation
    recover_from record_failure
fails = refl

supervise-IsSettled_example :
    IsSettled config tools broken
      (supervise config tools broken (begin config tools broken empty)).1
supervise-IsSettled_example =
    supervise-IsSettled config tools broken (begin config tools broken empty) missing fails refl
