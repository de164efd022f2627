-- ===== src/Examples/Tables.antt =====
-- The tables of the ledger (src/qas/db.py) on concrete rows.
use qwen_autonomous_supervis.Prelude.{
  ℕ, ◌+◌, String, str_eq, ◌≡◌, refl, true, false, not, none, some, List, [], ◌∷◌, inl, ◌&&◌, arith,
  ltb, leb, find, length, select, exists, if◌then◌else◌,
}
use qwen_autonomous_supervis.Prelude.Int.{pos, ◌+ℤ◌, max_ℤ}
use qwen_autonomous_supervis.Prelude.Text.{last_chars}
use qwen_autonomous_supervis.Json.{Json, null, int, str, obj, end, field, Fields}
use qwen_autonomous_supervis.Ledger.Leases.{Lease, is_for, seconds, acquire_lease}
use qwen_autonomous_supervis.Ledger.Leases.Exclusion.{
  Call, acquire, renew, release, reap, perform_all, perform_all-find, is_busy, acquire_lease_lem,
}
use qwen_autonomous_supervis.Ledger.Events.{Event, no_details, append_event}
use qwen_autonomous_supervis.Ledger.Events.Laws.{append_event_again}
use qwen_autonomous_supervis.Ledger.Runs.{Run, starting, succeeded, finish_run}
use qwen_autonomous_supervis.Ledger.Runs.Laws.{is_open, is_open-finish_run}
use qwen_autonomous_supervis.Ledger.Failures.{Failure, failure_count, record_failure, unquarantine}
use qwen_autonomous_supervis.Ledger.Failures.Laws.{
  Report, record_all, reports_of, is_quarantined, record_all_lem, unquarantine_lem,
}
use qwen_autonomous_supervis.Ledger.Checkpoints.{
  get_checkpoint, set_checkpoint, get_checkpoint-set_checkpoint,
}
use qwen_autonomous_supervis.Ledger.Usage.{UsageQuery, usage_totals, is_row, has_model_role}
use qwen_autonomous_supervis.Ledger.Usage.Charges.{reported, counted, is_report, usage_totals_lem}
use qwen_autonomous_supervis.Ledger.Usage.Numbers.{sum_if}
use qwen_autonomous_supervis.Ledger.Usage.Collect.{is_input, is_output, is_total}
use qwen_autonomous_supervis.Ledger.Usage.Laws.{usage_totals-older}

-- A lease up to the second 10.
abbrev lease : Lease
lease = record {
  resource = "coordinator";
  owner = "a";
  issue_number = none;
  acquired_at = 0;
  heartbeat_at = 0;
  expires_epoch = 10000000;
}

abbrev calls : List (ℕ × Call)
calls =
    (1, acquire "coordinator" "b" 600 none)
    ∷ (2, renew "coordinator" "b" 600)
    ∷ (3, release "coordinator" "b")
    ∷ (4, reap)
    ∷ []

perform_all-find_example : find (is_for "coordinator") (perform_all calls (lease ∷ [])) ≡ some lease
perform_all-find_example =
    perform_all-find calls lease (lease ∷ [])
      ((omega arith, refl), ((omega arith, refl), ((omega arith, refl), ((omega arith, refl), tt))))
      refl

acquire_lease_lem_example :
    ((acquire_lease "coordinator" "b" 5 11000000 600 none (lease ∷ [])).0
      ≡ not (exists (is_busy "coordinator" 11000000) (lease ∷ [])))
    × (if (acquire_lease "coordinator" "b" 5 11000000 600 none (lease ∷ [])).0
        then find
            (is_for "coordinator")
            (acquire_lease "coordinator" "b" 5 11000000 600 none (lease ∷ [])).1
          ≡ some (record {
            resource = "coordinator";
            owner = "b";
            issue_number = none;
            acquired_at = 5;
            heartbeat_at = 5;
            expires_epoch = 11000000 + seconds 600;
          })
        else (acquire_lease "coordinator" "b" 5 11000000 600 none (lease ∷ [])).1 ≡ lease ∷ [])
acquire_lease_lem_example = acquire_lease_lem "coordinator" "b" 5 11000000 600 none (lease ∷ [])

-- The charge of a coordinator's call.
abbrev charge : Fields
charge =
    field "role" (str "coordinator")
      (field "issue_number" null (field "usage" (obj (field "input_tokens" (int (pos 7)) end)) end))

abbrev event : ℕ → String → String → Json → Event
event id kind tick payload = record {
  id = id;
  timestamp = id;
  kind = kind;
  run_id = some "r";
  tick_id = some tick;
  state = none;
  operation_key = some kind;
  payload = payload;
}

abbrev charged : List Event
charged = event 1 "model_usage" "t" (obj charge) ∷ []

abbrev everything : UsageQuery
everything = record { since = none; tick_id = none; issue_number = none }

usage_totals-older_example :
    usage_totals everything (event 2 "coordinator_completed" "t" (obj charge) ∷ charged)
    ≡ usage_totals everything charged
unfolding is_row has_model_role
usage_totals-older_example =
    usage_totals-older everything (event 2 "coordinator_completed" "t" (obj charge)) charged refl
      refl refl

abbrev newer : Event
newer = event 2 "model_usage" "u" (obj charge)

usage_totals_lem_example :
    let ns = reported (counted everything (newer ∷ charged)) in
    let totals = usage_totals everything (newer ∷ charged) in
    (totals.input_tokens ≡ sum_if is_input ns)
    × (totals.output_tokens ≡ sum_if is_output ns)
    × (totals.total_tokens ≡ max_ℤ (sum_if is_total ns) (sum_if is_input ns +ℤ sum_if is_output ns))
    × (totals.model_calls ≡ length (counted everything (newer ∷ charged)))
    × (select is_report (counted (record everything { issue_number = none }) (newer ∷ charged))
        ≡ select is_report (select (is_row everything) (newer ∷ charged)))
usage_totals_lem_example = usage_totals_lem everything (newer ∷ charged)

abbrev run : Run
run = record {
  run_id = "r";
  tick_id = "t";
  kind = "coordinator";
  status = starting;
  pid = none;
  session_id = none;
  started_at = 1;
  heartbeat_at = 1;
  finished_at = none;
  exit_code = none;
  reason = none;
  output_path = "out";
}

is_open-finish_run_example :
    is_open "r" (finish_run 5 "r" succeeded (pos 0) "completed" (run ∷ []))
    ≡ (if str_eq "r" "r" then false else is_open "r" (run ∷ []))
is_open-finish_run_example =
    is_open-finish_run 5 "r" "r" "completed" succeeded (pos 0) (run ∷ []) (inl refl)

abbrev failure : Failure
failure = record {
  fingerprint = "f";
  operation = "coordinator_tick";
  count = 2;
  first_seen = 1;
  last_seen = 2;
  quarantined = false;
  evidence = "e";
  scope = "work";
  issue_number = none;
}

unquarantine_lem_example :
    (is_quarantined "f" (unquarantine 9 "f" (failure ∷ [])).1
      ≡ (if str_eq "f" "f" then false else is_quarantined "f" (failure ∷ [])))
    × (failure_count "f" (unquarantine 9 "f" (failure ∷ [])).1 ≡ (
        if str_eq "f" "f" && is_quarantined "f" (failure ∷ [])
        then 0
        else failure_count "f" (failure ∷ [])))
unquarantine_lem_example = unquarantine_lem 9 "f" "f" (failure ∷ [])

abbrev report : Report
report = record {
  at = 3;
  fingerprint = "f";
  operation = "coordinator_tick";
  evidence = "e";
  scope = "work";
  issue_number = none;
}

-- The failure reported once more, which reaches the threshold.
abbrev held : Failure
held = record failure { count = 3; last_seen = 3; quarantined = true }

record_all_lem_example :
    (failure_count "f" (held ∷ [])
      ≡ failure_count "f" (failure ∷ []) + reports_of "f" (report ∷ []))
    × (is_quarantined "f" (held ∷ []) ≡ (
        if ltb 0 (reports_of "f" (report ∷ []))
        then leb 3 (failure_count "f" (held ∷ []))
        else is_quarantined "f" (failure ∷ [])))
unfolding record_all record_failure last_chars
record_all_lem_example = record_all_lem 3 (report ∷ []) "f" (failure ∷ []) (held ∷ []) refl

get_checkpoint-set_checkpoint_example :
    get_checkpoint "a" (set_checkpoint 1 "a" (int (pos 3)) [])
    ≡ (if str_eq "a" "a" then int (pos 3) else get_checkpoint "a" [])
get_checkpoint-set_checkpoint_example = get_checkpoint-set_checkpoint 1 "a" "a" (int (pos 3)) []

append_event_again_example :
    append_event 9 "b"
      (record no_details { operation_key = some "x" })
      (append_event 5 "a" (record no_details { operation_key = some "x" }) charged).1
    ≡ (none, (append_event 5 "a" (record no_details { operation_key = some "x" }) charged).1)
append_event_again_example =
    append_event_again 5 9 "a" "b" "x" (record no_details { operation_key = some "x" })
      (record no_details { operation_key = some "x" }) charged refl refl
