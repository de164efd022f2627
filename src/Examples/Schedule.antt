-- ===== src/Examples/Schedule.antt =====
-- The scheduler of src/qas/runtime.py on concrete inputs: recovery, retention and the rounds of the loop.
use qwen_autonomous_supervis.Prelude.{
  ℕ, ◌+◌, ◌≤◌, ◌≡◌, refl, String, true, false, none, some, [], ◌∷◌, map, length, exists, All, arith,
  count, select, not, Bool,
}
use qwen_autonomous_supervis.Errors.{ok}
use qwen_autonomous_supervis.Effects.{◌>>=◌, catch}
use qwen_autonomous_supervis.Ledger.{Ledger, empty}
use qwen_autonomous_supervis.Ledger.Leases.{seconds, reap_expired_leases}
use qwen_autonomous_supervis.Ledger.Events.{append_event, latest_of_kind, recent_events}
use qwen_autonomous_supervis.Ledger.Checkpoints.{set_checkpoint, get_checkpoint}
use qwen_autonomous_supervis.Ledger.Runs.{running, finish_run, active_run}
use qwen_autonomous_supervis.Runtime.Evidence.{checkpoint_recovery_worktree, take_evidence, forgive}
use qwen_autonomous_supervis.Runtime.Artifacts.{Artifact, is_active_path, cutoff, retain_artifacts}
use qwen_autonomous_supervis.Runtime.Artifacts.Laws.{IsExcused, retain_artifacts_lem}
use qwen_autonomous_supervis.Runtime.Artifacts.Order.{IsNewest}
use qwen_autonomous_supervis.Runtime.Recovery.{
  Watch, Recovery, note_expired, note_hung, abandon, recover_runs, reap, clean_up, recover,
}
use qwen_autonomous_supervis.Runtime.Recovery.Laws.{settle, is_over, recover-settle}
use qwen_autonomous_supervis.Runtime.Tick.Run.{begin, supervise}
use qwen_autonomous_supervis.Runtime.Loop.{Pass, passes}
use qwen_autonomous_supervis.Runtime.Loop.Backoff.{ticks_started, failure_waits}
use qwen_autonomous_supervis.Examples.Settings.{config, tools, broken, answers}
use qwen_autonomous_supervis.Examples.Ticks.{missing, fails}

-- The spelling of a moment is of no interest here.
abbrev spelled : ℕ → String
spelled n = "now"

-- A coordinator that stopped 1000 seconds ago, with its lease.
abbrev crashed : Ledger
crashed = record empty {
  runs =
      record {
        run_id = "r";
        tick_id = "t";
        kind = "coordinator";
        status = running;
        pid = some 7;
        session_id = none;
        started_at = 0;
        heartbeat_at = 0;
        finished_at = none;
        exit_code = none;
        reason = none;
        output_path = "r.jsonl";
      }
      ∷ [];
  leases =
      record {
        resource = "coordinator";
        owner = "t";
        issue_number = none;
        acquired_at = 0;
        heartbeat_at = 0;
        expires_epoch = seconds 600;
      }
      ∷ [];
}

abbrev watch : Watch
watch = record {
  integrity = ok tt;
  reaped_at = seconds 1000;
  seen_at = λ r. seconds 1000;
  finished_at = λ r. seconds 1001;
  alive = λ r. true;
  ended_at = seconds 1002;
  head = ok "abc";
  worktree = ok ("", "d");
}

abbrev recovered : Recovery
recovered = record { expired_leases = 1; recovered_runs = "r" ∷ []; hung_runs = "r" ∷ [] }

recovers : (recover config spelled watch crashed).0 ≡ ok recovered
unfolding ◌>>=◌ catch reap_expired_leases append_event latest_of_kind recent_events set_checkpoint
    get_checkpoint finish_run active_run checkpoint_recovery_worktree take_evidence forgive
    note_expired note_hung abandon recover_runs reap clean_up recover
recovers = refl

recover-settle_example :
    ((recover config spelled watch crashed).1.runs ≡ map (settle config spelled watch) crashed.runs)
    × (exists (is_over config spelled watch) (recover config spelled watch crashed).1.leases
        ≡ false)
recover-settle_example = recover-settle config spelled watch crashed recovered (refl, tt) recovers

abbrev old_log : Artifact
old_log = record { path = "old.jsonl"; modified_at = 5 }

retain_artifacts_lem_example :
    let (kept, removed) = retain_artifacts config.storage (seconds 3000000) none (old_log ∷ []) in
    (length kept ≤ 100)
    × All (λ (f : Artifact). cutoff config.storage (seconds 3000000) ≤ f.modified_at) kept
    × All (IsExcused config.storage (seconds 3000000) (length kept)) removed
    × All (IsNewest removed) kept
    × ((p : Artifact → Bool)
        → count p kept + count p removed
          ≡ count p (select (λ (f : Artifact). not (is_active_path none f)) (old_log ∷ [])))
    × (exists (is_active_path none) removed ≡ false)
retain_artifacts_lem_example =
    retain_artifacts_lem config.storage (seconds 3000000) none (old_log ∷ [])

-- A round of the scheduler at second 5.
abbrev early : Pass
early = record { watch = watch; now = seconds 5; answers = answers }

failure_waits_example :
    ticks_started
      (passes config tools spelled false
        (early ∷ [])
        (supervise config tools broken (begin config tools broken empty)).1.ledger).1
    ≡ ticks_started (supervise config tools broken (begin config tools broken empty)).1.ledger
failure_waits_example =
    failure_waits config tools spelled broken (begin config tools broken empty) missing false
      (early ∷ []) fails refl (omega arith, tt)
