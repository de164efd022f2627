-- ===== src/Runtime/Recovery.antt =====
-- `recover` of src/qas/runtime.py: what a start of the scheduler does about runs and leases that a crash
-- left behind.
pub mod Laws
use qwen_autonomous_supervis.Prelude.{
  ℕ, ◌-◌, String, Bool, true, false, Option, none, some, List, [], ◌∷◌, ltb, length, select,
  if◌then◌else◌,
}
use qwen_autonomous_supervis.Prelude.Int.{pos, negsuc}
use qwen_autonomous_supervis.Prelude.Text.{◌+s◌}
use qwen_autonomous_supervis.Json.{Json, null, int, real, str, obj, end, field, opt_nat}
use qwen_autonomous_supervis.Errors.{Result}
use qwen_autonomous_supervis.Effects.{Effect, give, answer, read, change, ◌>>=◌, ◌>>◌}
use qwen_autonomous_supervis.Config.{SupervisorConfig}
use qwen_autonomous_supervis.Ledger.{Ledger}
use qwen_autonomous_supervis.Ledger.Leases.{Lease, seconds, reap_expired_leases}
use qwen_autonomous_supervis.Ledger.Events.{no_details, append_event}
use qwen_autonomous_supervis.Ledger.Runs.{
  Run, RunStatus, starting, running, succeeded, failed, abandoned, is_active, finish_run,
}
use qwen_autonomous_supervis.Runtime.Budgets.{opt_int}
use qwen_autonomous_supervis.Runtime.Evidence.{checkpoint_recovery_worktree}

-- What the outside answers: the integrity check, the clock at the reaping of leases, when a run's row is
-- looked at and when it is finished, whether the run's process is alive (`_pid_alive`), the clock at the
-- end, and what git answers about the worktree.
pub record Watch : Type 0 where
  pub integrity : Result (Unit {0})
  pub reaped_at : ℕ
  pub seen_at : Run → ℕ
  pub finished_at : Run → ℕ
  pub alive : Run → Bool
  pub ended_at : ℕ
  pub head : Result String
  pub worktree : Result (String × String)

pub record Recovery : Type 0 where
  pub expired_leases : ℕ
  pub recovered_runs : List String
  pub hung_runs : List String

abbrev status_name : RunStatus → String
status_name starting = "starting"
status_name running = "running"
status_name succeeded = "succeeded"
status_name failed = "failed"
status_name abandoned = "abandoned"

-- `isoformat` spells a moment.
module _ (c : SupervisorConfig) (isoformat : ℕ → String) (w : Watch) where
  abbrev lease_payload : Lease → Json
  lease_payload r = obj (
      field "resource" (str r.resource) (
        field "owner" (str r.owner) (
          field "issue_number" (opt_int r.issue_number) (
            field "acquired_at" (str (isoformat r.acquired_at)) (
              field "heartbeat_at" (str (isoformat r.heartbeat_at))
                (field "expires_epoch" (real (pos r.expires_epoch)) end))))))

  -- The events of the expired leases.
  unfoldable pub note_expired : List Lease → Ledger → Ledger
  note_expired [] l = l
  note_expired (r ∷ rs) l = note_expired rs (record l {
    events =
        (append_event w.reaped_at "lease_expired" (record no_details { payload = lease_payload r })
          l.events).1;
  })

  -- The age of a run's heartbeat. A heartbeat after the clock has the age 0.
  abbrev age : Run → ℕ
  age r = w.seen_at r - r.heartbeat_at

  -- `age > silence_timeout_seconds`
  abbrev pub is_silent : Run → Bool
  is_silent r = ltb (seconds c.scheduler.silence_timeout_seconds) (age r)

  -- The event of a silent run whose process is alive, which is terminated.
  unfoldable pub note_hung : Run → Ledger → Ledger
  note_hung r l =
      if w.alive r
      then record l {
        events =
            (append_event (w.seen_at r) "run_hung"
              (record {
                run_id = some r.run_id;
                tick_id = some r.tick_id;
                state = some "failed";
                operation_key = some ("hung:" +s r.run_id);
                payload = obj (
                    field "pid" (opt_nat r.pid) (
                      field "heartbeat_age_seconds" (real (pos (age r))) (
                        field "silence_timeout_seconds"
                          (int (pos c.scheduler.silence_timeout_seconds)) end)));
              })
              l.events).1;
      }
      else l

  unfoldable pub abandon : Run → Ledger → Ledger
  abandon r l = record l {
    runs =
        finish_run (w.finished_at r) r.run_id abandoned (negsuc 0) "recovered_after_crash" l.runs;
    events =
        (append_event (w.finished_at r) "run_recovered"
          (record {
            run_id = some r.run_id;
            tick_id = some r.tick_id;
            state = some "failed";
            operation_key = some ("recover:" +s r.run_id);
            payload = obj (
                field "previous_status" (str (status_name r.status))
                  (field "heartbeat_age_seconds" (real (pos (age r))) end));
          })
          l.events).1;
  }

  -- The loop over the active runs that were selected.
  unfoldable pub recover_runs : List Run → Ledger → Ledger
  recover_runs [] l = l
  recover_runs (r ∷ rs) l = recover_runs rs (if is_silent r then abandon r (note_hung r l) else l)

  abbrev pub ids : List Run → List String
  ids [] = []
  ids (r ∷ rs) = r.run_id ∷ ids rs

  abbrev pub silent_runs : List Run → List Run
  silent_runs rows = select is_silent rows

  abbrev pub checkpoint_if_any : List Run → Effect Ledger (Unit {0})
  checkpoint_if_any [] = give tt
  checkpoint_if_any (r ∷ rs) = checkpoint_recovery_worktree w.ended_at w.head w.worktree

  -- `DELETE` of the expired leases, and the rows that were deleted.
  unfoldable pub reap : Effect Ledger (List Lease)
  reap l =
      let (expired, kept) = reap_expired_leases w.reaped_at l.leases in
      (Result.ok expired, record l { leases = kept })

  -- What follows the integrity check.
  unfoldable pub clean_up : Effect Ledger Recovery
  clean_up = do
    expired ← reap
    change (note_expired expired)
    rows ← read (λ (l : Ledger). select is_active l.runs)
    change (recover_runs rows)
    checkpoint_if_any (silent_runs rows)
    give (record {
      expired_leases = length expired;
      recovered_runs = ids (silent_runs rows);
      hung_runs = ids (select w.alive (silent_runs rows));
    })

  unfoldable pub recover : Effect Ledger Recovery
  recover = do answer w.integrity; clean_up
