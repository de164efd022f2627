-- ===== src/Qwen.antt =====
-- src/qas/qwen.py: the callbacks of a model session on the ledger, and the validation of its output.
-- The model's process itself is outside; a session is what it did, as the callbacks saw it.
pub mod Output
use qwen_autonomous_supervis.Prelude.{ℕ, String, Bool, Option, List, [], ◌∷◌}
use qwen_autonomous_supervis.Prelude.Int.{ℤ}
use qwen_autonomous_supervis.Json.{Json}
use qwen_autonomous_supervis.Errors.{Result}
use qwen_autonomous_supervis.Ledger.{Ledger}
use qwen_autonomous_supervis.Ledger.Leases.{renew_lease}
use qwen_autonomous_supervis.Ledger.Runs.{set_run_running, heartbeat_run}

-- `ProcessResult` of src/qas/models.py. The lines are those of `stdout_tail[-16000:]`, and
-- `has_api_error` is whether `"[API Error:"` stands in `stdout_tail`.
pub record ProcessResult : Type 0 where
  pub exit_code : ℤ
  pub reason : String
  pub stdout_tail : String
  pub stdout_lines : List String
  pub has_api_error : Bool
  pub stderr_tail : String
  pub session_id : Option String
  pub structured_output : Json
  pub usage : Json

-- One call of `heartbeat`: its moment and the session's id, if it is known.
pub record Beat : Type 0 where
  pub at : ℕ
  pub session : Option String

-- A session from the start of its process on: the process, its heartbeats, and how it ended.
pub record Session : Type 0 where
  pub started_at : ℕ
  pub pid : ℕ
  pub beats : List Beat
  pub result : Result ProcessResult

-- `heartbeat` of `_run`: the run's heartbeat, and the lease's renewal.
unfoldable pub heartbeat : ℕ → String → String → Beat → Ledger → Ledger
heartbeat lease_seconds run_id lease_owner b l = record l {
  runs = heartbeat_run b.at run_id b.session l.runs;
  leases = (renew_lease "coordinator" lease_owner b.at b.at lease_seconds l.leases).1;
}

unfoldable pub heartbeats : ℕ → String → String → List Beat → Ledger → Ledger
heartbeats lease_seconds run_id lease_owner [] l = l
heartbeats lease_seconds run_id lease_owner (b ∷ bs) l =
    heartbeats lease_seconds run_id lease_owner bs (heartbeat lease_seconds run_id lease_owner b l)

-- The ledger after the callbacks of a session: `on_started`, and then the heartbeats.
unfoldable pub run_session : ℕ → String → String → Session → Ledger → Ledger
run_session lease_seconds run_id lease_owner s l =
    heartbeats lease_seconds run_id lease_owner s.beats
      (record l { runs = set_run_running s.started_at run_id s.pid l.runs })
