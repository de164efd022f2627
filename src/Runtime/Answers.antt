-- ===== src/Runtime/Answers.antt =====
-- What the outside answers to one tick of src/qas/runtime.py, and what it reports back. Git, GitHub,
-- the file system and the model are outside; an answer that raises is an `err`. A tick reads its clock
-- once for each phase.
use qwen_autonomous_supervis.Prelude.{ℕ, String, Bool, Option, List}
use qwen_autonomous_supervis.Json.{Json}
use qwen_autonomous_supervis.Errors.{Result}
use qwen_autonomous_supervis.Config.{GateConfig}
use qwen_autonomous_supervis.Policy.{Matcher, GateRun}
use qwen_autonomous_supervis.Qwen.{Session}

pub record Answers : Type 0 where
  -- `uuid.uuid4()`, three times
  pub tick_id : String
  pub run_id : String
  pub review_run_id : String
  -- the clock (microseconds) at the start, before the first budget test, after the coordinator, after
  -- the reviewer, and at the end
  pub started_at : ℕ
  pub checked_at : ℕ
  pub used_at : ℕ
  pub reviewed_at : ℕ
  pub ended_at : ℕ
  -- whether the event `tick_started` could be written
  pub start_noted : Result (Unit {0})
  -- maintenance: the artifacts removed, the integrity check, and the free bytes of the runtime directory
  -- and, if it lies on another volume, of the project
  pub removed : Result ℕ
  pub integrity : Result (Unit {0})
  pub runtime_free : Result ℕ
  pub project_free : Result (Option ℕ)
  pub root_is_dir : Bool
  -- `git rev-parse HEAD` and `git branch --show-current`
  pub baseline : Result String
  pub branch : Result String
  -- `_worktree_evidence`: the status and the digest
  pub worktree : Result (String × String)
  -- `changed_paths` before the coordinator runs
  pub changed_before : Result (List String)
  -- `reconcile`
  pub snapshot : Result Json
  pub coordinator : Result Session
  -- `git status` after the coordinator
  pub final_status : Result String
  -- `changed_paths` since the baseline
  pub changed_after : Result (List String)
  pub after_snapshot : Result Json
  pub head_after : Result String
  pub diff : Result String
  pub gate_runs : GateConfig → Result (ℕ × GateRun)
  pub reviewer : Result Session
  -- head, status and digest for the checkpoint of an interrupted run
  pub interrupted_head : Result String
  pub interrupted_worktree : Result (String × String)

-- Functions of the standard library that the tick uses: `fnmatch.fnmatchcase`, `json.loads` (None where
-- it raises), `canonical_json`, `str` of a value that is no text, `fingerprint` of `models.py`, and the searches by regular expressions:
-- `_TRANSIENT_DEPENDENCY`, and `scan_added_secrets` with its findings.
pub record Tools : Type 0 where
  pub fnmatch : Matcher
  pub loads : String → Option Json
  pub canonical_json : Json → String
  pub spelled : Json → String
  pub fingerprint : String → String → String
  pub is_transient : String → Bool
  pub scan_added_secrets : String → List Json

pub record TickOutcome : Type 0 where
  pub tick_id : String
  pub run_id : String
  pub state : String
  pub success : Bool
  pub reason : String
  pub review_passed : Option Bool
