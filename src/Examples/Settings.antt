-- ===== src/Examples/Settings.antt =====
-- A configuration, the standard library's functions and the answers of the outside for a tick that merges
-- a change: values for the runs in the modules beside this one.
use qwen_autonomous_supervis.Prelude.{String, true, false, none, some, [], ◌∷◌}
use qwen_autonomous_supervis.Prelude.Int.{pos}
use qwen_autonomous_supervis.Json.{bool, int, str, arr, obj, end, field, nil, Fields}
use qwen_autonomous_supervis.Errors.{ok, err, os_error}
use qwen_autonomous_supervis.Config.{SupervisorConfig}
use qwen_autonomous_supervis.Policy.{exited}
use qwen_autonomous_supervis.Qwen.{Session}
use qwen_autonomous_supervis.Runtime.Answers.{Answers, Tools, TickOutcome}

abbrev pub config : SupervisorConfig
config = record {
  config_path = "/repo/qas.yaml";
  project_root = "/repo";
  runtime_dir = "/state";
  qwen = record {
    binary = "qwen";
    model = "qwen3.8-max";
    approval_mode = "auto";
    sandbox = true;
    persistent_retry = false;
    max_wall_time = "90m";
    max_tool_calls = 300;
    max_session_turns = 120;
    max_output_tokens = 8192;
    use_system_certificate_store = false;
    reasoning_effort = none;
    exclude_tools = [];
    environment_allowlist = "PATH" ∷ [];
  };
  governance = record { protected_paths = "AGENTS.md" ∷ [] };
  dogfood_scenarios_directory = ".autonomy/dogfood";
  scheduler = record {
    loop_minutes = 5000000;
    lease_seconds = 600;
    heartbeat_seconds = 30;
    silence_timeout_seconds = 900;
    shutdown_grace_seconds = 10;
  };
  recovery = record {
    maximum_identical_failures = 3;
    retry_base_seconds = 60;
    retry_maximum_seconds = 3600;
  };
  review = record {
    enabled = true;
    model = "qwen3.8-max";
    max_wall_time = "20m";
    max_tool_calls = 1;
    maximum_critical_findings = 0;
  };
  quality_gates = record { name = "tests"; command = "pytest" ∷ []; timeout_seconds = 60 } ∷ [];
  observability = record {
    host = "127.0.0.1";
    port = 8787;
    input_cost_per_million = 400000;
    output_cost_per_million = 1600000;
  };
  budgets = record {
    max_tokens_per_tick = 1000;
    max_tokens_per_hour = 5000;
    max_tokens_per_day = 20000;
    max_tokens_per_issue = 3000;
    max_cost_per_tick = none;
    max_cost_per_hour = none;
    max_cost_per_day = some 5000000;
    max_cost_per_issue = none;
  };
  storage = record {
    minimum_free_bytes = 100;
    max_log_bytes = 1000;
    log_backup_count = 3;
    artifact_retention_days = 30;
    maximum_artifacts = 100;
  };
  jobs = record { max_concurrent = 2 };
}

abbrev pub tools : Tools
tools = record {
  fnmatch = λ path pattern. false;
  loads = λ s. none;
  canonical_json = λ v. "{}";
  spelled = λ v. "None";
  fingerprint = λ operation evidence. "f";
  is_transient = λ s. false;
  scan_added_secrets = λ diff. [];
}

abbrev pub coordinated : Fields
coordinated = field "state" (str "done") (
    field "action" (str "merge") (
      field "summary" (str "merged")
        (field "mutation" (bool true) (field "requires_review" (bool true) end))))

abbrev pub reviewed : Fields
reviewed =
    field "verdict" (str "pass") (field "summary" (str "good") (field "findings" (arr nil) end))

-- A session that says this, under its id.
abbrev pub session_of : String → Fields → Session
session_of id output = record {
  started_at = 2;
  pid = 7;
  beats = record { at = 3; session = some id } ∷ [];
  result = ok (record {
    exit_code = pos 0;
    reason = "completed";
    stdout_tail = "";
    stdout_lines = [];
    has_api_error = false;
    stderr_tail = "";
    session_id = some id;
    structured_output = obj output;
    usage = obj (field "input_tokens" (int (pos 20)) end);
  });
}

abbrev pub answers : Answers
answers = record {
  tick_id = "t";
  run_id = "r";
  review_run_id = "v";
  started_at = 1;
  checked_at = 2;
  used_at = 4;
  reviewed_at = 5;
  ended_at = 6;
  start_noted = ok tt;
  removed = ok 0;
  integrity = ok tt;
  runtime_free = ok 1000;
  project_free = ok none;
  root_is_dir = true;
  baseline = ok "abc";
  branch = ok "main";
  worktree = ok ("", "d");
  changed_before = ok [];
  snapshot = ok (obj end);
  coordinator = ok (session_of "s1" coordinated);
  final_status = ok "";
  changed_after = ok ("src/app.py" ∷ []);
  after_snapshot = ok (obj end);
  head_after = ok "def";
  diff = ok "+x = 1";
  gate_runs = λ g. ok (1, exited (pos 0) "passed" "");
  reviewer = ok (session_of "s2" reviewed);
  interrupted_head = ok "abc";
  interrupted_worktree = ok ("", "d");
}

-- The same, but the coordinator cannot be started.
abbrev pub broken : Answers
broken = record answers { coordinator = err (os_error "no such file") }

abbrev pub outcome : TickOutcome
outcome = record {
  tick_id = "t";
  run_id = "r";
  state = "done";
  success = true;
  reason = "success";
  review_passed = some true;
}
