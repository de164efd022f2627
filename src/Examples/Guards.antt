-- ===== src/Examples/Guards.antt =====
-- The configuration, the policies and the supervision of a process on concrete inputs.
use qwen_autonomous_supervis.Prelude.{
  ℕ, suc, ◌≤◌, ◌<◌, ◌≡◌, ◌↔◌, refl, String, str_eq, true, false, none, some, [], ◌∷◌, exists, arith,
  if◌then◌else◌,
}
use qwen_autonomous_supervis.Prelude.Int.{pos, scale}
use qwen_autonomous_supervis.Prelude.Text.{
  split_null, starts_with, strip, is_blank, last_chars, decimal,
}
use qwen_autonomous_supervis.Json.{Json, null, bool, int, real, str, arr, obj, end, field}
use qwen_autonomous_supervis.Errors.{ok}
use qwen_autonomous_supervis.Errors.Holds.{Holds}
use qwen_autonomous_supervis.Config.{SupervisorConfig}
use qwen_autonomous_supervis.Config.Values.{
  Builtins, raise_if, found, positive, positive_float, optional_positive, non_negative_integer,
  boolean, string_list, mapping, expand, expand_env, int_value, float_value, duration, resolve,
}
use qwen_autonomous_supervis.Config.Durations.{is_duration, number_text}
use qwen_autonomous_supervis.Config.Sections.{
  default_allowlist, default_protected_paths, load_effort, load_qwen, load_scheduler, load_recovery,
  load_review, load_governance, load_gate, load_gates,
}
use qwen_autonomous_supervis.Config.Limits.{
  load_observability, load_budgets, load_storage, load_jobs,
}
use qwen_autonomous_supervis.Config.Load.{load_fields, load_config}
use qwen_autonomous_supervis.Config.WellFormed.{IsConfig}
use qwen_autonomous_supervis.Config.Invariant.{load_config-IsConfig}
use qwen_autonomous_supervis.Policy.Changes.{changed_paths, add_diff, status_paths}
use qwen_autonomous_supervis.Policy.Changes.Laws.{read_entries, status_paths_lem}
use qwen_autonomous_supervis.Policy.Changes.Stripped.{unstaged, changed_paths-unstaged}
use qwen_autonomous_supervis.Policy.Secrets.{SecretPattern, scan_added_secrets}
use qwen_autonomous_supervis.Policy.Secrets.Laws.{adds_secret, scan_added_secrets_iff}
use qwen_autonomous_supervis.Process.Log.{Files, rotate_output}
use qwen_autonomous_supervis.Process.Log.Laws.{rotate_output_lem}
use qwen_autonomous_supervis.Process.Run.{
  Limits, Turn, State, reason_name, exited, watch, hear, beat, turn, turns, begin,
}
use qwen_autonomous_supervis.Process.Run.Laws.{IsUndisturbed, success-IsUndisturbed}
use qwen_autonomous_supervis.Process.Run.Bounds.{IsWithin, run_process-IsWithin}

abbrev shown : Json → String
shown (str s) = s
shown null = "None"
shown (bool b) = "True"
shown (int n) = "1"
shown (real n) = "1.0"
shown (arr xs) = "[]"
shown (obj fs) = "{}"

-- A host with one file, which names the project and leaves everything else out.
abbrev pub python : Builtins
python = record {
  str_of = shown;
  float_of = λ s. if str_eq s "90" then ok (pos 90000000) else ok (pos 20000000);
  int_of = λ s. ok (pos 1);
  environ = λ name. none;
  sub = λ f s. ok s;
  is_file = λ p. true;
  safe_load = λ p. ok (
      obj (
        field "schema" (str "qas/v1")
          (field "projectRoot" (str "/repo") (field "runtimeDir" (str "/state") end))));
  resolve_path = λ p. p;
  is_absolute = λ p. true;
  join = λ base p. p;
  parent = λ p. "/etc";
  parents = λ p. "/" ∷ [];
  anchor = λ p. "/";
}

abbrev loaded : SupervisorConfig
loaded = record {
  config_path = "/etc/qas.yaml";
  project_root = "/repo";
  runtime_dir = "/state";
  qwen = record {
    binary = "qwen";
    model = "qwen3.8-max";
    approval_mode = "auto";
    sandbox = true;
    persistent_retry = false;
    max_wall_time = "90m";
    max_tool_calls = 300;
    max_session_turns = 120;
    max_output_tokens = 8192;
    use_system_certificate_store = false;
    reasoning_effort = none;
    exclude_tools = [];
    environment_allowlist = default_allowlist;
  };
  scheduler = record {
    loop_minutes = 30000000;
    lease_seconds = 600;
    heartbeat_seconds = 15;
    silence_timeout_seconds = 600;
    shutdown_grace_seconds = 20;
  };
  recovery = record {
    maximum_identical_failures = 3;
    retry_base_seconds = 30;
    retry_maximum_seconds = 1800;
  };
  review = record {
    enabled = true;
    model = "qwen3.8-max";
    max_wall_time = "20m";
    max_tool_calls = 1;
    maximum_critical_findings = 0;
  };
  governance = record { protected_paths = default_protected_paths };
  quality_gates = [];
  dogfood_scenarios_directory = ".autonomy/dogfood";
  observability = record {
    host = "127.0.0.1";
    port = 8787;
    input_cost_per_million = 0;
    output_cost_per_million = 0;
  };
  budgets = record {
    max_tokens_per_tick = 200000;
    max_tokens_per_hour = 500000;
    max_tokens_per_day = 2000000;
    max_tokens_per_issue = 500000;
    max_cost_per_tick = none;
    max_cost_per_hour = none;
    max_cost_per_day = none;
    max_cost_per_issue = none;
  };
  storage = record {
    minimum_free_bytes = 1073741824;
    max_log_bytes = 52428800;
    log_backup_count = 3;
    artifact_retention_days = 30;
    maximum_artifacts = 1000;
  };
  jobs = record { max_concurrent = 2 };
}

loads : load_config python "/etc/qas.yaml" ≡ ok loaded
unfolding raise_if found positive positive_float optional_positive non_negative_integer boolean
    string_list mapping is_duration number_text expand expand_env int_value float_value duration
    resolve load_effort load_qwen load_scheduler load_recovery load_review load_governance load_gate
    load_gates load_observability load_budgets load_storage load_jobs load_fields load_config strip
    is_blank last_chars decimal scale
loads = refl

load_config-IsConfig_example : IsConfig python loaded
load_config-IsConfig_example = load_config-IsConfig python "/etc/qas.yaml" loaded loads

status_paths_lem_example :
    status_paths "?? a\0R  new\0old\0"
    ≡ some (read_entries false (split_null "?? a\0R  new\0old\0") [])
status_paths_lem_example = status_paths_lem "?? a\0R  new\0old\0"

changed_paths-unstaged_example :
    changed_paths
      (record {
        returncode = pos 0;
        stdout = unstaged "AUTONOMY.md" ("?? new.py" ∷ []);
        stderr = "";
      })
      none
    ≡ add_diff none (read_entries false ("?? new.py" ∷ []) ("UTONOMY.md" ∷ []))
changed_paths-unstaged_example =
    changed_paths-unstaged "AUTONOMY.md" ("?? new.py" ∷ []) "" none refl (refl, tt)

abbrev token_pattern : SecretPattern
token_pattern = record { kind = "github_token"; search = starts_with "ghp_" }

scan_added_secrets_iff_example :
    (scan_added_secrets (λ line. none) (token_pattern ∷ []) ("+++ b/a" ∷ "+ghp_1" ∷ []) ≡ [])
    ↔ (exists (adds_secret (λ line. none) (token_pattern ∷ [])) ("+++ b/a" ∷ "+ghp_1" ∷ []) ≡ false)
scan_added_secrets_iff_example =
    scan_added_secrets_iff (λ line. none) (token_pattern ∷ []) ("+++ b/a" ∷ "+ghp_1" ∷ [])

abbrev files : Files
files = record { log = some ("line\n" ∷ []); backup = λ i. none }

rotate_output_lem_example :
    ((rotate_output 3 files).log ≡ none)
    × ((rotate_output 3 files).backup 1 ≡ files.log)
    × ((i : ℕ) → 1 ≤ i → i < 3 → (rotate_output 3 files).backup (suc i) ≡ files.backup i)
    × ((i : ℕ) → 3 < i → (rotate_output 3 files).backup i ≡ files.backup i)
rotate_output_lem_example = rotate_output_lem 3 files (omega arith)

abbrev limits : Limits
limits = record {
  wall_timeout = 5400000000;
  silence_timeout_seconds = 600;
  heartbeats = true;
  heartbeat_interval_seconds = 15;
  max_log_bytes = 1000;
  log_backup_count = 3;
}

abbrev idle : State
idle = record {
  stdout_tail = [];
  stderr_tail = [];
  last_activity = 0;
  last_heartbeat = 0;
  session_id = none;
  structured = none;
  usage = end;
  reason = exited;
  output = record { files = record { log = some []; backup = λ i. none }; log_bytes = 0 };
}

-- A turn of the loop in which nothing happens.
abbrev calm : Turn
calm = record {
  now = 5;
  runs = true;
  still_runs = true;
  terminated = ok tt;
  message = none;
  lease_ok = ok (some true);
  runs_after = true;
  released = ok tt;
}

passes : turns (λ s. none) shown limits 0 (calm ∷ []) idle ≡ ok idle
unfolding watch hear beat turn turns
passes = refl

reports : reason_name (pos 0) exited ≡ "success"
unfolding reason_name
reports = refl

success-IsUndisturbed_example :
    (pos 0 ≡ pos 0) × IsUndisturbed (λ s. none) shown limits 0 (calm ∷ []) idle
success-IsUndisturbed_example =
    success-IsUndisturbed (λ s. none) shown limits 0 (calm ∷ []) idle idle (pos 0) passes reports

run_process-IsWithin_example : Holds (IsWithin (λ s. none) shown limits) (
    turns
      (λ s. none)
      shown
      limits
      0
      (calm ∷ [])
      (begin (λ s. none) shown limits 0 "now" 7 idle.output))
run_process-IsWithin_example =
    run_process-IsWithin (λ s. none) shown limits 0 "now" 7 idle.output (calm ∷ []) (omega arith)
      refl
