-- ===== src/Config/Load.antt =====
-- `load_config` of src/qas/config.py: a configuration from its file. The parameters of the section are
-- Python's and the operating system's.
use qwen_autonomous_supervis.Prelude.{
  String, str_eq, Bool, false, Option, none, some, ◌||◌, not, exists,
}
use qwen_autonomous_supervis.Prelude.Text.{◌+s◌}
use qwen_autonomous_supervis.Json.{str, arr, nil, Fields, get}
use qwen_autonomous_supervis.Errors.{Result, ok, ◌>>=◌, ◌>>◌}
use qwen_autonomous_supervis.Config.{SupervisorConfig}
use qwen_autonomous_supervis.Config.Values.{
  Builtins, raise_if, get_or, text_value, items_value, found, mapping, resolve, expand_env,
}
use qwen_autonomous_supervis.Config.Sections.{
  load_qwen, load_scheduler, load_recovery, load_review, load_governance, load_gates,
}
use qwen_autonomous_supervis.Config.Limits.{
  load_observability, load_budgets, load_storage, load_jobs,
}

abbrev is_schema : Option String → Bool
is_schema none = false
is_schema (some s) = str_eq s "qas/v1"

module _ (py : Builtins) where
  -- Whether the runtime directory is the project's root, below it, above it or a file system's root.
  abbrev pub overlaps : String → String → Bool
  overlaps runtime project =
      str_eq runtime project
      || exists (str_eq project) (py.parents runtime)
      || exists (str_eq runtime) (py.parents project)
      || str_eq runtime (py.anchor runtime)

  -- The configuration from the fields of a file, with the variables replaced.
  unfoldable pub load_fields : String → Fields → Result SupervisorConfig
  load_fields config_path values = do
    raise_if (not (is_schema (text_value (get "schema" values)))) "schema must be qas/v1"
    let base = py.parent config_path
    project_root ← resolve py base (get "projectRoot" values) "projectRoot"
    runtime_dir ← resolve py base (get_or "runtimeDir" (str "./runtime") values) "runtimeDir"
    raise_if (overlaps runtime_dir project_root)
        "runtimeDir must be outside projectRoot so runtime state is never committed"
    q ← mapping (get "qwen" values) "qwen"
    qwen ← load_qwen py q
    s ← mapping (get "scheduler" values) "scheduler"
    scheduler ← load_scheduler s
    r ← mapping (get "recovery" values) "recovery"
    recovery ← load_recovery r
    rv ← mapping (get "review" values) "review"
    review ← load_review py qwen.model rv
    gov ← mapping (get "governance" values) "governance"
    governance ← load_governance gov
    gates_raw ←
        found (items_value (get_or "qualityGates" (arr nil) values)) "qualityGates must be a list"
    gates ← load_gates py 0 gates_raw
    dogfood ← mapping (get "dogfood" values) "dogfood"
    obs ← mapping (get "observability" values) "observability"
    observability ← load_observability py obs
    b ← mapping (get "budgets" values) "budgets"
    budgets ← load_budgets observability b
    st ← mapping (get "storage" values) "storage"
    storage ← load_storage st
    j ← mapping (get "jobs" values) "jobs"
    jobs ← load_jobs j
    ok (record {
      config_path = config_path;
      project_root = project_root;
      runtime_dir = runtime_dir;
      qwen = qwen;
      scheduler = scheduler;
      recovery = recovery;
      review = review;
      governance = governance;
      quality_gates = gates;
      dogfood_scenarios_directory =
          py.str_of (get_or "scenariosDirectory" (str ".autonomy/dogfood") dogfood);
      observability = observability;
      budgets = budgets;
      storage = storage;
      jobs = jobs;
    })

  unfoldable pub load_config : String → Result SupervisorConfig
  load_config path = do
    let config_path = py.resolve_path path
    raise_if (not (py.is_file config_path)) ("Configuration file not found: " +s config_path)
    raw ← py.safe_load config_path
    fields ← mapping raw "configuration"
    values ← expand_env py fields
    load_fields config_path values
