-- ===== src/Config/Limits.antt =====
-- The sections of a configuration file that set the server, the budgets, the storage and the jobs, in
-- `load_config` of src/qas/config.py.
use qwen_autonomous_supervis.Prelude.{Bool, ◌&&◌, ◌||◌, ltb, not, is_some}
use qwen_autonomous_supervis.Prelude.Int.{pos, leb_ℤ, pos_part}
use qwen_autonomous_supervis.Json.{int, real, str, Fields, get}
use qwen_autonomous_supervis.Errors.{Result, ok, ◌>>=◌, ◌>>◌}
use qwen_autonomous_supervis.Config.{ObservabilityConfig, BudgetConfig, StorageConfig, JobsConfig}
use qwen_autonomous_supervis.Config.Values.{
  Builtins, raise_if, get_or, positive, optional_positive, int_value, float_value,
}
use qwen_autonomous_supervis.Config.Sections.{is_negative}

unfoldable pub load_observability : Builtins → Fields → Result ObservabilityConfig
load_observability py obs = do
  port ← int_value py (get_or "port" (int (pos 8787)) obs)
  input ← float_value py (get_or "inputCostPerMillion" (real (pos 0)) obs)
  output ← float_value py (get_or "outputCostPerMillion" (real (pos 0)) obs)
  raise_if (not (leb_ℤ (pos 1) port && leb_ℤ port (pos 65535)))
      "observability.port must be between 1 and 65535"
  raise_if (is_negative input || is_negative output) "observability token costs cannot be negative"
  ok (record {
    host = py.str_of (get_or "host" (str "127.0.0.1") obs);
    port = pos_part port;
    input_cost_per_million = pos_part input;
    output_cost_per_million = pos_part output;
  })

-- Whether some cost is limited.
abbrev pub limits_cost : BudgetConfig → Bool
limits_cost b =
    is_some b.max_cost_per_tick
    || is_some b.max_cost_per_hour
    || is_some b.max_cost_per_day
    || is_some b.max_cost_per_issue

-- Whether a token has a price.
abbrev pub has_price : ObservabilityConfig → Bool
has_price o = ltb 0 o.input_cost_per_million || ltb 0 o.output_cost_per_million

unfoldable pub load_budgets : ObservabilityConfig → Fields → Result BudgetConfig
load_budgets o b = do
  tick ← positive (get_or "maxTokensPerTick" (int (pos 200000)) b) "budgets.maxTokensPerTick"
  hour ← positive (get_or "maxTokensPerHour" (int (pos 500000)) b) "budgets.maxTokensPerHour"
  day ← positive (get_or "maxTokensPerDay" (int (pos 2000000)) b) "budgets.maxTokensPerDay"
  issue ← positive (get_or "maxTokensPerIssue" (int (pos 500000)) b) "budgets.maxTokensPerIssue"
  tick_cost ← optional_positive (get "maxCostPerTick" b) "budgets.maxCostPerTick"
  hour_cost ← optional_positive (get "maxCostPerHour" b) "budgets.maxCostPerHour"
  day_cost ← optional_positive (get "maxCostPerDay" b) "budgets.maxCostPerDay"
  issue_cost ← optional_positive (get "maxCostPerIssue" b) "budgets.maxCostPerIssue"
  let budgets : BudgetConfig = record {
    max_tokens_per_tick = tick;
    max_tokens_per_hour = hour;
    max_tokens_per_day = day;
    max_tokens_per_issue = issue;
    max_cost_per_tick = tick_cost;
    max_cost_per_hour = hour_cost;
    max_cost_per_day = day_cost;
    max_cost_per_issue = issue_cost;
  }
  raise_if (limits_cost budgets && not (has_price o))
      "cost budgets require non-zero observability token pricing"
  ok budgets

unfoldable pub load_storage : Fields → Result StorageConfig
load_storage st = do
  free ← positive (get_or "minimumFreeBytes" (int (pos 1073741824)) st) "storage.minimumFreeBytes"
  log ← positive (get_or "maxLogBytes" (int (pos 52428800)) st) "storage.maxLogBytes"
  backups ← positive (get_or "logBackupCount" (int (pos 3)) st) "storage.logBackupCount"
  days ← positive (get_or "artifactRetentionDays" (int (pos 30)) st) "storage.artifactRetentionDays"
  most ← positive (get_or "maximumArtifacts" (int (pos 1000)) st) "storage.maximumArtifacts"
  ok (record {
    minimum_free_bytes = free;
    max_log_bytes = log;
    log_backup_count = backups;
    artifact_retention_days = days;
    maximum_artifacts = most;
  })

unfoldable pub load_jobs : Fields → Result JobsConfig
load_jobs j = do
  most ← positive (get_or "maxConcurrent" (int (pos 2)) j) "jobs.maxConcurrent"
  ok (record { max_concurrent = most })
